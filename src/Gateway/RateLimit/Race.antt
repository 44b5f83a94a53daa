-- ===== src/Gateway/RateLimit/Race.antt =====
-- Requests of one client that overlap, which the limiter counts once.
use infra_red.Prelude.{
  ℕ, ◌+◌, ◌*◌, ◌/◌, ◌≤◌, ◌<◌, ◌≡◌, refl, ap, ◌∙◌, String, Bool, false, List, [], ◌∷◌, leb, ltb,
  length, str_eq_refl, arith, if◌then◌else◌,
}
use infra_red.Redis.{Redis}
use infra_red.Redis.Sorted.{Sorted, drop_member, place_scored}
use infra_red.Gateway.RateLimit.{admitted, member, prune, register, settle, overlap}
use infra_red.Gateway.RateLimit.Window.{keep, keep-keep, length-place}
use infra_red.Gateway.RateLimit.Member.{drop-Made}
use infra_red.Gateway.RateLimit.Refine.{Tracks, prune-Tracks, pruned_lem}

-- what is placed and dropped again leaves no trace
drop-place :
    (before : String → String → Bool) (m : String) (s : ℕ) (xs : List (String × ℕ))
    → drop_member m xs ≡ xs
    → drop_member m (place_scored before m s xs) ≡ xs
drop-place before m s xs h = placed xs ∙ h
  where
    placed :
        (ys : List (String × ℕ)) → drop_member m (place_scored before m s ys) ≡ drop_member m ys
    placed [] = ground (arith, str_eq_refl m)
    placed ((n, r) ∷ ys) = ground (arith, str_eq_refl m, placed ys)

module _ {R : Redis String} (Z : Sorted R) (max_requests window_seconds : ℕ) (key : String) where
  -- a registration writes the entry and gives the key its end
  zrange-register :
      (now n : ℕ) (db : R.Db)
      → Z.zrange (now / 1000) key (register Z max_requests window_seconds key now n db)
        ≡ place_scored Z.before
            (member now n)
            now
            (drop_member (member now n) (Z.zrange (now / 1000) key db))
  zrange-register now n db =
      Z.zrange-expire (now / 1000) (now / 1000) key (window_seconds + 60) _ (omega arith)
      ∙ live (now / 1000) _
      ∙ Z.zrange-zadd (now / 1000) key (member now n) now db
    where
      live :
          (t : ℕ) (xs : List (String × ℕ))
          → (if ltb t (t + (window_seconds + 60)) then xs else []) ≡ xs
      live t xs = ground arith

  -- Where the window has room, two requests of one millisecond whose commands overlap are both admitted,
  -- also if only one place is left, and the two leave one entry, so that only one of them counts
  -- afterwards.
  pub overlap_counts_once :
      (last now : ℕ) (xs : List (String × ℕ)) (db : R.Db)
      → Tracks Z max_requests window_seconds key last xs db
      → last ≤ now
      → length (keep (window_seconds * 1000) now xs) < max_requests
      → let out = overlap Z max_requests window_seconds key now db in
        (out.1 ≡ admitted)
        × (out.2 ≡ admitted)
        × (length (Z.zrange (now / 1000) key out.0)
            ≡ length (keep (window_seconds * 1000) now xs) + 1)
  unfolding overlap settle
  overlap_counts_once last now xs db h l room =
      let w : ℕ = window_seconds * 1000 in
      let left = keep w now xs in
      let m = member now (length left) in
      let once = prune Z max_requests window_seconds key now db in
      let twice = prune Z max_requests window_seconds key now once in
      let tracks = prune-Tracks Z max_requests window_seconds key last now xs db h l in
      let e : Z.zrange (now / 1000) key twice ≡ left =
        pruned_lem Z max_requests window_seconds key now now left once tracks (omega arith)
        ∙ keep-keep w now now xs (omega arith) in
      let c : Z.zcard (now / 1000) key twice ≡ length left =
        Z.zcard_lem (now / 1000) key twice ∙ ap (λ (zs : List (String × ℕ)). length zs) e in
      let gone = drop-Made w now (length left) left tracks.made in
      let put = λ (zs : List (String × ℕ)). place_scored Z.before m now (drop_member m zs) in
      let first_ : put (Z.zrange (now / 1000) key twice) ≡ place_scored Z.before m now left =
        ap put e ∙ ap (place_scored Z.before m now) gone in
      let second_ : put (put (Z.zrange (now / 1000) key twice)) ≡ place_scored Z.before m now left =
        ap put first_ ∙ ap (place_scored Z.before m now) (drop-place Z.before m now left gone) in
      let open_ : leb max_requests (length left) ≡ false = ground (arith, room) in
      rw (c, open_)
        (
          refl,
          refl,
          ap (λ (zs : List (String × ℕ)). length zs)
                (zrange-register now (length left) _
                  ∙ ap put (zrange-register now (length left) twice)
                  ∙ second_)
              ∙ length-place Z.before m now left,
        )
