-- ===== src/Gateway/RateLimit/Refine.antt =====
-- The limiter over Redis does what the log of admissions does.
use infra_red.Prelude.{
  ℕ, ◌+◌, ◌*◌, ◌/◌, ◌≤◌, ◌<◌, ◌≡◌, refl, sym, ap, ◌∙◌, String, List, [], ◌∷◌, leb, ltb, length,
  Bool-cases, inl, inr, subst, arith, if◌then◌else◌,
}
use infra_red.Prelude.All.{All}
use infra_red.Redis.{Redis}
use infra_red.Redis.Sorted.{Sorted, drop_member, place_scored}
use infra_red.Gateway.RateLimit.{Outcome, refused, member, prune, register, settle, limit, serve}
use infra_red.Gateway.RateLimit.Window.{
  ideal, ideal_run, scores, keep, outside-keep, scores-keep, keep-keep, keep-old, SortedFrom,
  keep-SortedFrom, scores-place, place-NoLater, length-place, place-SortedFrom, wait_of_lem,
  length-scores,
}
use infra_red.Gateway.RateLimit.Member.{Made, Made-NoLater, keep-Made, drop-Made, place-Made}

-- times in their order, from a first one
abbrev pub Ordered : ℕ → List ℕ → Type 0
Ordered t [] = Unit
Ordered t (a ∷ times) = (t ≤ a) × Ordered a times

module _ {R : Redis String} (Z : Sorted R) (max_requests window_seconds : ℕ) (key : String) where
  abbrev pub w : ℕ
  w = window_seconds * 1000

  -- from a time on, the set holds these entries
  pub record Tracks (last : ℕ) (xs : List (String × ℕ)) (db : R.Db) : Type 0 where
    pub agrees : (t : ℕ) → last ≤ t → keep w t (Z.zrange (t / 1000) key db) ≡ keep w t xs
    pub made : All (Made w last (length xs)) xs
    pub ordered : SortedFrom 0 xs

  -- what the set holds after pruning
  pub pruned_lem :
      (last now : ℕ) (xs : List (String × ℕ)) (db : R.Db)
      → Tracks last xs db
      → last ≤ now
      → Z.zrange (now / 1000) key (prune Z max_requests window_seconds key now db) ≡ keep w now xs
  pruned_lem last now xs db h l =
      Z.zrange-zremrangebyscore (now / 1000) (now / 1000) key _ _ db (omega arith)
      ∙ outside-keep w now (Z.zrange (now / 1000) key db)
      ∙ h.agrees now l

  -- pruning leaves the entries of the window
  pub prune-Tracks :
      (last now : ℕ) (xs : List (String × ℕ)) (db : R.Db)
      → Tracks last xs db
      → last ≤ now
      → Tracks now (keep w now xs) (prune Z max_requests window_seconds key now db)
  prune-Tracks last now xs db h l = record {
    agrees = λ t k.
        ap (keep w t) (
          Z.zrange-zremrangebyscore (t / 1000) (now / 1000) key _ _ db (omega (arith, k))
          ∙ outside-keep w now (Z.zrange (t / 1000) key db))
        ∙ keep-keep w now t (Z.zrange (t / 1000) key db) k
        ∙ h.agrees t (omega (arith, l, k))
        ∙ sym (keep-keep w now t xs k);
    made = keep-Made w last now xs l h.made;
    ordered = keep-SortedFrom w now 0 xs h.ordered;
  }

  -- the new entry stands beside the others until all are too old
  register-Tracks :
      (now : ℕ) (xs : List (String × ℕ)) (db : R.Db)
      → 0 < window_seconds
      → All (Made w now (length xs)) xs
      → SortedFrom 0 xs
      → Z.zrange (now / 1000) key db ≡ xs
      → Tracks now
          (place_scored Z.before (member now (length xs)) now xs)
          (register Z max_requests window_seconds key now (length xs) db)
  register-Tracks now xs db p m o e =
      let ys = place_scored Z.before (member now (length xs)) now xs in
      let young = Made-NoLater w now (length xs) xs m in
      let added : Z.zrange (now / 1000) key
            (Z.zadd (now / 1000) key (member now (length xs)) now db)
          ≡ ys =
        Z.zrange-zadd (now / 1000) key (member now (length xs)) now db
        ∙ ap
            (λ (zs : List (String × ℕ)).
              place_scored Z.before (member now (length xs)) now
                (drop_member (member now (length xs)) zs))
            e
        ∙ ap (place_scored Z.before (member now (length xs)) now)
            (drop-Made w now (length xs) xs m) in
      record {
        agrees = λ t k.
            ap (keep w t) (
              Z.zrange-expire (t / 1000) (now / 1000) key (window_seconds + 60) _
                (omega (arith, k)))
            ∙ expired t k ys (place-NoLater Z.before (member now (length xs)) now xs young) _ added;
        made =
            subst (λ (n : ℕ). All (Made w now n) ys)
              (sym (length-place Z.before (member now (length xs)) now xs))
              (place-Made Z.before w now (length xs) xs (omega (arith, p)) m);
        ordered = place-SortedFrom Z.before (member now (length xs)) now 0 xs (omega arith) o young;
      }
    where
      expired :
          (t : ℕ)
          → now ≤ t
          → (ys : List (String × ℕ)) → All (λ (e : String × ℕ). e.1 ≤ now) ys
          → (zs : List (String × ℕ)) → zs ≡ ys
          → keep w t (if ltb (t / 1000) (now / 1000 + (window_seconds + 60)) then zs else [])
            ≡ keep w t ys
      expired t k ys y zs q =
          elim (Bool-cases (ltb (t / 1000) (now / 1000 + (window_seconds + 60)))) [
            | inl b ↦ rw b (ap (keep w t) q)
            | inr b ↦ rw b (sym (keep-old w now t ys y (ground (arith, b))))
          ]

  -- what one request does to the set and to the log
  abbrev Agrees : ℕ → R.Db × Outcome → List ℕ × Outcome → Type 0
  Agrees now real spec =
      (ys : List (String × ℕ)) × Tracks now ys real.0 × (scores ys ≡ spec.0) × (real.1 ≡ spec.1)

  pub limit-Agrees :
      (last now : ℕ) (xs : List (String × ℕ)) (db : R.Db)
      → 0 < window_seconds
      → Tracks last xs db
      → last ≤ now
      → Agrees now
          (limit Z max_requests window_seconds key now db)
          (ideal max_requests window_seconds now (scores xs))
  unfolding limit settle ideal
  limit-Agrees last now xs db p h l =
      let pdb = prune Z max_requests window_seconds key now db in
      let left = keep w now xs in
      let e = pruned_lem last now xs db h l in
      let pruned = prune-Tracks last now xs db h l in
      let c : Z.zcard (now / 1000) key pdb ≡ length left =
        Z.zcard_lem (now / 1000) key pdb ∙ ap (λ (zs : List (String × ℕ)). length zs) e in
      rw (c, e, ← scores-keep w now xs, length-scores left)
        (elim (Bool-cases (leb max_requests (length left))) [
          | inl full ↦
              rw full (left, pruned, refl, ap refused (wait_of_lem window_seconds now left))
          | inr open_ ↦ rw open_ (
            place_scored Z.before (member now (length left)) now left,
            register-Tracks now left pdb p pruned.made pruned.ordered e,
            scores-place Z.before (member now (length left)) now 0 left pruned.ordered
                (Made-NoLater w now (length left) left pruned.made),
            refl,
          )
        ])

  serve-Tracks :
      (last : ℕ) (xs : List (String × ℕ)) (db : R.Db) (times : List ℕ)
      → 0 < window_seconds
      → Tracks last xs db
      → Ordered last times
      → serve Z max_requests window_seconds key times db
        ≡ ideal_run max_requests window_seconds times (scores xs)
  unfolding serve ideal_run
  serve-Tracks last xs db [] p h o = refl
  serve-Tracks last xs db (now ∷ later) p h o =
      let (ys, tracks, log, outcome) = limit-Agrees last now xs db p h o.0 in
      let rest = serve-Tracks now ys _ later p tracks o.1 in rw (outcome, rest, log) refl

  -- With a window of at least a second, from a state in which the set of the bucket is empty at every
  -- time, requests that come in the order of their times get exactly the answers, the seconds of
  -- Retry-After included, of the limiter that keeps a plain log of its admissions and counts those
  -- younger than the window. The commands of Redis, the names of the members and the end of the key
  -- make no difference.
  pub serve_refines :
      (times : List ℕ) (db : R.Db)
      → 0 < window_seconds
      → ((t : ℕ) → Z.zrange t key db ≡ [])
      → Ordered 0 times
      → serve Z max_requests window_seconds key times db
        ≡ ideal_run max_requests window_seconds times []
  serve_refines times db p e o =
      serve-Tracks 0 [] db times p
        (record { agrees = λ t k. ap (keep w t) (e (t / 1000)); made = tt; ordered = tt }) o
