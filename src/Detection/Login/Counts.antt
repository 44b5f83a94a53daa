-- ===== src/Detection/Login/Counts.antt =====
-- The rules that count: AUTH-001 and AUTH-003.
use infra_red.Prelude.{
  ℕ, ◌+◌, ◌*◌, ◌<◌, ◌≡◌, refl, ap, ◌∙◌, String, Bool, true, false, some, List, [], ◌∷◌, leb, ltb,
  length, str_eq, arith, if◌then◌else◌,
}
use infra_red.Prelude.Int.{pos, sub_ℕ}
use infra_red.Redis.{Redis}
use infra_red.Redis.Sorted.{Sorted, drop_member, place_scored, outside, in_range}
use infra_red.Detection.Login.Signals.{Event, Signal, LoginRule, signal}
use infra_red.Detection.Login.Rules.{slide, span, count_rule, window_event_ids}

-- how many entries are younger than a window that ends at `at`
abbrev pub young : ℕ → ℕ → List (String × ℕ) → ℕ
young width at [] = 0
young width at ((m, s) ∷ xs) = (if ltb at (s + width) then 1 else 0) + young width at xs

abbrev pub Fresh : String → List (String × ℕ) → Type 0
Fresh m [] = Unit
Fresh m ((n, s) ∷ xs) = (str_eq n m ≡ false) × Fresh m xs

pub drop-Fresh : (m : String) (xs : List (String × ℕ)) → Fresh m xs → drop_member m xs ≡ xs
drop-Fresh m [] f = refl
drop-Fresh m ((n, s) ∷ xs) f = ground (arith, f.0, drop-Fresh m xs f.1)

cut_lem : (at width s : ℕ) → in_range (pos 0) (sub_ℕ at width) s ≡ leb (s + width) at
cut_lem at width s = ground arith

pub length-outside :
    (width at : ℕ) (xs : List (String × ℕ))
    → length (outside (pos 0) (sub_ℕ at width) xs) ≡ young width at xs
length-outside width at [] = refl
length-outside width at ((m, s) ∷ xs) =
    rw (cut_lem at width s) (ground (arith, length-outside width at xs))

pub young-place :
    (before : String → String → Bool) (m : String) (width at : ℕ) (xs : List (String × ℕ))
    → 0 < width
    → young width at (place_scored before m at xs) ≡ young width at xs + 1
young-place before m width at [] p = ground (arith, p)
young-place before m width at ((n, s) ∷ xs) p =
    ground (arith, p, young-place before m width at xs p)

module _ {R : Redis String} (Z : Sorted R) (now : ℕ) where
  -- what a window holds after an event is added to it
  pub zrange-slide :
      (key : String) (window ttl : ℕ) (event : Event) (db : R.Db)
      → 0 < ttl
      → Z.zrange now key (slide Z now key window ttl event db)
        ≡ outside (pos 0) (sub_ℕ event.timestamp (span window)) (
            place_scored Z.before event.event_id event.timestamp
              (drop_member event.event_id (Z.zrange now key db)))
  unfolding slide
  zrange-slide key window ttl event db p =
      Z.zrange-expire now now key ttl _ (omega arith)
      ∙ live _ (ltb now (now + ttl)) (ground (arith, p))
      ∙ Z.zrange-zremrangebyscore now now key _ _ _ (omega arith)
      ∙ ap (outside (pos 0) (sub_ℕ event.timestamp (span window)))
          (Z.zrange-zadd now key event.event_id event.timestamp db)
    where
      live : (xs : List (String × ℕ)) (b : Bool) → b ≡ true → (if b then xs else []) ≡ xs
      live xs b e = ground arith

  pub zcard-slide :
      (key : String) (window ttl : ℕ) (event : Event) (db : R.Db)
      → 0 < ttl
      → 0 < window
      → Fresh event.event_id (Z.zrange now key db)
      → Z.zcard now key (slide Z now key window ttl event db)
        ≡ young (span window) event.timestamp (Z.zrange now key db) + 1
  zcard-slide key window ttl event db p q f =
      let xs = Z.zrange now key db in
      Z.zcard_lem now key _
      ∙ ap (λ (zs : List (String × ℕ)). length zs) (zrange-slide key window ttl event db p)
      ∙ length-outside (span window) event.timestamp _
      ∙ ap
          (λ (zs : List (String × ℕ)).
            young (span window) event.timestamp
              (place_scored Z.before event.event_id event.timestamp zs))
          (drop-Fresh event.event_id xs f)
      ∙ young-place Z.before event.event_id (span window) event.timestamp xs (omega (arith, q))

  -- With a window of at least a second and an event that is not stored yet: the rule counts the stored
  -- events of its key that are younger than the window, and this one. It gives one signal, with that
  -- count, if the count reaches the threshold, and otherwise none.
  pub count_rule_exact :
      (rule : LoginRule) (key : String) (window threshold : ℕ) (note : String) (event : Event)
      (ip : String) (db : R.Db)
      → 0 < window
      → Fresh event.event_id (Z.zrange now key db)
      → let n = young (span window) event.timestamp (Z.zrange now key db) + 1 in
        (count_rule Z now rule key window threshold note event ip db).1 ≡ (
          if leb threshold n
          then signal rule event n
              (some note)
              (window_event_ids Z now key window event
                (slide Z now key window (window * 2) event db))
              true
            ∷ []
          else [])
  unfolding count_rule
  count_rule_exact rule key window threshold note event ip db q f =
      let c = zcard-slide key window (window * 2) event db (omega (arith, q)) q f in
      rw c (
        chosen (leb threshold (young (span window) event.timestamp (Z.zrange now key db) + 1)) _ _
          _)
    where
      chosen :
          (b : Bool) (x y : R.Db) (s : List Signal)
          → (let r : R.Db × List Signal = if b then (x, s) else (y, []) in r.1)
            ≡ (if b then s else [])
      chosen true x y s = refl
      chosen false x y s = refl
