-- ===== src/Gateway/RateLimit/Bound.antt =====
-- What the limiter promises: in no window are more requests admitted than it allows.
use infra_red.Prelude.{
  ℕ, ◌+◌, ◌*◌, ◌≤◌, ◌<◌, ◌≡◌, refl, String, List, [], ◌∷◌, ◌++◌, ◌&&◌, leb, ltb, length,
  length-append, Bool-cases, inl, inr, arith, if◌then◌else◌,
}
use infra_red.Redis.{Redis}
use infra_red.Redis.Sorted.{Sorted}
use infra_red.Gateway.RateLimit.{Outcome, admitted, refused, serve}
use infra_red.Gateway.RateLimit.Window.{recent, ideal_run}
use infra_red.Gateway.RateLimit.Refine.{Ordered, serve_refines}

-- the times of the requests that were admitted
abbrev pub admissions : List ℕ → List Outcome → List ℕ
admissions [] outs = []
admissions (t ∷ times) [] = []
admissions (t ∷ times) (admitted ∷ outs) = t ∷ admissions times outs
admissions (t ∷ times) (refused n ∷ outs) = admissions times outs

-- how many times lie in the window that begins at `x`
abbrev pub within : ℕ → ℕ → List ℕ → ℕ
within x w [] = 0
within x w (t ∷ times) = (if leb x t && ltb t (x + w) then 1 else 0) + within x w times

within-append : (x w : ℕ) (ts us : List ℕ) → within x w (ts ++ us) ≡ within x w ts + within x w us
within-append x w [] us = omega arith
within-append x w (t ∷ ts) us = omega (arith, within-append x w ts us)

within-length : (x w : ℕ) (ts : List ℕ) → within x w ts ≤ length ts
within-length x w [] = omega arith
within-length x w (t ∷ ts) = ground (arith, within-length x w ts)

-- a window that is over holds no later admission
within-later :
    (x w now : ℕ) (times : List ℕ) (outs : List Outcome)
    → x + w ≤ now
    → Ordered now times
    → within x w (admissions times outs) ≡ 0
within-later x w now [] outs h o = refl
within-later x w now (t ∷ times) [] h o = refl
within-later x w now (t ∷ times) (admitted ∷ outs) h o =
    ground (arith, o.0, within-later x w t times outs (omega (arith, h, o.0)) o.1)
within-later x w now (t ∷ times) (refused n ∷ outs) h o =
    within-later x w t times outs (omega (arith, h, o.0)) o.1

-- what is forgotten lies in no window that is still open
within-recent :
    (x w now : ℕ) (log : List ℕ) → now < x + w → within x w (recent w now log) ≡ within x w log
within-recent x w now [] h = refl
within-recent x w now (a ∷ log) h = ground (arith, within-recent x w now log h)

module _ (max_requests window_seconds x : ℕ) where
  abbrev w : ℕ
  w = window_seconds * 1000

  ideal_bound :
      (last : ℕ) (times log : List ℕ)
      → Ordered last times
      → within x w log ≤ max_requests
      → within x w log
          + within x w (admissions times (ideal_run max_requests window_seconds times log))
        ≤ max_requests
  unfolding ideal_run
  ideal_bound last [] log o b = omega (arith, b)
  ideal_bound last (now ∷ later) log o b =
      let log' = recent w now log in
      elim (Bool-cases (leb max_requests (length log'))) [
        | inl full ↦ rw full (elim (Bool-cases (ltb now (x + w))) [
          | inl still ↦
              let same = within-recent x w now log (ground (arith, still)) in
              omega (arith, same, ideal_bound now later log' o.1 (omega (arith, same, b)))
          | inr over ↦
              let none_ =
                within-later x w now later (ideal_run max_requests window_seconds later log')
                  (ground (arith, over)) o.1 in
              omega (arith, none_, b)
        ])
        | inr open_ ↦
            let log'' = log' ++ now ∷ [] in
            let some_ = within-append x w log' (now ∷ []) in
            let room : within x w log'' ≤ max_requests =
              ground (arith, open_, within-length x w log'', length-append log' (now ∷ [])) in
            rw open_ (elim (Bool-cases (ltb now (x + w))) [
              | inl still ↦
                  let same = within-recent x w now log (ground (arith, still)) in
                  omega (arith, same, some_, ideal_bound now later log'' o.1 room)
              | inr over ↦
                  let none_ =
                    within-later x w now later (ideal_run max_requests window_seconds later log'')
                      (ground (arith, over)) o.1 in
                  ground (arith, over, none_, b)
            ])
      ]

  -- With a window of at least a second, from a state in which the set of the bucket is empty at every
  -- time and for requests that come in the order of their times, no stretch of the length of the window,
  -- wherever it begins, has more admissions than the limit.
  pub serve_bound :
      {R : Redis String} (Z : Sorted R) (key : String) (times : List ℕ) (db : R.Db)
      → 0 < window_seconds
      → ((t : ℕ) → Z.zrange t key db ≡ [])
      → Ordered 0 times
      → within x w (admissions times (serve Z max_requests window_seconds key times db))
        ≤ max_requests
  serve_bound Z key times db p e o =
      rw (serve_refines Z max_requests window_seconds key times db p e o)
        (omega (arith, ideal_bound 0 times [] o (omega arith)))
