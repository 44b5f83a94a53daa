-- ===== src/Gateway/RateLimit/Window.antt =====
-- The limiter as a log of the times of its admissions: the newest requests that are younger than the
-- window count.
use infra_red.Prelude.{
  ℕ, ◌+◌, ◌-◌, ◌*◌, ◌/◌, ◌≤◌, ◌≡◌, refl, String, Bool, List, [], ◌∷◌, ◌++◌, leb, ltb, max, length,
  Bool-cases, inl, inr, arith, ◌==◌, ◌&&◌, ap, if◌then◌else◌,
}
use infra_red.Prelude.Int.{pos, sub_ℕ}
use infra_red.Prelude.All.{All}
use infra_red.Redis.Sorted.{outside, in_range, place_scored}
use infra_red.Gateway.RateLimit.{Outcome, admitted, refused, retry_after}

-- the times that are younger than a window of `w` milliseconds at `now`
abbrev pub recent : ℕ → ℕ → List ℕ → List ℕ
recent w now [] = []
recent w now (a ∷ log) = let rest = recent w now log in if ltb now (a + w) then a ∷ rest else rest

abbrev pub wait_of : ℕ → ℕ → List ℕ → ℕ
wait_of window_seconds now [] = window_seconds
wait_of window_seconds now (a ∷ log) = max 1 ((a + window_seconds * 1000 - now) / 1000)

module _ (max_requests window_seconds : ℕ) where
  unfoldable pub ideal : ℕ → List ℕ → List ℕ × Outcome
  ideal now log =
      let log' = recent (window_seconds * 1000) now log in
      if leb max_requests (length log')
      then (log', refused (wait_of window_seconds now log'))
      else (log' ++ now ∷ [], admitted)

  unfoldable pub ideal_run : List ℕ → List ℕ → List Outcome
  unfolding ideal
  ideal_run [] log = []
  ideal_run (now ∷ later) log =
      let (log', outcome) = ideal now log in outcome ∷ ideal_run later log'

abbrev pub scores : List (String × ℕ) → List ℕ
scores [] = []
scores ((m, s) ∷ xs) = s ∷ scores xs

-- the entries that are younger than the window
abbrev pub keep : ℕ → ℕ → List (String × ℕ) → List (String × ℕ)
keep w now [] = []
keep w now ((m, s) ∷ xs) =
    let rest = keep w now xs in if ltb now (s + w) then (m, s) ∷ rest else rest

cutoff_lem : (now w s : ℕ) → in_range (pos 0) (sub_ℕ now w) s ≡ leb (s + w) now
cutoff_lem now w s = ground arith

-- pruning leaves them
pub outside-keep :
    (w now : ℕ) (xs : List (String × ℕ)) → outside (pos 0) (sub_ℕ now w) xs ≡ keep w now xs
outside-keep w now [] = refl
outside-keep w now ((m, s) ∷ xs) = rw (cutoff_lem now w s) (ground (arith, outside-keep w now xs))

pub scores-keep :
    (w now : ℕ) (xs : List (String × ℕ)) → scores (keep w now xs) ≡ recent w now (scores xs)
scores-keep w now [] = refl
scores-keep w now ((m, s) ∷ xs) = ground (arith, scores-keep w now xs)

pub keep-keep :
    (w now t : ℕ) (xs : List (String × ℕ)) → now ≤ t → keep w t (keep w now xs) ≡ keep w t xs
keep-keep w now t [] h = refl
keep-keep w now t ((m, s) ∷ xs) h = ground (arith, keep-keep w now t xs)

abbrev pub NoLater : ℕ → List (String × ℕ) → Type 0
NoLater now xs = All (λ (e : String × ℕ). e.1 ≤ now) xs

pub keep-old :
    (w now t : ℕ) (xs : List (String × ℕ)) → NoLater now xs → now + w ≤ t → keep w t xs ≡ []
keep-old w now t [] o h = refl
keep-old w now t ((m, s) ∷ xs) o h = ground (arith, keep-old w now t xs o.1 h)

pub keep-NoLater :
    (w now t : ℕ) (xs : List (String × ℕ)) → NoLater now xs → NoLater now (keep w t xs)
keep-NoLater w now t [] o = tt
keep-NoLater w now t ((m, s) ∷ xs) o = ground (arith, keep-NoLater w now t xs o.1)

abbrev pub SortedFrom : ℕ → List (String × ℕ) → Type 0
SortedFrom lo [] = Unit
SortedFrom lo ((m, s) ∷ xs) = (lo ≤ s) × SortedFrom s xs

SortedFrom-weaken :
    (lo hi : ℕ) (xs : List (String × ℕ)) → lo ≤ hi → SortedFrom hi xs → SortedFrom lo xs
SortedFrom-weaken lo hi [] h o = tt
SortedFrom-weaken lo hi ((m, s) ∷ xs) h o = (omega (arith, o.0), o.1)

pub keep-SortedFrom :
    (w now lo : ℕ) (xs : List (String × ℕ)) → SortedFrom lo xs → SortedFrom lo (keep w now xs)
keep-SortedFrom w now lo [] o = tt
keep-SortedFrom w now lo ((m, s) ∷ xs) o =
    let rest = keep-SortedFrom w now s xs o.1 in
    ground (arith, rest, SortedFrom-weaken lo s (keep w now xs) o.0 rest)

-- where all are of one time, one more may stand at either end
tied :
    (now : ℕ) (xs : List (String × ℕ))
    → SortedFrom now xs
    → NoLater now xs
    → now ∷ scores xs ≡ scores xs ++ now ∷ []
tied now [] o l = refl
tied now ((m, s) ∷ xs) o l =
    let e : s ≡ now = omega (arith, o.0, l.0) in
    let o' : SortedFrom now xs = SortedFrom-weaken now s xs o.0 o.1 in
    rw e (ap (◌∷◌ now) (tied now xs o' l.1))

module _ (before : String → String → Bool) (m : String) (now : ℕ) where
  -- the new time is the last
  pub scores-place :
      (lo : ℕ) (xs : List (String × ℕ))
      → SortedFrom lo xs
      → NoLater now xs
      → scores (place_scored before m now xs) ≡ scores xs ++ now ∷ []
  scores-place lo [] o l = refl
  scores-place lo ((n, s) ∷ xs) o l = elim (Bool-cases (ltb now s)) [
    | inl e ↦ absurd (ground (arith, e, l.0))
    | inr e ↦ rw e (elim (Bool-cases ((now == s) && before m n)) [
      | inl t ↦
          let q : s ≡ now = ground (arith, t) in
          rw t (tied now ((n, s) ∷ xs) (omega (arith, q), o.1) l)
      | inr t ↦ rw t (ap (◌∷◌ s) (scores-place s xs o.1 l.1))
    ])
  ]

  pub place-NoLater :
      (xs : List (String × ℕ)) → NoLater now xs → NoLater now (place_scored before m now xs)
  place-NoLater [] o = (omega arith, tt)
  place-NoLater ((n, s) ∷ xs) o = ground (arith, place-NoLater xs o.1)

  pub length-place :
      (xs : List (String × ℕ)) → length (place_scored before m now xs) ≡ length xs + 1
  length-place [] = omega arith
  length-place ((n, s) ∷ xs) = ground (arith, length-place xs)

  pub place-SortedFrom :
      (lo : ℕ) (xs : List (String × ℕ))
      → lo ≤ now
      → SortedFrom lo xs
      → NoLater now xs
      → SortedFrom lo (place_scored before m now xs)
  place-SortedFrom lo [] h o l = (h, tt)
  place-SortedFrom lo ((n, s) ∷ xs) h o l = ground (arith, place-SortedFrom s xs l.0 o.1 l.1)

pub wait_of_lem :
    (window_seconds now : ℕ) (xs : List (String × ℕ))
    → retry_after window_seconds now xs ≡ wait_of window_seconds now (scores xs)
wait_of_lem window_seconds now [] = refl
wait_of_lem window_seconds now ((m, s) ∷ xs) = refl

pub length-scores : (xs : List (String × ℕ)) → length (scores xs) ≡ length xs
length-scores [] = refl
length-scores ((m, s) ∷ xs) = omega (arith, length-scores xs)
