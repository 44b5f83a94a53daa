-- ===== src/Gateway/RateLimit/Member.antt =====
-- The members of the sorted set: a request has a member of its own, so that no request takes the place of
-- another.
use infra_red.Prelude.{
  ℕ, ◌+◌, ◌≤◌, ◌<◌, ◌≡◌, ◌⊎◌, refl, sym, ap, ◌∙◌, String, Bool, List, [], ◌∷◌, ltb, length, str_eq,
  eq_iff, Bool-cases, inl, inr, subst, arith, ◌==◌, ◌&&◌,
}
use infra_red.Prelude.All.{All, All-map}
use infra_red.Prelude.Format.Numbers.{show-pair-inj}
use infra_red.Redis.Sorted.{drop_member, place_scored}
use infra_red.Gateway.RateLimit.{member}
use infra_red.Gateway.RateLimit.Window.{keep, NoLater}

-- An entry is named after its time and the count before it, which is less than the count now if it is of
-- the last time, and it is younger than the window.
abbrev pub Made : ℕ → ℕ → ℕ → (String × ℕ) → Type 0
Made w last n e =
    (c : ℕ) × (e.0 ≡ member e.1 c) × (e.1 ≤ last) × (last < e.1 + w) × ((e.1 < last) ⊎ (c < n))

pub Made-NoLater :
    (w last n : ℕ) (xs : List (String × ℕ)) → All (Made w last n) xs → NoLater last xs
Made-NoLater w last n xs h =
    All-map (Made w last n) (λ (e : String × ℕ). e.1 ≤ last) (λ e m. m.2) xs h

module _ (w last now n : ℕ) where
  -- at a later time the entries that are left are made, whatever the count
  keep_later :
      (xs : List (String × ℕ))
      → last < now
      → (k : ℕ) → All (Made w last n) xs
      → All (Made w now k) (keep w now xs)
  keep_later [] l k h = tt
  keep_later ((m, s) ∷ xs) l k h = elim (Bool-cases (ltb now (s + w))) [
    | inl e ↦ rw e (
      (h.0.0, h.0.1, omega (arith, h.0.2), ground (arith, e), inl (omega (arith, h.0.2))),
      keep_later xs l k h.1,
    )
    | inr e ↦ rw e (keep_later xs l k h.1)
  ]

pub keep_same : (w now n : ℕ) (xs : List (String × ℕ)) → All (Made w now n) xs → keep w now xs ≡ xs
keep_same w now n [] h = refl
keep_same w now n ((m, s) ∷ xs) h = ground (arith, h.0.3, keep_same w now n xs h.1)

pub keep-Made :
    (w last now : ℕ) (xs : List (String × ℕ))
    → last ≤ now
    → All (Made w last (length xs)) xs
    → All (Made w now (length (keep w now xs))) (keep w now xs)
keep-Made w last now xs l h = elim (Bool-cases (ltb last now)) [
  | inl e ↦ keep_later w last now (length xs) xs (ground (arith, e)) (length (keep w now xs)) h
  | inr e ↦
      let q : last ≡ now = ground (arith, e) in
      let h' : All (Made w now (length xs)) xs =
        subst (λ (t : ℕ). All (Made w t (length xs)) xs) q h in
      rw (keep_same w now (length xs) xs h') h'
]

named : (a b c d : ℕ) → member a b ≡ member c d → (a ≡ c) × (b ≡ d)
unfolding member
named a b c d e = show-pair-inj a b c d e

-- an entry of another request stays
pub drop-Made :
    (w now n : ℕ) (xs : List (String × ℕ))
    → All (Made w now n) xs
    → drop_member (member now n) xs ≡ xs
drop-Made w now n [] h = refl
drop-Made w now n ((m, s) ∷ xs) h = elim (Bool-cases (str_eq m (member now n))) [
  | inl e ↦ absurd (other s h.0.0 h.0.4 (sym h.0.1 ∙ (eq_iff m (member now n)).0 e))
  | inr e ↦ rw e (ap (◌∷◌ (m, s)) (drop-Made w now n xs h.1))
]
  where
    other : (s' c : ℕ) → (s' < now) ⊎ (c < n) → member s' c ≡ member now n → ⊥
    other s' c h' e = ground (arith, named s' c now n e)

place-All :
    (before : String → String → Bool) (P : (String × ℕ) → Type 0) (m : String) (s : ℕ)
    → P (m, s)
    → (xs : List (String × ℕ)) → All P xs
    → All P (place_scored before m s xs)
place-All before P m s p [] h = (p, tt)
place-All before P m s p ((n, r) ∷ xs) h = elim (Bool-cases (ltb s r)) [
  | inl e ↦ rw e (p, h)
  | inr e ↦ rw e (elim (Bool-cases ((s == r) && before m n)) [
    | inl t ↦ rw t (p, h)
    | inr t ↦ rw t (h.0, place-All before P m s p xs h.1)
  ])
]

-- the new entry is made, and the others stay so
pub place-Made :
    (before : String → String → Bool) (w now n : ℕ) (xs : List (String × ℕ))
    → 0 < w
    → All (Made w now n) xs
    → All (Made w now (n + 1)) (place_scored before (member now n) now xs)
place-Made before w now n xs p h =
    place-All before (Made w now (n + 1)) (member now n) now
      (n, refl, omega arith, omega arith, inr (omega arith)) xs
      (All-map (Made w now n) (Made w now (n + 1)) (λ e m. (m.0, m.1, m.2, m.3, more m.0 m.4)) xs h)
  where
    more : {s : ℕ} (c : ℕ) → (s < now) ⊎ (c < n) → (s < now) ⊎ (c < n + 1)
    more c (inl a) = inl a
    more c (inr b) = inr (omega arith)
