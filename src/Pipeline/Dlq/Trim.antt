-- ===== src/Pipeline/Dlq/Trim.antt =====
-- backend/app/workers/dlq.py: the dead letters that are left when Redis trims their stream.
use infra_red.Prelude.{
  ℕ, zero, suc, ◌≤◌, ◌<◌, ◌≡◌, ◌⊎◌, refl, sym, ap, ◌∙◌, true, false, List, [], ◌∷◌, ◌++◌, leb,
  length, Bool-cases, inl, inr, arith,
}
use infra_red.Pipeline.Dlq.{Letter, trim_oldest}

-- `after` is `before` with one letter more, the last, and less the oldest ones, which are none unless at
-- least `maxlen` letters stay
abbrev pub Trimmed : ℕ → List Letter → Letter → List Letter → Type 0
Trimmed maxlen before l after =
    (gone : List Letter) × (kept : List Letter) × (before ≡ gone ++ kept)
    × (after ≡ kept ++ l ∷ [])
    × ((gone ≡ []) ⊎ (maxlen ≤ length after))

pub trim_oldest-Trimmed :
    (maxlen n : ℕ) (before : List Letter) (l : Letter)
    → 0 < maxlen
    → Trimmed maxlen before l (trim_oldest maxlen n (before ++ l ∷ []))
unfolding trim_oldest
trim_oldest-Trimmed maxlen zero [] l h = ([], [], refl, refl, inl refl)
trim_oldest-Trimmed maxlen (suc n) [] l h =
    let few : leb maxlen 0 ≡ false = ground (arith, h) in rw few ([], [], refl, refl, inl refl)
trim_oldest-Trimmed maxlen zero (x ∷ before) l h = ([], x ∷ before, refl, refl, inl refl)
trim_oldest-Trimmed maxlen (suc n) (x ∷ before) l h =
    elim (Bool-cases (leb maxlen (length (before ++ l ∷ [])))) [
      | inr few ↦ rw few ([], x ∷ before, refl, refl, inl refl)
      | inl enough ↦
          let (gone, kept, b, a, s) = trim_oldest-Trimmed maxlen n before l h in
          rw enough (x ∷ gone, kept, ap (◌∷◌ x) b, a, inr (stay enough gone kept b a s))
    ]
  where
    stay :
        leb maxlen (length (before ++ l ∷ [])) ≡ true
        → (gone kept : List Letter) → before ≡ gone ++ kept
        → trim_oldest maxlen n (before ++ l ∷ []) ≡ kept ++ l ∷ []
        → (gone ≡ []) ⊎ (maxlen ≤ length (trim_oldest maxlen n (before ++ l ∷ [])))
        → maxlen ≤ length (trim_oldest maxlen n (before ++ l ∷ []))
    stay enough gone kept b a (inr m) = m
    stay enough gone kept b a (inl e) =
        let same : before ≡ kept = b ∙ ap (λ (z : List Letter). z ++ kept) e in
        rw (a ∙ sym (ap (λ (z : List Letter). z ++ l ∷ []) same)) (ground (arith, enough))
