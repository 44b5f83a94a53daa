-- ===== src/Correlation/Store/Latest.antt =====
-- backend/app/db/repositories.py: ORDER BY updated_at DESC LIMIT 1.
use infra_red.Prelude.{
  ◌≤◌, ◌≡◌, refl, sym, ap, ◌∙◌, subst, ◌⊎◌, inl, inr, Bool, true, false, Option, none, some, List,
  [], ◌∷◌, ltb, or_else, Bool-cases, arith, if◌then◌else◌,
}
use infra_red.Correlation.Store.{latest, later_row}
use infra_red.Correlation.Tables.{Row}
use infra_red.Correlation.Store.Keeps.{Has}

-- What `latest` finds is the start, or a row that meets the test, and no row that meets it is later.
abbrev pub Latest : (Row → Bool) → Row → List Row → Type 0
Latest p e [] = Unit
Latest p e (r ∷ rs) = (p r ≡ true → r.updated_at ≤ e.updated_at) × Latest p e rs

abbrev pub From : Option Row → Row → Type 0
From none e = ⊥
From (some b) e = e ≡ b

abbrev pub Above : Option Row → Row → Type 0
Above none e = Unit
Above (some b) e = b.updated_at ≤ e.updated_at

le_of_eq : (b e : Row) → e ≡ b → b.updated_at ≤ e.updated_at
le_of_eq b e q = subst (λ (z : Row). z.updated_at ≤ e.updated_at) q (omega arith)

-- a row further down the list
widen :
    (p : Row → Bool) (r e : Row) (rest : List Row) (A : Type 0)
    → A ⊎ (Has e rest × (p e ≡ true))
    → A ⊎ (Has e (r ∷ rest) × (p e ≡ true))
widen p r e rest A (inl x) = inl x
widen p r e rest A (inr (h, t)) = inr (inr h, t)

-- the row at the head was taken
take_head :
    (p : Row → Bool) (r e : Row) (rest : List Row)
    → p r ≡ true
    → (e ≡ r) ⊎ (Has e rest × (p e ≡ true))
    → Has e (r ∷ rest) × (p e ≡ true)
take_head p r e rest y (inl q) = (inl q, ap p q ∙ y)
take_head p r e rest y (inr (h, t)) = (inr h, t)

unfoldable pub Found : (Row → Bool) → Option Row → List Row → Row → Type 0
Found p best rows e = (From best e ⊎ (Has e rows × (p e ≡ true))) × Above best e × Latest p e rows

latest_at :
    (p : Row → Bool) (best : Option Row) (r : Row) (rest : List Row) (b : Bool)
    → p r ≡ b
    → latest p best (r ∷ rest) ≡ latest p (if b then later_row best r else best) rest
unfolding latest
latest_at p best r rest b e = rw e refl

pub latest_lem :
    (p : Row → Bool) (best : Option Row) (rows : List Row) (e : Row)
    → latest p best rows ≡ some e
    → Found p best rows e
unfolding Found latest
latest_lem p none [] e h = absurd (ground (arith, h))
latest_lem p (some b) [] e h =
    let q : e ≡ b = sym (ap (λ o. or_else o b) h) in (inl q, le_of_eq b e q, tt)
latest_lem p none (r ∷ rest) e h = elim (Bool-cases (p r)) [
  | inr n ↦
      let (found, above, low) =
        latest_lem p none rest e (sym (latest_at p none r rest false n) ∙ h) in
      (widen p r e rest ⊥ found, tt, (λ t. absurd (ground (arith, n, t)), low))
  | inl y ↦
      let (found, above, low) =
        latest_lem p (some r) rest e (sym (latest_at p none r rest true y) ∙ h) in
      (inr (take_head p r e rest y found), tt, (λ t. above, low))
]
latest_lem p (some b) (r ∷ rest) e h = elim (Bool-cases (p r)) [
  | inr n ↦
      let (found, above, low) =
        latest_lem p (some b) rest e (sym (latest_at p (some b) r rest false n) ∙ h) in
      (widen p r e rest (e ≡ b) found, above, (λ t. absurd (ground (arith, n, t)), low))
  | inl y ↦ elim (Bool-cases (ltb b.updated_at r.updated_at)) [
    | inl l ↦
        let k : latest p (some r) rest ≡ some e =
          rw (sym (ap (λ z. latest p (if z then some r else some b) rest) l))
            (sym (latest_at p (some b) r rest true y) ∙ h) in
        let (found, above, low) = latest_lem p (some r) rest e k in
        (inr (take_head p r e rest y found), ground (arith, l, above), (λ t. above, low))
    | inr g ↦
        let k : latest p (some b) rest ≡ some e =
          rw (sym (ap (λ z. latest p (if z then some r else some b) rest) g))
            (sym (latest_at p (some b) r rest true y) ∙ h) in
        let (found, above, low) = latest_lem p (some b) rest e k in
        (widen p r e rest (e ≡ b) found, above, (λ t. ground (arith, g, above), low))
  ]
]
