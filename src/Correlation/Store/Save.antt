-- ===== src/Correlation/Store/Save.antt =====
-- backend/app/db/repositories.py: which incident a save merges into, and what stays of the others.
use infra_red.Prelude.{
  ℕ, ◌≡◌, refl, ap, ◌∙◌, subst, ◌⊎◌, inl, inr, String, Bool, true, false, ◌&&◌, ◌||◌, Option, none,
  some, List, [], ◌∷◌, ◌++◌, or_else, str_eq, eq_iff, Bool-cases, arith,
}
use infra_red.Prelude.Format.{truthy}
use infra_red.Correlation.Builder.{Incident}
use infra_red.Correlation.Store.{
  is_candidate, merge_row, update_rows, insert_incident, insert_or_raise, merge_into, correlated,
  source_of, is_none, save_from, save_or_merge_incident,
}
use infra_red.Correlation.Tables.{Row, Tables}
use infra_red.Correlation.Store.Keeps.{
  Keeps, Keyed, Has, has_id, Keeps-update, Keeps-append, Keeps-refl,
}
use infra_red.Correlation.Store.Latest.{Latest, Found, latest_lem}

has_id-update :
    (k : String) (e : Row) (i : Incident) (rows : List Row)
    → has_id k (update_rows e i rows) ≡ has_id k rows
unfolding update_rows merge_row
has_id-update k e i [] = refl
has_id-update k e i (x ∷ rest) = elim (Bool-cases (str_eq x.incident_id e.incident_id)) [
  | inl y ↦ rw (y, has_id-update k e i rest) refl
  | inr n ↦ rw (n, has_id-update k e i rest) refl
]

Keyed-update :
    (e : Row) (i : Incident) (rows : List Row) → Keyed rows → Keyed (update_rows e i rows)
unfolding update_rows merge_row
Keyed-update e i [] k = tt
Keyed-update e i (x ∷ rest) k = elim (Bool-cases (str_eq x.incident_id e.incident_id)) [
  | inl y ↦ rw y (has_id-update x.incident_id e i rest ∙ k.0, Keyed-update e i rest k.1)
  | inr n ↦ rw n (has_id-update x.incident_id e i rest ∙ k.0, Keyed-update e i rest k.1)
]

has_id-append :
    (k : String) (rows : List Row) (n : Row)
    → has_id k (rows ++ n ∷ []) ≡ (has_id k rows || str_eq n.incident_id k)
has_id-append k [] n = ground arith
has_id-append k (x ∷ rest) n = ground (arith, has_id-append k rest n)

Keyed-append :
    (rows : List Row) (n : Row)
    → Keyed rows
    → has_id n.incident_id rows ≡ false
    → Keyed (rows ++ n ∷ [])
Keyed-append [] n k h = (refl, tt)
Keyed-append (x ∷ rest) n k h = (
  ground (
    arith,
    has_id-append x.incident_id rest n,
    h,
    k.0,
    eq_iff n.incident_id x.incident_id,
    eq_iff x.incident_id n.incident_id,
  ),
  Keyed-append rest n k.1 (ground (arith, h)),
)

Keyed-insert :
    (s : Option String) (i : Incident) (rows : List Row)
    → Keyed rows
    → Keyed (insert_incident s i rows) × Keeps rows (insert_incident s i rows)
unfolding insert_incident
Keyed-insert s i rows k = elim (Bool-cases (has_id i.incident_id rows)) [
  | inl y ↦ rw y (k, Keeps-refl rows)
  | inr n ↦ rw n (Keyed-append rows _ k n, Keeps-append rows _)
]

-- what a save that returns has done
abbrev pub Outcome :
    ℕ → Option String → Option (Option String) → Incident → Tables → String × Bool × Tables → Type 0
Outcome window source column i t r =
    ((correlated window source i t ≡ none) × (insert_or_raise column i t ≡ some r))
    ⊎ ((e : Row) × (correlated window source i t ≡ some e) × (merge_into e i t ≡ r))

from_cases :
    (window : ℕ) (column : Option (Option String)) (i : Incident) (t : Tables)
    (r : String × Bool × Tables) (o : Option Row)
    → correlated window (or_else column none) i t ≡ o
    → save_from o column i t ≡ some r
    → Outcome window (or_else column none) column i t r
unfolding save_from
from_cases window column i t r none e h = inl (e, h)
from_cases window column i t r (some x) e h = inr (x, e, ap (λ o. or_else o r) h)

pub save_cases :
    (inet : String → Option String) (window : ℕ) (i : Incident) (t : Tables)
    (r : String × Bool × Tables)
    → save_or_merge_incident inet window i t ≡ some r
    → Outcome window (or_else (source_of inet i.source_ip) none) (source_of inet i.source_ip) i t r
unfolding save_or_merge_incident
save_cases inet window i t r h =
    let column = source_of inet i.source_ip in
    elim (Bool-cases (truthy i.source_ip && is_none column)) [
      | inl y ↦ absurd (ground (arith, y, h))
      | inr n ↦
          from_cases window column i t r (correlated window (or_else column none) i t) refl
            (ground (arith, n, h))
    ]

insert-Keeps :
    (column : Option (Option String)) (i : Incident) (t : Tables) (r : String × Bool × Tables)
    → Keyed t.incidents
    → insert_or_raise column i t ≡ some r
    → Keyed r.2.incidents × Keeps t.incidents r.2.incidents
unfolding insert_or_raise
insert-Keeps none i t r k h = absurd (ground (arith, h))
insert-Keeps (some s) i t r k h =
    subst (λ (z : String × Bool × Tables). Keyed z.2.incidents × Keeps t.incidents z.2.incidents)
      (ap (λ o. or_else o r) h) (Keyed-insert s i t.incidents k)

merge-Keeps :
    (e : Row) (i : Incident) (t : Tables) (r : String × Bool × Tables)
    → Keyed t.incidents
    → Has e t.incidents
    → merge_into e i t ≡ r
    → Keyed r.2.incidents × Keeps t.incidents r.2.incidents
unfolding merge_into
merge-Keeps e i t r k has h =
    subst (λ (z : String × Bool × Tables). Keyed z.2.incidents × Keeps t.incidents z.2.incidents) h
      (Keyed-update e i t.incidents k, Keeps-update e i t.incidents k has)

-- What the query finds is a row that meets its conditions, and no such row is later.
abbrev pub Target : ℕ → Option String → Incident → Tables → Row → Type 0
Target window source i t e =
    Has e t.incidents
    × (is_candidate window source i t.evidence e ≡ true)
    × Latest (is_candidate window source i t.evidence) e t.incidents

pub correlated_lem :
    (window : ℕ) (source : Option String) (i : Incident) (t : Tables) (e : Row)
    → correlated window source i t ≡ some e
    → Target window source i t e
unfolding correlated Found
correlated_lem window source i t e h =
    let (found, _, low) =
      latest_lem (is_candidate window source i t.evidence) none t.incidents e h in
    elim found [ inl x ↦ absurd x | inr (has, y) ↦ (has, y, low) ]

-- Saving an incident, by insertion or by merging, keeps the ids distinct and loses nothing: every
-- incident of the table is still there, of the same tenant, asset, status and time of creation, with
-- all of its signals, and with no lower rank of severity, confidence, priority and stage.
pub save-Keeps :
    (inet : String → Option String) (window : ℕ) (i : Incident) (t : Tables)
    (r : String × Bool × Tables)
    → Keyed t.incidents
    → save_or_merge_incident inet window i t ≡ some r
    → Keyed r.2.incidents × Keeps t.incidents r.2.incidents
save-Keeps inet window i t r k h = elim (save_cases inet window i t r h) [
  | inl (_, q) ↦ insert-Keeps (source_of inet i.source_ip) i t r k q
  | inr (e, f, q) ↦ merge-Keeps e i t r k (correlated_lem window _ i t e f).0 q
]

pub merged_only :
    (column : Option (Option String)) (i : Incident) (t : Tables) (r : String × Bool × Tables)
    → r.1 ≡ false
    → insert_or_raise column i t ≡ some r
    → ⊥
unfolding insert_or_raise
merged_only none i t r m h = ground (arith, h)
merged_only (some s) i t r m h = ground (arith, h, m)
