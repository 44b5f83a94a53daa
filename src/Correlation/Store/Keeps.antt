-- ===== src/Correlation/Store/Keeps.antt =====
-- backend/app/db/repositories.py: what saving an incident keeps of the incidents before it.
use infra_red.Prelude.{
  ◌≡◌, refl, sym, ap, subst, ◌⊎◌, str_eq_refl, eq_iff, String, Bool, true, false, List, [], ◌∷◌,
  ◌++◌, contains, str_eq, inl, inr, arith,
}
use infra_red.Prelude.All.{any}
use infra_red.Prelude.Int.{ℤ, pos, negsuc, ◌≤ℤ◌}
use infra_red.Constants.{stage_value}
use infra_red.Correlation.Builder.{Incident}
use infra_red.Correlation.Merge.{
  severity_value, confidence_value, priority_value, severity_ranks, confidence_ranks,
  priority_ranks, stage_ranks, rank_of, max_ranked,
}
use infra_red.Correlation.Merge.Laws.{rank_of-max_ranked, contains-merge}
use infra_red.Correlation.Store.{merge_row, update_rows}
use infra_red.Correlation.Tables.{Row}

-- The table gives no rank below 0.
abbrev ranks_pos : List (String × ℤ) → Bool
ranks_pos [] = true
ranks_pos ((k, pos n) ∷ rest) = ranks_pos rest
ranks_pos ((k, negsuc n) ∷ rest) = false

rank_of-ge :
    (s : String) (rank : List (String × ℤ)) → ranks_pos rank ≡ true → negsuc 0 ≤ℤ rank_of s rank
unfolding rank_of
rank_of-ge s [] h = ground arith
rank_of-ge s ((k, pos n) ∷ rest) h = ground (arith, rank_of-ge s rest h)
rank_of-ge s ((k, negsuc n) ∷ rest) h = absurd (ground (arith, h))

abbrev pub Lower : List (String × ℤ) → String → String → Type 0
Lower rank a b = rank_of a rank ≤ℤ rank_of b rank

pub Lower-max :
    (a b : String) (rank : List (String × ℤ))
    → ranks_pos rank ≡ true
    → rank_of "" rank ≡ negsuc 0
    → Lower rank a (max_ranked a b rank) × Lower rank b (max_ranked a b rank)
Lower-max a b rank h u = rank_of-max_ranked a b rank u (rank_of-ge a rank h) (rank_of-ge b rank h)

-- The same incident, not graded lower, with every signal that it had.
abbrev pub Grown : Row → Row → Type 0
Grown r n =
    (n.incident_id ≡ r.incident_id)
    × (n.tenant_id ≡ r.tenant_id)
    × (n.asset_id ≡ r.asset_id)
    × (n.status ≡ r.status)
    × (n.created_at ≡ r.created_at)
    × Lower severity_ranks r.severity n.severity
    × Lower confidence_ranks r.confidence n.confidence
    × Lower priority_ranks r.priority n.priority
    × Lower stage_ranks r.kill_chain_stage n.kill_chain_stage
    × ((a : String) → contains r.signal_ids a ≡ true → contains n.signal_ids a ≡ true)

-- The rows are there, in their order, each as it was or grown.
abbrev pub Keeps : List Row → List Row → Type 0
Keeps [] ns = Unit
Keeps (r ∷ rs) [] = ⊥
Keeps (r ∷ rs) (n ∷ ns) = Grown r n × Keeps rs ns

Grown-refl : (r : Row) → Grown r r
Grown-refl r =
    (refl, refl, refl, refl, refl, omega arith, omega arith, omega arith, omega arith, λ a h. h)

Grown-merge : (r : Row) (i : Incident) → Grown r (merge_row r i r)
unfolding merge_row rank_of
Grown-merge r i = (
  refl,
  refl,
  refl,
  refl,
  refl,
  (Lower-max r.severity (severity_value i.severity) severity_ranks refl refl).0,
  (Lower-max r.confidence (confidence_value i.confidence) confidence_ranks refl refl).0,
  (Lower-max r.priority (priority_value i.priority) priority_ranks refl refl).0,
  (Lower-max r.kill_chain_stage (stage_value i.kill_chain_stage) stage_ranks refl refl).0,
  λ a h. ground (arith, contains-merge r.signal_ids i.signal_ids a, h),
)

pub Keeps-append : (rows more : List Row) → Keeps rows (rows ++ more)
Keeps-append [] more = tt
Keeps-append (r ∷ rest) more = (Grown-refl r, Keeps-append rest more)

pub Keeps-refl : (rows : List Row) → Keeps rows rows
Keeps-refl [] = tt
Keeps-refl (r ∷ rest) = (Grown-refl r, Keeps-refl rest)

-- No two rows have one id: the primary key.
abbrev pub has_id : String → List Row → Bool
has_id incident_id rows = any (λ (i : Row). str_eq i.incident_id incident_id) rows

abbrev pub Keyed : List Row → Type 0
Keyed [] = Unit
Keyed (r ∷ rs) = (has_id r.incident_id rs ≡ false) × Keyed rs

abbrev pub Has : Row → List Row → Type 0
Has e [] = ⊥
Has e (r ∷ rs) = (e ≡ r) ⊎ Has e rs

has_id_of_Has : (e : Row) (rows : List Row) → Has e rows → has_id e.incident_id rows ≡ true
has_id_of_Has e [] h = absurd h
has_id_of_Has e (r ∷ rs) (inl h) =
    ground
      (arith, ap (λ (z : Row). str_eq z.incident_id e.incident_id) h, str_eq_refl e.incident_id)
has_id_of_Has e (r ∷ rs) (inr h) = ground (arith, has_id_of_Has e rs h)

Keeps-other :
    (e : Row) (i : Incident) (rows : List Row)
    → has_id e.incident_id rows ≡ false
    → Keeps rows (update_rows e i rows)
unfolding update_rows
Keeps-other e i [] h = tt
Keeps-other e i (x ∷ rest) h =
    let n : str_eq x.incident_id e.incident_id ≡ false = ground (arith, h) in
    rw n (Grown-refl x, Keeps-other e i rest (ground (arith, h)))

pub Keeps-update :
    (e : Row) (i : Incident) (rows : List Row)
    → Keyed rows
    → Has e rows
    → Keeps rows (update_rows e i rows)
unfolding update_rows
Keeps-update e i [] k h = absurd h
Keeps-update e i (x ∷ rest) k (inl h) =
    subst (λ z. Keeps (z ∷ rest) (update_rows e i (z ∷ rest))) h
      (rw (str_eq_refl e.incident_id) (
        Grown-merge e i,
        Keeps-other e i rest (subst (λ (z : Row). has_id z.incident_id rest ≡ false) (sym h) k.0),
      ))
Keeps-update e i (x ∷ rest) k (inr h) =
    let n : str_eq x.incident_id e.incident_id ≡ false =
      ground (arith, has_id_of_Has e rest h, k.0, eq_iff x.incident_id e.incident_id) in
    rw n (Grown-refl x, Keeps-update e i rest k.1 h)
