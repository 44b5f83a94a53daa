-- ===== src/Correlation/Merge/Laws.antt =====
-- backend/app/db/repositories.py: what the merge of two fields keeps.
use infra_red.Prelude.{
  ◌≡◌, ap, ◌∙◌, String, ◌||◌, List, [], ◌∷◌, ◌++◌, contains, str_eq, eq_iff, contains-append,
  Bool-cases, inl, inr, arith,
}
use infra_red.Prelude.Int.{ℤ, negsuc, ◌≤ℤ◌}
use infra_red.Correlation.Merge.{rank_of, max_ranked, merge_signal_ids}

-- the greater of the two ranks, whatever the table, if it has no empty text
pub rank_of-max_ranked :
    (e i : String) (rank : List (String × ℤ))
    → rank_of "" rank ≡ negsuc 0
    → (negsuc 0 ≤ℤ rank_of e rank)
    → (negsuc 0 ≤ℤ rank_of i rank)
    → (rank_of e rank ≤ℤ rank_of (max_ranked e i rank) rank)
      × (rank_of i rank ≤ℤ rank_of (max_ranked e i rank) rank)
unfolding max_ranked
rank_of-max_ranked e i rank u he hi = elim (Bool-cases (str_eq e "")) [
  | inl p ↦
      let q : rank_of e rank ≡ negsuc 0 = ap (λ z. rank_of z rank) ((eq_iff e "").0 p) ∙ u in
      ground arith
  | inr p ↦ elim (Bool-cases (str_eq i "")) [
    | inl p2 ↦
        let q : rank_of i rank ≡ negsuc 0 = ap (λ z. rank_of z rank) ((eq_iff i "").0 p2) ∙ u in
        ground arith
    | inr p2 ↦ ground arith
  ]
]

pub contains-merge :
    (merged incoming : List String) (a : String)
    → contains (merge_signal_ids merged incoming) a ≡ (contains merged a || contains incoming a)
unfolding merge_signal_ids
contains-merge merged [] a = ground arith
contains-merge merged (s ∷ rest) a = elim (Bool-cases (contains merged s)) [
  | inl e ↦ ground (arith, contains-merge merged rest a, eq_iff a s)
  | inr e ↦
      ground (arith, contains-merge (merged ++ s ∷ []) rest a, contains-append merged (s ∷ []) a)
]
