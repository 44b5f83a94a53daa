-- ===== src/Correlation/Merge.antt =====
-- backend/app/db/repositories.py: how the fields of two correlated incidents are merged. The columns of
-- the tables hold texts.
pub mod Laws
use Prim.Native.String.{compare}
use Prim.Native.Nat.{Ordering}
use infra_red.Prelude.{
  ℕ, ◌≤◌, max, String, Bool, true, false, ◌&&◌, ◌||◌, Option, none, some, List, [], ◌∷◌, ◌++◌, leb,
  find, or_else, contains, str_eq, if◌then◌else◌,
}
use infra_red.Prelude.Format.{truthy}
use infra_red.Prelude.Int.{ℤ, pos, negsuc, ltb_ℤ}
use infra_red.Constants.{Severity, Confidence, Priority}
use infra_red.Correlation.Builder.{CtiEnrichment, Incident, EvidenceItem, abuse}

-- `.value`, backend/app/common/constants.py
unfoldable pub severity_value : Severity → String
severity_value Severity.critical = "critical"
severity_value Severity.high = "high"
severity_value Severity.medium = "medium"
severity_value Severity.info = "info"

unfoldable pub confidence_value : Confidence → String
confidence_value Confidence.high = "high"
confidence_value Confidence.medium = "medium"
confidence_value Confidence.low = "low"

unfoldable pub priority_value : Priority → String
priority_value Priority.urgent = "urgent"
priority_value Priority.high = "high"
priority_value Priority.normal = "normal"
priority_value Priority.low = "low"

abbrev pub severity_ranks : List (String × ℤ)
severity_ranks = ("info", pos 0) ∷ ("medium", pos 1) ∷ ("high", pos 2) ∷ ("critical", pos 3) ∷ []

abbrev pub confidence_ranks : List (String × ℤ)
confidence_ranks = ("low", pos 0) ∷ ("medium", pos 1) ∷ ("high", pos 2) ∷ []

abbrev pub priority_ranks : List (String × ℤ)
priority_ranks = ("low", pos 0) ∷ ("normal", pos 1) ∷ ("high", pos 2) ∷ ("urgent", pos 3) ∷ []

abbrev pub stage_ranks : List (String × ℤ)
stage_ranks =
    ("Reconnaissance", pos 0)
    ∷ ("Credential Access", pos 1)
    ∷ ("Initial Access", pos 2)
    ∷ ("Execution", pos 3)
    ∷ ("Privilege Escalation", pos 4)
    ∷ ("Defense Evasion", pos 5)
    ∷ ("Exfiltration", pos 6)
    ∷ []

-- `rank.get(value, -1)`
unfoldable pub rank_of : String → List (String × ℤ) → ℤ
rank_of value rank = or_else (find value rank) (negsuc 0)

-- `_max_ranked`, on two columns that are not null
unfoldable pub max_ranked : String → String → List (String × ℤ) → String
max_ranked existing incoming rank =
    if str_eq existing ""
    then incoming
    else if str_eq incoming ""
    then existing
    else if ltb_ℤ (rank_of existing rank) (rank_of incoming rank)
    then incoming
    else existing

unfoldable pub merge_signal_ids : List String → List String → List String
merge_signal_ids merged [] = merged
merge_signal_ids merged (signal_id ∷ rest) =
    merge_signal_ids (if contains merged signal_id then merged else merged ++ signal_id ∷ []) rest

min_timestamp : ℕ → List EvidenceItem → ℕ
min_timestamp t [] = t
min_timestamp t (e ∷ rest) = min_timestamp (if leb t e.timestamp then t else e.timestamp) rest

unfoldable pub incident_anchor_time : Incident → ℕ
unfolding min_timestamp
incident_anchor_time incident = elim incident.evidence_timeline [
  | [] ↦ incident.created_at
  | e ∷ rest ↦ min_timestamp e.timestamp rest
]

-- into a sorted list without duplicates
insert_text : String → List String → List String
insert_text s [] = s ∷ []
insert_text s (t ∷ ts) =
    let later = insert_text s ts in
    elim (compare s t) [ Ordering.lt ↦ s ∷ t ∷ ts | Ordering.eq ↦ t ∷ ts | Ordering.gt ↦ t ∷ later ]

-- `sorted({*xs, *ys})`
unfoldable pub sorted_union : List String → List String → List String
unfolding insert_text
sorted_union [] [] = []
sorted_union [] (y ∷ ys) = insert_text y (sorted_union [] ys)
sorted_union (x ∷ xs) ys = insert_text x (sorted_union xs ys)

-- `a or b`
abbrev pub or_text : Option String → Option String → Option String
or_text a b = if truthy a then a else b

abbrev pub no_cti : CtiEnrichment
no_cti = record {
  abuse_score = none;
  country = none;
  city = none;
  asn_org = none;
  user_agent = none;
  tags = [];
  sources = [];
  note = none;
}

-- `_merge_cti`: the incoming enrichment is there, a missing one of the row reads as an empty object
unfoldable pub merge_cti : Option CtiEnrichment → CtiEnrichment → CtiEnrichment
merge_cti existing incoming =
    let e = or_else existing no_cti in
    let preferred = if leb (abuse e) (abuse incoming) then incoming else e in
    record {
      abuse_score = some (max (abuse e) (abuse incoming));
      country = preferred.country;
      city = or_text preferred.city (or_text e.city incoming.city);
      asn_org = or_text preferred.asn_org (or_text e.asn_org incoming.asn_org);
      user_agent = or_text e.user_agent incoming.user_agent;
      tags = sorted_union e.tags incoming.tags;
      sources = sorted_union e.sources incoming.sources;
      note = or_text preferred.note (or_text e.note incoming.note);
    }
