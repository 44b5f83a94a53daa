-- ===== src/Correlation/Store/Into.antt =====
-- backend/app/db/repositories.py: which incident a merge goes into, and what it holds afterwards.
use infra_red.Prelude.{
  ℕ, ◌+◌, ◌≤◌, ◌≡◌, ◌⊎◌, String, true, false, ◌||◌, Option, none, some, List, [], ◌∷◌, or_else,
  str_eq, contains,
}
use infra_red.Prelude.Format.{truthy, text_or}
use infra_red.Constants.{stage_value}
use infra_red.Correlation.Builder.{Incident}
use infra_red.Correlation.Merge.{
  severity_value, confidence_value, priority_value, severity_ranks, confidence_ranks,
  priority_ranks, stage_ranks, incident_anchor_time,
}
use infra_red.Correlation.Store.Filed.{Filed}
use infra_red.Correlation.Store.Keeps.{Lower}
use infra_red.Correlation.Tables.{Exhibit, Row, Tables}

-- The source of the row: the incident's, or none, with the same user name, for one without a source.
abbrev pub SameSource : Option String → Incident → Row → Type 0
SameSource source i e =
    ((truthy i.source_ip ≡ true) × (e.source_ip ≡ some (text_or source "")))
    ⊎ ((truthy i.source_ip ≡ false)
        × (e.source_ip ≡ none)
        × (or_else e.username "" ≡ or_else i.username ""))

-- evidence of the incident within the window around the time, either side of it
abbrev pub Near : ℕ → ℕ → String → List Exhibit → Type 0
Near at window id [] = ⊥
Near at window id (x ∷ xs) =
    ((x.incident_id ≡ id) × (at ≤ x.timestamp + window) × (x.timestamp ≤ at + window))
    ⊎ Near at window id xs

-- an active incident of the same tenant, asset and source, with evidence in the window
abbrev pub Matches : ℕ → Option String → Incident → List Exhibit → Row → Type 0
Matches window source i evidence e =
    (e.tenant_id ≡ i.tenant_id)
    × (e.asset_id ≡ i.asset_id)
    × ((e.status ≡ "open") ⊎ (e.status ≡ "acknowledged"))
    × SameSource source i e
    × Near (incident_anchor_time i) window e.incident_id evidence

-- The row has exactly the signals of both, the incident's time of update, and no lower rank than either.
abbrev pub Absorbed : Row → Incident → Row → Type 0
Absorbed e i n =
    (n.updated_at ≡ i.updated_at)
    × ((a : String)
        → contains n.signal_ids a ≡ (contains e.signal_ids a || contains i.signal_ids a))
    × (Lower severity_ranks e.severity n.severity
        × Lower severity_ranks (severity_value i.severity) n.severity)
    × (Lower confidence_ranks e.confidence n.confidence
        × Lower confidence_ranks (confidence_value i.confidence) n.confidence)
    × (Lower priority_ranks e.priority n.priority
        × Lower priority_ranks (priority_value i.priority) n.priority)
    × (Lower stage_ranks e.kill_chain_stage n.kill_chain_stage
        × Lower stage_ranks (stage_value i.kill_chain_stage) n.kill_chain_stage)

-- the rows with the id of `e` have absorbed the incident, and the others are as they were
abbrev pub Absorbs : Row → Incident → List Row → List Row → Type 0
Absorbs e i [] [] = Unit
Absorbs e i [] (n ∷ ns) = ⊥
Absorbs e i (r ∷ rs) [] = ⊥
Absorbs e i (r ∷ rs) (n ∷ ns) =
    (((r.incident_id ≡ e.incident_id) × (n.incident_id ≡ e.incident_id) × Absorbed e i n)
      ⊎ ((str_eq r.incident_id e.incident_id ≡ false) × (n ≡ r)))
    × Absorbs e i rs ns
