-- ===== src/Correlation/Store.antt =====
-- backend/app/db/repositories.py: saving an incident, or merging it into an active one. The tables are
-- lists of rows in the order of insertion; a call that raises leaves them as they are, since its
-- transaction is rolled back. `inet` is the cast of PostgreSQL to INET: none where it fails, and
-- otherwise the address in its one canonical text.
pub mod Keeps
pub mod Latest
pub mod Save
pub mod Filed
pub mod Into
pub mod Evidence
use infra_red.Prelude.{
  ℕ, ◌+◌, String, Bool, true, false, not, ◌&&◌, ◌||◌, Option, none, some, List, [], ◌∷◌, ◌++◌, ltb,
  leb, or_else, str_eq, contains, if◌then◌else◌,
}
use infra_red.Prelude.All.{any}
use infra_red.Prelude.Format.{truthy, text_or}
use infra_red.Prelude.Int.{ltb_ℤ}
use infra_red.Constants.{stage_value}
use infra_red.Correlation.Builder.{CtiEnrichment, EvidenceItem, Incident}
use infra_red.Correlation.Tables.{Exhibit, Row, Tables, insert_incident_evidence, is_null, sql_eq}
use infra_red.Correlation.Merge.{
  severity_value, confidence_value, priority_value, severity_ranks, confidence_ranks,
  priority_ranks, stage_ranks, rank_of, max_ranked, merge_signal_ids, merge_cti,
  incident_anchor_time, or_text,
}

-- the condition EXISTS of the queries
unfoldable pub has_evidence : ℕ → ℕ → Row → List Exhibit → Bool
has_evidence anchor_at window i evidence =
    any
      (λ (e : Exhibit).
        str_eq e.incident_id i.incident_id
        && (leb anchor_at (e.timestamp + window) && leb e.timestamp (anchor_at + window)))
      evidence

-- The conditions that the two queries share.
unfoldable pub is_active : Incident → Row → Bool
is_active incident i =
    str_eq i.tenant_id incident.tenant_id
    && (str_eq i.asset_id incident.asset_id && contains ("open" ∷ "acknowledged" ∷ []) i.status)

-- The source of the row, by the query for an incident with a source or by that for one without.
unfoldable pub same_source : Option String → Incident → Row → Bool
same_source source incident i =
    if truthy incident.source_ip
    then sql_eq i.source_ip (text_or source "")
    else is_null i.source_ip && str_eq (or_else i.username "") (or_else incident.username "")

unfoldable pub is_candidate : ℕ → Option String → Incident → List Exhibit → Row → Bool
is_candidate window source incident evidence i =
    is_active incident i
    && (same_source source incident i
        && has_evidence (incident_anchor_time incident) window i evidence)

-- the later of two rows
abbrev pub later_row : Option Row → Row → Option Row
later_row none r = some r
later_row (some b) r = if ltb b.updated_at r.updated_at then some r else some b

-- ORDER BY updated_at DESC LIMIT 1
unfoldable pub latest : (Row → Bool) → Option Row → List Row → Option Row
latest p best [] = best
latest p best (r ∷ rest) = latest p (if p r then later_row best r else best) rest

new_row : Option String → Incident → Row
new_row source incident = record {
  incident_id = incident.incident_id;
  tenant_id = incident.tenant_id;
  asset_id = incident.asset_id;
  severity = severity_value incident.severity;
  confidence = confidence_value incident.confidence;
  priority = priority_value incident.priority;
  kill_chain_stage = stage_value incident.kill_chain_stage;
  mitre_tactic = some incident.mitre_attack.tactic;
  mitre_technique = some incident.mitre_attack.technique;
  cti_enrichment = some incident.cti_enrichment;
  source_ip = source;
  username = incident.username;
  signal_ids = incident.signal_ids;
  status = "open";
  created_at = incident.created_at;
  updated_at = incident.updated_at;
}

-- INSERT ... ON CONFLICT (incident_id) DO NOTHING
unfoldable pub insert_incident : Option String → Incident → List Row → List Row
unfolding new_row
insert_incident source incident rows =
    if any (λ (i : Row). str_eq i.incident_id incident.incident_id) rows
    then rows
    else rows ++ new_row source incident ∷ []

merged_username : Option String → Option String → Option String
merged_username existing incoming =
    if not (truthy existing) || sql_eq incoming "root" then or_text incoming existing else existing

-- UPDATE incidents SET ..., on a row of the id that was found
unfoldable pub merge_row : Row → Incident → Row → Row
unfolding merged_username
merge_row existing incident i =
    let incoming_stage = stage_value incident.kill_chain_stage in
    let drives_mitre = not (
      ltb_ℤ (rank_of incoming_stage stage_ranks) (rank_of existing.kill_chain_stage stage_ranks)) in
    record i {
      severity = max_ranked existing.severity (severity_value incident.severity) severity_ranks;
      confidence =
          max_ranked existing.confidence (confidence_value incident.confidence) confidence_ranks;
      priority = max_ranked existing.priority (priority_value incident.priority) priority_ranks;
      kill_chain_stage = max_ranked existing.kill_chain_stage incoming_stage stage_ranks;
      mitre_tactic =
          if drives_mitre then some incident.mitre_attack.tactic else existing.mitre_tactic;
      mitre_technique =
          if drives_mitre then some incident.mitre_attack.technique else existing.mitre_technique;
      cti_enrichment = some (merge_cti existing.cti_enrichment incident.cti_enrichment);
      username = merged_username existing.username incident.username;
      signal_ids = merge_signal_ids existing.signal_ids incident.signal_ids;
      updated_at = incident.updated_at;
    }

-- WHERE incident_id = :incident_id
unfoldable pub update_rows : Row → Incident → List Row → List Row
update_rows existing incident [] = []
update_rows existing incident (i ∷ rest) =
    (if str_eq i.incident_id existing.incident_id then merge_row existing incident i else i)
    ∷ update_rows existing incident rest

-- The source of an incident as the column takes it: none for a text that is no address.
unfoldable pub source_of : (String → Option String) → Option String → Option (Option String)
source_of inet none = some none
source_of inet (some ip) = elim (inet ip) [ none ↦ none | some a ↦ some (some a) ]

-- the id, whether the incident is new, and the tables
unfoldable pub insert_or_raise :
    Option (Option String) → Incident → Tables → Option (String × Bool × Tables)
insert_or_raise none incident t = none
insert_or_raise (some source) incident t = some (
  incident.incident_id,
  true,
  record {
    incidents = insert_incident source incident t.incidents;
    evidence = insert_incident_evidence incident incident.incident_id t.evidence;
  },
)

unfoldable pub merge_into : Row → Incident → Tables → String × Bool × Tables
merge_into existing incident t = (
  existing.incident_id,
  false,
  record {
    incidents = update_rows existing incident t.incidents;
    evidence = insert_incident_evidence incident existing.incident_id t.evidence;
  },
)

-- The row that the query finds.
unfoldable pub correlated : ℕ → Option String → Incident → Tables → Option Row
correlated window source incident t =
    latest (is_candidate window source incident t.evidence) none t.incidents

-- By what the query found, insert or merge.
unfoldable pub save_from :
    Option Row → Option (Option String) → Incident → Tables → Option (String × Bool × Tables)
save_from none column incident t = insert_or_raise column incident t
save_from (some existing) column incident t = some (merge_into existing incident t)

abbrev pub is_none : Option (Option String) → Bool
is_none none = true
is_none (some s) = false

-- A source that the query casts and that is no address raises there; an empty text is only cast when it
-- is inserted.
unfoldable pub save_or_merge_incident :
    (String → Option String) → ℕ → Incident → Tables → Option (String × Bool × Tables)
save_or_merge_incident inet window incident t =
    let column = source_of inet incident.source_ip in
    if truthy incident.source_ip && is_none column
    then none
    else save_from (correlated window (or_else column none) incident t) column incident t
