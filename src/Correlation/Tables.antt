-- ===== src/Correlation/Tables.antt =====
-- backend/app/db/schema.sql and backend/app/db/repositories.py: the tables of incidents and of their
-- evidence, as lists of rows in the order of insertion, and the insertion of evidence.
use infra_red.Prelude.{
  ℕ, String, Bool, true, false, ◌&&◌, Option, none, some, List, [], ◌∷◌, ◌++◌, str_eq,
  if◌then◌else◌,
}
use infra_red.Prelude.All.{any}
use infra_red.Prelude.Format.{truthy, text_or}
use infra_red.Correlation.Builder.{CtiEnrichment, EvidenceItem, Incident}

-- a row of the table incidents
pub record Row : Type 0 where
  pub incident_id : String
  pub tenant_id : String
  pub asset_id : String
  pub severity : String
  pub confidence : String
  pub priority : String
  pub kill_chain_stage : String
  pub mitre_tactic : Option String
  pub mitre_technique : Option String
  pub cti_enrichment : Option CtiEnrichment
  pub source_ip : Option String
  pub username : Option String
  pub signal_ids : List String
  pub status : String
  pub created_at : ℕ
  pub updated_at : ℕ

-- a row of the table incident_evidence
pub record Exhibit : Type 0 where
  pub incident_id : String
  pub tenant_id : String
  pub timestamp : ℕ
  pub description : String
  pub signal_id : Option String
  pub rule_id : Option String

pub record Tables : Type 0 where
  pub incidents : List Row
  pub evidence : List Exhibit

-- `a = b` in SQL, on a column that may be null
abbrev pub sql_eq : Option String → String → Bool
sql_eq none b = false
sql_eq (some a) b = str_eq a b

abbrev pub is_null : Option String → Bool
is_null none = true
is_null (some a) = false

-- `_insert_incident_evidence`: the row that stops an item from being inserted
abbrev pub same_signal : String → String → Exhibit → Bool
same_signal incident_id signal_id e =
    str_eq e.incident_id incident_id && sql_eq e.signal_id signal_id

abbrev pub same_description : String → String → Exhibit → Bool
same_description incident_id description e =
    str_eq e.incident_id incident_id && str_eq e.description description

abbrev pub is_stored : String → EvidenceItem → List Exhibit → Bool
is_stored incident_id item evidence =
    if truthy item.signal_id
    then any (same_signal incident_id (text_or item.signal_id "")) evidence
    else any (same_description incident_id item.description) evidence

abbrev pub exhibit : String → String → EvidenceItem → Exhibit
exhibit tenant_id incident_id item = record {
  incident_id = incident_id;
  tenant_id = tenant_id;
  timestamp = item.timestamp;
  description = item.description;
  signal_id = item.signal_id;
  rule_id = item.rule_id;
}

unfoldable pub insert_items : String → String → List EvidenceItem → List Exhibit → List Exhibit
insert_items tenant_id incident_id [] evidence = evidence
insert_items tenant_id incident_id (item ∷ rest) evidence =
    insert_items tenant_id incident_id rest (
      if is_stored incident_id item evidence
      then evidence
      else evidence ++ exhibit tenant_id incident_id item ∷ [])

unfoldable pub insert_incident_evidence : Incident → String → List Exhibit → List Exhibit
insert_incident_evidence incident incident_id evidence =
    insert_items incident.tenant_id incident_id incident.evidence_timeline evidence
