-- ===== src/Correlation/Builder.antt =====
-- backend/app/workers/correlation/builder.py: an incident from a signal and its enrichment.
-- Times are seconds. The day and the random tag of an incident id are arguments.
pub mod Grade
pub mod Timeline
use infra_red.Prelude.{
  ℕ, ◌≤◌, String, Bool, true, false, ◌&&◌, ◌||◌, Option, none, some, List, [], ◌∷◌, ◌++◌, leb,
  or_else, if◌then◌else◌,
}
use infra_red.Prelude.Format.{◌^^◌, show, join, truthy, text_or}
use infra_red.Detection.Confidence.{Breakdown}
use infra_red.Constants.{
  Severity, Confidence, Priority, KillChainStage, RuleId, stage_value, rule_value,
}

-- backend/app/models/signal.py: the fields that the correlation stage reads
pub record Signal : Type 0 where
  pub signal_id : String
  pub tenant_id : String
  pub asset_id : String
  pub rule_id : RuleId
  pub rule_name : String
  pub mitre_tactic : Option String
  pub mitre_technique : Option String
  pub kill_chain_stage : Option KillChainStage
  pub source_ip : Option String
  pub username : Option String
  pub user_agent : Option String
  pub detected_count : ℕ
  pub detected_at : ℕ
  pub escalate_to_incident : Bool

-- backend/app/models/incident.py
pub record MitreAttack : Type 0 where
  pub tactic : String
  pub technique : String

pub record CtiEnrichment : Type 0 where
  pub abuse_score : Option ℕ
  pub country : Option String
  pub city : Option String
  pub asn_org : Option String
  pub user_agent : Option String
  pub tags : List String
  pub sources : List String
  pub note : Option String

pub record EvidenceItem : Type 0 where
  pub timestamp : ℕ
  pub description : String
  pub signal_id : Option String
  pub rule_id : Option String

pub record Incident : Type 0 where
  pub incident_id : String
  pub tenant_id : String
  pub asset_id : String
  pub severity : Severity
  pub confidence : Confidence
  pub priority : Priority
  pub kill_chain_stage : KillChainStage
  pub mitre_attack : MitreAttack
  pub cti_enrichment : CtiEnrichment
  pub evidence_timeline : List EvidenceItem
  pub signal_ids : List String
  pub source_ip : Option String
  pub username : Option String
  pub created_at : ℕ
  pub updated_at : ℕ
  pub detection_confidence : Option ℕ
  pub scenario_id : Option String
  pub confidence_breakdown : Option Breakdown

abbrev pub abuse : CtiEnrichment → ℕ
abuse cti = or_else cti.abuse_score 0

-- the tests of `_severity` on the rule are the clauses
unfoldable pub severity_of : RuleId → ℕ → ℕ → Severity
severity_of RuleId.auth_failed_then_success count score =
    if leb 70 score then Severity.critical else Severity.high
severity_of RuleId.auth_root_login count score =
    if leb 1 count && leb 70 score then Severity.critical else Severity.high
severity_of RuleId.auth_brute_force count score =
    if leb 5 count then Severity.high else Severity.medium
severity_of RuleId.auth_invalid_user count score = Severity.medium
severity_of RuleId.auth_suspicious_login count score =
    if leb 40 score then Severity.medium else Severity.info
severity_of _ count score = Severity.info

unfoldable pub confidence_of : ℕ → ℕ → Confidence
confidence_of count score =
    if leb 5 count || leb 70 score
    then Confidence.high
    else if leb 2 count || leb 40 score
    then Confidence.medium
    else Confidence.low

unfoldable pub priority_of : Severity → Confidence → Priority
priority_of Severity.critical _ = Priority.urgent
priority_of Severity.high Confidence.high = Priority.high
priority_of Severity.high Confidence.medium = Priority.high
priority_of Severity.high Confidence.low = Priority.normal
priority_of Severity.medium _ = Priority.normal
priority_of Severity.info _ = Priority.low

unfoldable pub evidence_description : Signal → CtiEnrichment → String
evidence_description signal cti = join " | " (
    (rule_value signal.rule_id ^^ " " ^^ signal.rule_name)
    ∷ (show signal.detected_count ^^ " event(s)")
    ∷ ("user=" ^^ text_or signal.username "-")
    ∷ ("source_ip=" ^^ text_or signal.source_ip "-")
    ∷ ((if truthy cti.country then ("country=" ^^ or_else cti.country "") ∷ [] else [])
        ++ elim cti.abuse_score [ none ↦ [] | some n ↦ ("abuse_score=" ^^ show n) ∷ [] ]))

unfoldable pub evidence_item : Signal → String → EvidenceItem
evidence_item signal text = record {
  timestamp = signal.detected_at;
  description = text;
  signal_id = some signal.signal_id;
  rule_id = some (rule_value signal.rule_id);
}

-- the second item, on a kill chain transition
unfoldable pub transition : Signal → Option String → Option KillChainStage → List EvidenceItem
unfolding evidence_item
transition signal advanced_from none = []
transition signal advanced_from (some stage) =
    if truthy advanced_from
    then evidence_item signal (
        "Kill chain transition: "
        ^^ text_or advanced_from ""
        ^^ " -> "
        ^^ stage_value stage
        ^^ " for source_ip="
        ^^ text_or signal.source_ip "-")
      ∷ []
    else []

attach_user_agent : Signal → CtiEnrichment → CtiEnrichment
attach_user_agent signal cti =
    if truthy signal.user_agent
    then (if truthy cti.user_agent then cti else record cti { user_agent = signal.user_agent })
    else cti

incident_id_of : String → String → String
incident_id_of day tag = "INC-" ^^ day ^^ "-" ^^ tag

-- The clock, the day and tag of the id, and the optional arguments.
pub record Extras : Type 0 where
  pub now : ℕ
  pub day : String
  pub tag : String
  pub advanced_from : Option String
  pub detection_confidence : Option ℕ
  pub scenario_id : Option String
  pub confidence_breakdown : Option Breakdown

unfoldable pub build_incident : Signal → CtiEnrichment → Extras → Incident
unfolding evidence_item transition attach_user_agent incident_id_of
build_incident signal cti x =
    let severity = severity_of signal.rule_id signal.detected_count (abuse cti) in
    let confidence = confidence_of signal.detected_count (abuse cti) in
    record {
      incident_id = incident_id_of x.day x.tag;
      tenant_id = signal.tenant_id;
      asset_id = signal.asset_id;
      severity = severity;
      confidence = confidence;
      priority = priority_of severity confidence;
      kill_chain_stage = or_else signal.kill_chain_stage KillChainStage.reconnaissance;
      mitre_attack = record {
        tactic = text_or signal.mitre_tactic "Unknown";
        technique = text_or signal.mitre_technique "Unknown";
      };
      cti_enrichment = attach_user_agent signal cti;
      evidence_timeline =
          evidence_item signal (evidence_description signal cti)
          ∷ transition signal x.advanced_from signal.kill_chain_stage;
      signal_ids = signal.signal_id ∷ [];
      source_ip = signal.source_ip;
      username = signal.username;
      created_at = x.now;
      updated_at = x.now;
      detection_confidence = x.detection_confidence;
      scenario_id = x.scenario_id;
      confidence_breakdown = x.confidence_breakdown;
    }
