-- ===== src/Tests/Scoring.antt =====
-- Runs of backend/app/workers/detection and of backend/app/workers/correlation/builder.py.
use infra_red.Prelude.{◌≤◌, ◌≡◌, refl, true, false, none, some, [], arith}
use infra_red.Prelude.Format.{show, join}
use infra_red.Constants.{RuleId, KillChainStage, rule_value}
use infra_red.Detection.Confidence.{
  Evidence, calculate_detection_confidence, asset_bonus, novelty_bonus, ti_bonus, penalty,
  rule_confidence,
}
use infra_red.Detection.Hours.{kst_hour, in_off_hours}
use infra_red.Detection.Confidence.Mono.{score, score_mono}
use infra_red.Correlation.Builder.{Signal, CtiEnrichment, Extras, evidence_description}

abbrev webshell : Evidence
webshell = record {
  rule_id = "EXEC-002";
  correlation_bonus = 0;
  asset_type = some "db";
  environment = some "prod";
  exposure = none;
  contains_sensitive_data = true;
  is_known_ip = true;
  cti_abuse_score = 75;
  cti_is_known_malicious = false;
  cti_is_tor_exit = true;
  in_allowlist = true;
  in_maintenance_window = false;
  matches_benign_pattern = false;
}

abbrev worse : Evidence
worse = record webshell { correlation_bonus = 350; is_known_ip = false; in_allowlist = false }

webshell-score : score webshell ≡ 750
unfolding score calculate_detection_confidence asset_bonus novelty_bonus ti_bonus penalty
    rule_confidence
webshell-score = refl

score_mono_example : score webshell ≤ score worse
unfolding asset_bonus
score_mono_example = score_mono webshell worse (record {
  rule = refl;
  asset = refl;
  correlation = omega arith;
  known = λ h. refl;
  abuse = omega arith;
  malicious = λ h. h;
  tor = λ h. h;
  allowlist = λ h. refl;
  maintenance = λ h. h;
  benign = λ h. h;
})

abbrev root_login : Signal
root_login = record {
  signal_id = "SIG-1";
  tenant_id = "t";
  asset_id = "web";
  rule_id = RuleId.auth_root_login;
  rule_name = "Root Login Attempt";
  mitre_tactic = some "Initial Access";
  mitre_technique = none;
  kill_chain_stage = some KillChainStage.initial_access;
  source_ip = some "9.9.9.9";
  username = none;
  user_agent = some "curl";
  detected_count = 12;
  detected_at = 1000;
  escalate_to_incident = true;
}

abbrev listed : CtiEnrichment
listed = record {
  abuse_score = some 80;
  country = some "KR";
  city = none;
  asn_org = none;
  user_agent = none;
  tags = [];
  sources = [];
  note = none;
}

abbrev advanced : Extras
advanced = record {
  now = 1001;
  day = "20260101";
  tag = "ABCDEF01";
  advanced_from = some "Reconnaissance";
  detection_confidence = some 700;
  scenario_id = none;
  confidence_breakdown = none;
}

root_login_description :
    evidence_description root_login listed
    ≡ "AUTH-002 Root Login Attempt | 12 event(s) | user=- | source_ip=9.9.9.9 | country=KR | abuse_score=80"
unfolding evidence_description show join rule_value
root_login_description = refl

abbrev unlisted : CtiEnrichment
unlisted = record listed { abuse_score = none }

half_past_midnight : in_off_hours 22 6 (kst_hour 55800) ≡ true
unfolding in_off_hours kst_hour
half_past_midnight = refl
