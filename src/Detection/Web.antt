-- ===== src/Detection/Web.antt =====
-- backend/app/workers/detection/web_rules.py: the rules on web requests, WEB-001 to WEB-007, WEB-HNY-001
-- and NET-001. Whether a pattern of `re` finds something in a text is a parameter.
pub mod Rules
pub mod Flood
use infra_red.Prelude.{
  ℕ, ◌*◌, String, Bool, true, false, not, ◌&&◌, Option, none, some, List, [], ◌∷◌, ◌++◌, leb, ◌==◌,
  contains, or_else, str_eq, if◌then◌else◌,
}
use infra_red.Prelude.Format.{◌^^◌, show, truthy, text_or, or_empty, slice_to}
use infra_red.Prelude.Case.{codes, is_prefix}
use infra_red.Prelude.Strip.{before_char, rstrip_char}
use infra_red.Prelude.Dict.{entry_of}
use infra_red.Constants.{KillChainStage, RuleId}
use infra_red.Redis.{Redis}
use infra_red.Redis.Sorted.{Sorted}
use infra_red.Detection.Login.Keys.{ns}
use infra_red.Detection.Login.Signals.{Event}
use infra_red.Detection.Login.Rules.{slide, window_event_ids}
use infra_red.Detection.Intake.{NormalizedEvent}

-- the part of RuleSettings that these rules read
pub record WebSettings : Type 0 where
  pub web_admin_scan_threshold : ℕ
  pub web_admin_scan_window_seconds : ℕ
  pub web_404_threshold : ℕ
  pub web_404_window_seconds : ℕ
  pub web_sql_injection_enabled : Bool
  pub web_path_traversal_enabled : Bool
  pub web_cve_probe_enabled : Bool
  pub net_http_flood_enabled : Bool
  pub net_http_flood_threshold : ℕ
  pub net_http_flood_window_seconds : ℕ

-- the patterns of the file, by their names
pub record WebPatterns : Type 0 where
  pub webshell_path : String → Bool
  pub admin_path : String → Bool
  pub automation_ua : String → Bool
  pub normal_path : String → Bool
  pub sqli : String → Bool
  pub path_traversal : String → Bool
  pub cve_probe : String → Bool

-- backend/app/redis_kv/keys.py
unfoldable pub web_admin_req : String → String → String → String
web_admin_req tenant_id asset_id ip = ns tenant_id ^^ ":web:admin:" ^^ asset_id ^^ ":" ^^ ip

unfoldable pub web_404 : String → String → String → String
web_404 tenant_id asset_id ip = ns tenant_id ^^ ":web:404:" ^^ asset_id ^^ ":" ^^ ip

unfoldable pub net_rate_ip : String → String → String → String
net_rate_ip tenant_id asset_id ip = ns tenant_id ^^ ":net:rate:" ^^ asset_id ^^ ":" ^^ ip

pub record WebSignal : Type 0 where
  pub tenant_id : String
  pub asset_id : String
  pub rule_id : RuleId
  pub rule_name : String
  pub mitre_tactic : String
  pub mitre_technique : String
  pub kill_chain_stage : KillChainStage
  pub source_ip : Option String
  pub username : Option String
  pub user_agent : Option String
  pub detected_count : ℕ
  pub detected_at : ℕ
  pub triggering_event_ids : List String
  pub notes : String
  pub escalate_to_incident : Bool
  pub is_demo : Bool

-- `_web_signal`
unfoldable pub web_signal :
    RuleId
    → NormalizedEvent
    → String
    → String
    → String
    → KillChainStage
    → ℕ
    → String
    → List String
    → WebSignal
web_signal rule_id e rule_name tactic technique stage count note triggering = record {
  tenant_id = e.event.tenant_id;
  asset_id = e.event.asset_id;
  rule_id = rule_id;
  rule_name = rule_name;
  mitre_tactic = tactic;
  mitre_technique = technique;
  kill_chain_stage = stage;
  source_ip = e.event.source_ip;
  username = e.event.username;
  user_agent = e.user_agent;
  detected_count = count;
  detected_at = e.event.timestamp;
  triggering_event_ids = elim triggering [ [] ↦ e.event.event_id ∷ [] | i ∷ is ↦ i ∷ is ];
  notes = note;
  escalate_to_incident = true;
  is_demo = false;
}

-- HONEYPOT_PATH_SEVERITY and HONEYPOT_DEMO_PATH of backend/app/common/constants.py
abbrev pub honeypot_path_severity : List (String × String)
honeypot_path_severity =
    ("/demo", "info")
    ∷ ("/.env", "high")
    ∷ ("/wp-login.php", "medium")
    ∷ ("/.git", "high")
    ∷ ("/actuator", "high")
    ∷ ("/wp-config.php", "critical")
    ∷ ("/phpmyadmin", "high")
    ∷ ("/admin", "medium")
    ∷ ("/config.php", "high")
    ∷ ("/backup", "medium")
    ∷ []

abbrev pub honeypot_demo_path : String
honeypot_demo_path = "/demo"

-- the first prefix that the path stands below
abbrev pub below : String → List (String × String) → Option String
below clean [] = none
below clean ((prefix, sev) ∷ rest) =
    let found = below clean rest in
    if is_prefix (codes (prefix ^^ "/")) (codes clean) then some sev else found

-- the path without its query and the slashes at its end
unfoldable pub clean_path : String → String
unfolding before_char rstrip_char
clean_path path = rstrip_char b'/' (before_char b'?' path)

-- `_match_honeypot_path`
unfoldable pub match_honeypot_path : String → Option String
unfolding clean_path
match_honeypot_path path =
    let stripped = clean_path path in
    let clean = if str_eq stripped "" then "/" else stripped in
    elim (entry_of clean honeypot_path_severity) [
      | some sev ↦ some sev
      | none ↦ below clean honeypot_path_severity
    ]

-- the signal of WEB-HNY-001
unfoldable pub honeypot_signal : NormalizedEvent → String → String → WebSignal
unfolding clean_path
honeypot_signal e path severity =
    let is_demo_path = str_eq (clean_path path) honeypot_demo_path in
    let mild = contains ("info" ∷ "medium" ∷ []) severity in
    record {
      tenant_id = e.event.tenant_id;
      asset_id = e.event.asset_id;
      rule_id = RuleId.web_honeypot;
      rule_name = "Honeypot Path Access";
      mitre_tactic = if mild then "Reconnaissance" else "Initial Access";
      mitre_technique = if mild then "T1595" else "T1190";
      kill_chain_stage = KillChainStage.reconnaissance;
      source_ip = e.event.source_ip;
      username = none;
      user_agent = e.user_agent;
      detected_count = 1;
      detected_at = e.event.timestamp;
      triggering_event_ids = e.event.event_id ∷ [];
      notes = "Honeypot path accessed: " ^^ path ^^ " (severity=" ^^ severity ^^ ")";
      escalate_to_incident = not is_demo_path;
      is_demo = is_demo_path;
    }

-- `evaluate_honeypot`
unfoldable pub evaluate_honeypot : NormalizedEvent → List WebSignal
unfolding match_honeypot_path honeypot_signal
evaluate_honeypot e =
    if truthy e.request_path
    then elim (match_honeypot_path (or_empty e.request_path)) [
      | none ↦ []
      | some severity ↦ honeypot_signal e (or_empty e.request_path) severity ∷ []
    ]
    else []
