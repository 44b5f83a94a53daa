-- ===== src/Detection/Login/Signals.antt =====
-- backend/app/workers/detection/rules.py: the events, the settings and the signals of the rules on
-- logins. Times of events are microseconds since the epoch.
use infra_red.Prelude.{
  ℕ, ◌-◌, ◌*◌, String, Bool, Option, none, some, List, [], ◌∷◌, ltb, if◌then◌else◌,
}
use infra_red.Prelude.Format.{◌^^◌, show}
use infra_red.Constants.{EventType, KillChainStage, RuleId}

-- backend/app/models/envelope.py, NormalizedEvent: the fields that the rules read
pub record Event : Type 0 where
  pub event_id : String
  pub tenant_id : String
  pub asset_id : String
  pub timestamp : ℕ
  pub event_type : EventType
  pub username : Option String
  pub source_ip : Option String
  pub result : Option String

-- backend/app/workers/detection/rule_settings.py: the settings that the rules read
pub record RuleSettings : Type 0 where
  pub auth_brute_force_threshold : ℕ
  pub auth_brute_force_window_seconds : ℕ
  pub auth_invalid_user_threshold : ℕ
  pub auth_invalid_user_window_seconds : ℕ
  pub auth_fail_then_success_threshold : ℕ
  pub auth_fail_then_success_window_seconds : ℕ
  pub off_hours_enabled : Bool
  pub off_hours_start_kst : ℕ
  pub off_hours_end_kst : ℕ
  pub foreign_login_enabled : Bool
  pub allowed_countries : String

-- the keys of RULE_META
pub data LoginRule : Type 0 where
  brute_force root_login invalid_user failed_then_success suspicious_login off_hours : LoginRule
  foreign_login cred_stuffing password_spraying honeytoken_file honeytoken_account : LoginRule

unfoldable pub rule_of : LoginRule → RuleId
rule_of LoginRule.brute_force = RuleId.auth_brute_force
rule_of LoginRule.root_login = RuleId.auth_root_login
rule_of LoginRule.invalid_user = RuleId.auth_invalid_user
rule_of LoginRule.failed_then_success = RuleId.auth_failed_then_success
rule_of LoginRule.suspicious_login = RuleId.auth_suspicious_login
rule_of LoginRule.off_hours = RuleId.auth_off_hours_login
rule_of LoginRule.foreign_login = RuleId.auth_foreign_ip_login
rule_of LoginRule.cred_stuffing = RuleId.auth_cred_stuffing
rule_of LoginRule.password_spraying = RuleId.auth_password_spraying
rule_of LoginRule.honeytoken_file = RuleId.deception_honeytoken_file
rule_of LoginRule.honeytoken_account = RuleId.deception_honeytoken_account

pub record RuleMeta : Type 0 where
  pub name : String
  pub tactic : String
  pub technique : String
  pub subtechnique : Option String
  pub stage : KillChainStage

abbrev meta : String → String → String → Option String → KillChainStage → RuleMeta
meta name tactic technique subtechnique stage = record {
  name = name;
  tactic = tactic;
  technique = technique;
  subtechnique = subtechnique;
  stage = stage;
}

unfoldable pub rule_meta : LoginRule → RuleMeta
rule_meta LoginRule.brute_force =
    meta "SSH Brute Force" "Credential Access" "T1110.001" (some "T1110.001")
      KillChainStage.credential_access
rule_meta LoginRule.root_login =
    meta "Root Login Attempt" "Initial Access" "T1078" none KillChainStage.initial_access
rule_meta LoginRule.invalid_user =
    meta "Invalid User Enumeration" "Reconnaissance" "T1592" none KillChainStage.reconnaissance
rule_meta LoginRule.failed_then_success =
    meta "Failed Then Success" "Initial Access" "T1110.001 -> T1078" (some "T1110.001")
      KillChainStage.initial_access
rule_meta LoginRule.suspicious_login =
    meta "Suspicious Login" "Initial Access" "T1078" none KillChainStage.initial_access
rule_meta LoginRule.off_hours =
    meta "Off-Hours Login" "Initial Access" "T1078" none KillChainStage.initial_access
rule_meta LoginRule.foreign_login =
    meta "Foreign Country Login" "Initial Access" "T1078" none KillChainStage.initial_access
rule_meta LoginRule.cred_stuffing =
    meta "Credential Stuffing" "Credential Access" "T1110.004" (some "T1110.004")
      KillChainStage.credential_access
rule_meta LoginRule.password_spraying =
    meta "Password Spraying" "Credential Access" "T1110.004" (some "T1110.004")
      KillChainStage.credential_access
rule_meta LoginRule.honeytoken_file =
    meta "Honeytoken File Access" "Discovery" "T1083" none KillChainStage.reconnaissance
rule_meta LoginRule.honeytoken_account =
    meta "Honeytoken Account Login" "Initial Access" "T1078" none KillChainStage.initial_access

-- the fields that `_signal` sets
pub record Signal : Type 0 where
  pub tenant_id : String
  pub asset_id : String
  pub rule : LoginRule
  pub meta : RuleMeta
  pub source_ip : Option String
  pub username : Option String
  pub detected_count : ℕ
  pub detected_at : ℕ
  pub window_start : ℕ
  pub window_end : ℕ
  pub triggering_event_ids : List String
  pub notes : Option String
  pub escalate_to_incident : Bool

-- `_signal`
unfoldable pub signal : LoginRule → Event → ℕ → Option String → List String → Bool → Signal
signal rule event count note triggering escalate = record {
  tenant_id = event.tenant_id;
  asset_id = event.asset_id;
  rule = rule;
  meta = rule_meta rule;
  source_ip = event.source_ip;
  username = event.username;
  detected_count = count;
  detected_at = event.timestamp;
  window_start = event.timestamp - 5 * 60 * 1000000;
  window_end = event.timestamp;
  triggering_event_ids = elim triggering [ [] ↦ event.event_id ∷ [] | e ∷ es ↦ e ∷ es ];
  notes = note;
  escalate_to_incident = escalate;
}

-- `f"{hour:02d}"`
unfoldable pub two_digits : ℕ → String
two_digits n = if ltb n 10 then "0" ^^ show n else show n
