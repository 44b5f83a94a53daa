-- ===== src/Detection/Settings.antt =====
-- backend/app/workers/detection/rule_settings.py, and the cache that it reads: `_cache_tenant_settings` of
-- backend/app/ingestion/settings_routes.py. `int_of` stands for `int`, none where it raises; the numbers
-- of the settings are not negative.
pub mod Cache
pub mod Day
use infra_red.Prelude.{
  ℕ, String, Bool, true, false, Option, none, some, List, [], ◌∷◌, contains, or_else, str_eq,
  if◌then◌else◌,
}
use infra_red.Prelude.Format.{◌^^◌, show}
use infra_red.Prelude.Case.{lower}
use infra_red.Prelude.Dict.{entry_of}
use infra_red.Redis.Hash.{Hashes}
use infra_red.Detection.Login.Keys.{ns}
use infra_red.Detection.Login.Rules.{bool_text}
use infra_red.Detection.Login.Signals.{RuleSettings}
use infra_red.Detection.Web.{WebSettings}

-- DETECTION_SETTING_FIELDS
abbrev pub detection_setting_fields : List String
detection_setting_fields =
    "auth_brute_force_threshold" ∷ "auth_brute_force_window_sec" ∷ "auth_invalid_user_threshold"
    ∷ "auth_fail_then_success_threshold" ∷ "web_admin_scan_threshold" ∷ "web_404_threshold"
    ∷ "off_hours_enabled" ∷ "off_hours_start_kst" ∷ "off_hours_end_kst" ∷ "foreign_login_enabled"
    ∷ "allowed_countries" ∷ "web_sql_injection_enabled" ∷ "web_path_traversal_enabled"
    ∷ "web_cve_probe_enabled" ∷ []

-- a row of tenant_settings, as far as it is cached
pub record SettingsRow : Type 0 where
  pub auth_brute_force_threshold : Option ℕ
  pub auth_brute_force_window_sec : Option ℕ
  pub auth_invalid_user_threshold : Option ℕ
  pub auth_fail_then_success_threshold : Option ℕ
  pub web_admin_scan_threshold : Option ℕ
  pub web_404_threshold : Option ℕ
  pub off_hours_enabled : Option Bool
  pub off_hours_start_kst : Option ℕ
  pub off_hours_end_kst : Option ℕ
  pub foreign_login_enabled : Option Bool
  pub allowed_countries : Option String
  pub web_sql_injection_enabled : Option Bool
  pub web_path_traversal_enabled : Option Bool
  pub web_cve_probe_enabled : Option Bool

abbrev pub num : Option ℕ → Option String
num none = none
num (some n) = some (show n)

abbrev pub flag : Option Bool → Option String
flag none = none
flag (some b) = some (bool_text b)

-- the text of `record.get(field)`
unfoldable pub value_of : SettingsRow → String → Option String
value_of r field =
    if str_eq field "auth_brute_force_threshold"
    then num r.auth_brute_force_threshold
    else if str_eq field "auth_brute_force_window_sec"
    then num r.auth_brute_force_window_sec
    else if str_eq field "auth_invalid_user_threshold"
    then num r.auth_invalid_user_threshold
    else if str_eq field "auth_fail_then_success_threshold"
    then num r.auth_fail_then_success_threshold
    else if str_eq field "web_admin_scan_threshold"
    then num r.web_admin_scan_threshold
    else if str_eq field "web_404_threshold"
    then num r.web_404_threshold
    else if str_eq field "off_hours_enabled"
    then flag r.off_hours_enabled
    else if str_eq field "off_hours_start_kst"
    then num r.off_hours_start_kst
    else if str_eq field "off_hours_end_kst"
    then num r.off_hours_end_kst
    else if str_eq field "foreign_login_enabled"
    then flag r.foreign_login_enabled
    else if str_eq field "allowed_countries"
    then r.allowed_countries
    else if str_eq field "web_sql_injection_enabled"
    then flag r.web_sql_injection_enabled
    else if str_eq field "web_path_traversal_enabled"
    then flag r.web_path_traversal_enabled
    else if str_eq field "web_cve_probe_enabled"
    then flag r.web_cve_probe_enabled
    else none

-- the mapping that is cached, of the fields that are not None
abbrev pub collected : String → Option String → List (String × String) → List (String × String)
collected field none rest = rest
collected field (some v) rest = (field, v) ∷ rest

unfoldable pub collect : (String → Option String) → List String → List (String × String)
collect get [] = []
collect get (field ∷ fields) = collected field (get field) (collect get fields)

unfoldable pub tenant_settings : String → String
tenant_settings tenant_id = ns tenant_id ^^ ":settings"

module _ (H : Hashes) where
  abbrev pub cache : ℕ → String → List (String × String) → H.Db → H.Db
  cache now key [] db = db
  cache now key ((field, v) ∷ mapping) db =
      H.expire now key 86400 (H.hset now key ((field, v) ∷ mapping) db)

  -- `_cache_tenant_settings`
  unfoldable pub cache_tenant_settings : ℕ → String → SettingsRow → H.Db → H.Db
  unfolding collect value_of
  cache_tenant_settings now tenant_id r db =
      cache now (tenant_settings tenant_id) (collect (value_of r) detection_setting_fields) db

-- the defaults of backend/app/config.py that the rules read
pub record Defaults : Type 0 where
  pub auth_brute_force_threshold : ℕ
  pub auth_brute_force_window_seconds : ℕ
  pub auth_invalid_user_threshold : ℕ
  pub auth_invalid_user_window_seconds : ℕ
  pub auth_fail_then_success_threshold : ℕ
  pub auth_fail_then_success_window_seconds : ℕ
  pub web_admin_scan_threshold : ℕ
  pub web_admin_scan_window_seconds : ℕ
  pub web_404_threshold : ℕ
  pub web_404_window_seconds : ℕ

-- `_int_value`, `_bool_value` and `_str_value`, on what the hash has at a key
abbrev pub int_value : (String → Option ℕ) → Option String → ℕ → ℕ
int_value int_of none fallback = fallback
int_value int_of (some v) fallback = or_else (int_of v) fallback

abbrev pub bool_value : Option String → Bool → Bool
bool_value none fallback = fallback
bool_value (some v) fallback = contains ("1" ∷ "true" ∷ "yes" ∷ []) (lower v)

module _ (int_of : String → Option ℕ) (cfg : Defaults) (raw : List (String × String)) where
  abbrev get : String → Option String
  get key = entry_of key raw

  -- `get_rule_settings`: the settings of the rules on logins, and those of the rules on web requests
  unfoldable pub login_settings : RuleSettings
  unfolding lower
  login_settings = record {
    auth_brute_force_threshold =
        int_value int_of (get "auth_brute_force_threshold") cfg.auth_brute_force_threshold;
    auth_brute_force_window_seconds =
        int_value int_of (get "auth_brute_force_window_sec") cfg.auth_brute_force_window_seconds;
    auth_invalid_user_threshold =
        int_value int_of (get "auth_invalid_user_threshold") cfg.auth_invalid_user_threshold;
    auth_invalid_user_window_seconds = cfg.auth_invalid_user_window_seconds;
    auth_fail_then_success_threshold =
        int_value int_of (get "auth_fail_then_success_threshold")
          cfg.auth_fail_then_success_threshold;
    auth_fail_then_success_window_seconds = cfg.auth_fail_then_success_window_seconds;
    off_hours_enabled = bool_value (get "off_hours_enabled") true;
    off_hours_start_kst = int_value int_of (get "off_hours_start_kst") 0;
    off_hours_end_kst = int_value int_of (get "off_hours_end_kst") 6;
    foreign_login_enabled = bool_value (get "foreign_login_enabled") false;
    allowed_countries = or_else (get "allowed_countries") "KR";
  }

  unfoldable pub web_settings : WebSettings
  unfolding lower
  web_settings = record {
    web_admin_scan_threshold =
        int_value int_of (get "web_admin_scan_threshold") cfg.web_admin_scan_threshold;
    web_admin_scan_window_seconds = cfg.web_admin_scan_window_seconds;
    web_404_threshold = int_value int_of (get "web_404_threshold") cfg.web_404_threshold;
    web_404_window_seconds = cfg.web_404_window_seconds;
    web_sql_injection_enabled = bool_value (get "web_sql_injection_enabled") true;
    web_path_traversal_enabled = bool_value (get "web_path_traversal_enabled") true;
    web_cve_probe_enabled = bool_value (get "web_cve_probe_enabled") true;
    net_http_flood_enabled = bool_value (get "net_http_flood_enabled") true;
    net_http_flood_threshold = int_value int_of (get "net_http_flood_threshold") 300;
    net_http_flood_window_seconds = int_value int_of (get "net_http_flood_window_seconds") 300;
  }
