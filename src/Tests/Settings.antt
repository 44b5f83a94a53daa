-- ===== src/Tests/Settings.antt =====
-- Runs of backend/app/workers/detection/rule_settings.py, and of agent/infrared_agent/watchdog.py.
use infra_red.Prelude.{
  ℕ, ◌≡◌, refl, ap, String, true, false, Option, none, some, [], ◌∷◌, length, arith,
}
use infra_red.Prelude.Format.{show}
use infra_red.Prelude.Format.Numbers.{read, read-show}
use infra_red.Redis.Hash.{Hash, hashes}
use infra_red.Detection.Settings.{
  SettingsRow, Defaults, tenant_settings, cache_tenant_settings, login_settings, web_settings,
}
use infra_red.Detection.Settings.Day.{saved_login, saved_web, settings_read_back}
use infra_red.Agent.Watchdog.{log_file_truncated, check_log, watch}
use infra_red.Agent.Watchdog.Stops.{gone, state, stop_reported_once}

abbrev row : SettingsRow
row = record {
  auth_brute_force_threshold = some 7;
  auth_brute_force_window_sec = none;
  auth_invalid_user_threshold = none;
  auth_fail_then_success_threshold = none;
  web_admin_scan_threshold = none;
  web_404_threshold = some 20;
  off_hours_enabled = some false;
  off_hours_start_kst = none;
  off_hours_end_kst = none;
  foreign_login_enabled = none;
  allowed_countries = some "KR,US";
  web_sql_injection_enabled = none;
  web_path_traversal_enabled = none;
  web_cve_probe_enabled = none;
}

abbrev defaults : Defaults
defaults = record {
  auth_brute_force_threshold = 3;
  auth_brute_force_window_seconds = 300;
  auth_invalid_user_threshold = 2;
  auth_invalid_user_window_seconds = 300;
  auth_fail_then_success_threshold = 3;
  auth_fail_then_success_window_seconds = 600;
  web_admin_scan_threshold = 30;
  web_admin_scan_window_seconds = 300;
  web_404_threshold = 50;
  web_404_window_seconds = 300;
}

abbrev int_of : String → Option ℕ
int_of text = some (read 0 text)

abbrev int_of_show : (n : ℕ) → int_of (show n) ≡ some n
int_of_show n = ap some (read-show n)

abbrev empty_hash : Hash
empty_hash = record { fields = []; end = none }

abbrev no_hashes : hashes.Db
no_hashes key = empty_hash

settings_read_back_example :
    let raw =
      hashes.hgetall 60 (tenant_settings "t") (cache_tenant_settings hashes 5 "t" row no_hashes) in
    (login_settings int_of defaults raw ≡ saved_login defaults row)
    × (web_settings int_of defaults raw ≡ saved_web defaults row)
settings_read_back_example =
    settings_read_back int_of defaults row int_of_show hashes "t" 60 5 no_hashes (λ s. refl)
      (omega arith) (omega arith)

-- a day after the saving the threshold is the default
settings_end :
    (login_settings int_of defaults (
      hashes.hgetall 86405
        (tenant_settings "t")
        (cache_tenant_settings hashes 5 "t" row no_hashes))).auth_brute_force_threshold
    ≡ defaults.auth_brute_force_threshold
unfolding cache_tenant_settings login_settings tenant_settings
settings_end = refl

shrunk :
    (check_log "/var/log/syslog" (some 100) (("/var/log/syslog", 20000) ∷ [])).1
    ≡ log_file_truncated "/var/log/syslog" 20000 100 ∷ []
unfolding check_log
shrunk = refl

-- gone at 10, 20, 30, 50 and 60 seconds
stop_reported_once_example :
    length (watch (gone (10000 ∷ 20000 ∷ 30000 ∷ 50000 ∷ 60000 ∷ [])) (state [] true none)).1 ≡ 1
stop_reported_once_example = stop_reported_once [] 10000 (20000 ∷ 30000 ∷ 50000 ∷ 60000 ∷ [])
