-- ===== src/Detection/Settings/Day.antt =====
-- What the rules read of the settings that a tenant saved, within a day.
use infra_red.Prelude.{
  ℕ, ◌+◌, ◌≤◌, ◌<◌, ◌≡◌, refl, ap, ◌∙◌, String, Bool, true, false, Option, none, some, List, [],
  ◌∷◌, ltb, contains, or_else, arith, if◌then◌else◌,
}
use infra_red.Prelude.Format.{show}
use infra_red.Prelude.Dict.{entry_of}
use infra_red.Redis.Hash.{Hashes, put_all}
use infra_red.Detection.Login.Signals.{RuleSettings}
use infra_red.Detection.Web.{WebSettings}
use infra_red.Detection.Settings.{
  SettingsRow, Defaults, num, flag, value_of, collect, detection_setting_fields, tenant_settings,
  cache, cache_tenant_settings, int_value, bool_value, login_settings, web_settings,
}
use infra_red.Detection.Settings.Cache.{first_of, first_none, put_all_lem, read_num, read_flag}

-- what a row says: its fields, and the defaults for those that are None
unfoldable pub saved_login : Defaults → SettingsRow → RuleSettings
saved_login cfg r = record {
  auth_brute_force_threshold = or_else r.auth_brute_force_threshold cfg.auth_brute_force_threshold;
  auth_brute_force_window_seconds =
      or_else r.auth_brute_force_window_sec cfg.auth_brute_force_window_seconds;
  auth_invalid_user_threshold =
      or_else r.auth_invalid_user_threshold cfg.auth_invalid_user_threshold;
  auth_invalid_user_window_seconds = cfg.auth_invalid_user_window_seconds;
  auth_fail_then_success_threshold =
      or_else r.auth_fail_then_success_threshold cfg.auth_fail_then_success_threshold;
  auth_fail_then_success_window_seconds = cfg.auth_fail_then_success_window_seconds;
  off_hours_enabled = or_else r.off_hours_enabled true;
  off_hours_start_kst = or_else r.off_hours_start_kst 0;
  off_hours_end_kst = or_else r.off_hours_end_kst 6;
  foreign_login_enabled = or_else r.foreign_login_enabled false;
  allowed_countries = or_else r.allowed_countries "KR";
}

unfoldable pub saved_web : Defaults → SettingsRow → WebSettings
saved_web cfg r = record {
  web_admin_scan_threshold = or_else r.web_admin_scan_threshold cfg.web_admin_scan_threshold;
  web_admin_scan_window_seconds = cfg.web_admin_scan_window_seconds;
  web_404_threshold = or_else r.web_404_threshold cfg.web_404_threshold;
  web_404_window_seconds = cfg.web_404_window_seconds;
  web_sql_injection_enabled = or_else r.web_sql_injection_enabled true;
  web_path_traversal_enabled = or_else r.web_path_traversal_enabled true;
  web_cve_probe_enabled = or_else r.web_cve_probe_enabled true;
  net_http_flood_enabled = true;
  net_http_flood_threshold = 300;
  net_http_flood_window_seconds = 300;
}

module _ (int_of : String → Option ℕ) (cfg : Defaults) (r : SettingsRow)
    (reads : (n : ℕ) → int_of (show n) ≡ some n) where
  -- a hash in which the fields of a row are found
  abbrev Holds : List (String × String) → Type 0
  Holds raw =
      (j : String)
      → entry_of j raw ≡ (if contains detection_setting_fields j then value_of r j else none)

  number :
      (raw : List (String × String)) (j : String) (o : Option ℕ) (fallback : ℕ)
      → entry_of j raw ≡ num o
      → int_value int_of (entry_of j raw) fallback ≡ or_else o fallback
  number raw j o fallback e =
      ap (λ v. int_value int_of v fallback) e ∙ read_num int_of o fallback reads

  boolean :
      (raw : List (String × String)) (j : String) (o : Option Bool) (fallback : Bool)
      → entry_of j raw ≡ flag o
      → bool_value (entry_of j raw) fallback ≡ or_else o fallback
  boolean raw j o fallback e = ap (λ v. bool_value v fallback) e ∙ read_flag o fallback

  login_lem :
      (raw : List (String × String)) → Holds raw → login_settings int_of cfg raw ≡ saved_login cfg r
  unfolding login_settings saved_login value_of
  login_lem raw h =
      rw
        (
          number raw _ r.auth_brute_force_threshold cfg.auth_brute_force_threshold
              (h "auth_brute_force_threshold"),
          number raw _ r.auth_brute_force_window_sec cfg.auth_brute_force_window_seconds
              (h "auth_brute_force_window_sec"),
          number raw _ r.auth_invalid_user_threshold cfg.auth_invalid_user_threshold
              (h "auth_invalid_user_threshold"),
          number raw _ r.auth_fail_then_success_threshold cfg.auth_fail_then_success_threshold
              (h "auth_fail_then_success_threshold"),
          boolean raw _ r.off_hours_enabled true (h "off_hours_enabled"),
          number raw _ r.off_hours_start_kst 0 (h "off_hours_start_kst"),
          number raw _ r.off_hours_end_kst 6 (h "off_hours_end_kst"),
          boolean raw _ r.foreign_login_enabled false (h "foreign_login_enabled"),
          ap (λ (v : Option String). or_else v "KR") (h "allowed_countries"),
        )
        refl

  web_lem :
      (raw : List (String × String)) → Holds raw → web_settings int_of cfg raw ≡ saved_web cfg r
  unfolding web_settings saved_web value_of
  web_lem raw h =
      rw
        (
          number raw _ r.web_admin_scan_threshold cfg.web_admin_scan_threshold
              (h "web_admin_scan_threshold"),
          number raw _ r.web_404_threshold cfg.web_404_threshold (h "web_404_threshold"),
          boolean raw _ r.web_sql_injection_enabled true (h "web_sql_injection_enabled"),
          boolean raw _ r.web_path_traversal_enabled true (h "web_path_traversal_enabled"),
          boolean raw _ r.web_cve_probe_enabled true (h "web_cve_probe_enabled"),
          h "net_http_flood_enabled",
          h "net_http_flood_threshold",
          h "net_http_flood_window_seconds",
        )
        refl

  row_Holds : Holds (put_all (collect (value_of r) detection_setting_fields) [])
  row_Holds j =
      put_all_lem (value_of r) j detection_setting_fields []
      ∙ picked (contains detection_setting_fields j) (value_of r j)
    where
      picked :
          (c : Bool) (o : Option String)
          → (if c then first_of o none else none) ≡ (if c then o else none)
      picked true o = first_none o
      picked false o = refl

  module _ (H : Hashes) (tenant_id : String) where
    cache_hash :
        (t now : ℕ) (mapping : List (String × String)) (db : H.Db)
        → ((s : ℕ) → H.hgetall s (tenant_settings tenant_id) db ≡ [])
        → now ≤ t
        → H.hgetall t
            (tenant_settings tenant_id)
            (cache H now (tenant_settings tenant_id) mapping db)
          ≡ (if ltb t (now + 86400) then put_all mapping [] else [])
    cache_hash t now [] db e l = e t ∙ ground arith
    cache_hash t now ((f, v) ∷ mapping) db e l =
        let key = tenant_settings tenant_id in
        H.hgetall-expire t now key 86400 _ l
        ∙ ap (λ (d : List (String × String)). if ltb t (now + 86400) then d else [])
            (H.hgetall-hset now key ((f, v) ∷ mapping) db ∙ ap (put_all ((f, v) ∷ mapping)) (e now))

    -- Where `int` reads back the text of a number, and nothing was cached for the tenant before: within a
    -- day of the saving of a row, the rules work with exactly the fields of the row, and with the defaults
    -- for those that are None.
    pub settings_read_back :
        (t now : ℕ) (db : H.Db)
        → ((s : ℕ) → H.hgetall s (tenant_settings tenant_id) db ≡ [])
        → now ≤ t
        → t < now + 86400
        → let raw =
            H.hgetall t (tenant_settings tenant_id) (cache_tenant_settings H now tenant_id r db) in
          (login_settings int_of cfg raw ≡ saved_login cfg r)
          × (web_settings int_of cfg raw ≡ saved_web cfg r)
    unfolding cache_tenant_settings
    settings_read_back t now db e l young =
        let mapping = collect (value_of r) detection_setting_fields in
        let raw = cache_hash t now mapping db e l ∙ ground (arith, young) in
        rw raw (login_lem (put_all mapping []) row_Holds, web_lem (put_all mapping []) row_Holds)
