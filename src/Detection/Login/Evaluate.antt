-- ===== src/Detection/Login/Evaluate.antt =====
-- backend/app/workers/detection/rules.py: AUTH-006, AUTH-006A, AUTH-006B and AUTH-007, and
-- `evaluate_rules`. `iso_code` stands for the GeoIP database: none where it fails or does not know the
-- address, and otherwise the code of the country if there is one.
use infra_red.Prelude.{
  ℕ, ◌/◌, String, true, ◌&&◌, Option, none, some, List, [], ◌∷◌, ◌++◌, map, leb, contains,
  if◌then◌else◌,
}
use infra_red.Prelude.Format.{◌^^◌, show, truthy, text_or}
use infra_red.Prelude.Case.{upper}
use infra_red.Prelude.Strip.{strip, split_char}
use infra_red.Redis.{Redis}
use infra_red.Redis.Sorted.{Sorted}
use infra_red.Detection.Hours.{kst_hour, in_off_hours}
use infra_red.Detection.Login.Keys.{auth_stuffing_user_to_ips, auth_stuffing_ip_to_users}
use infra_red.Detection.Login.Signals.{Event, RuleSettings, LoginRule, Signal, signal, two_digits}
use infra_red.Detection.Login.Known.{World}
use infra_red.Detection.Login.Rules.{
  failed, success, brute_force_rule, invalid_user_rule, root_login_rule, login_rule,
  remember_failure,
}

abbrev pub stuffing_ttl : ℕ
stuffing_ttl = 3600

-- AUTH-006
unfoldable pub off_hours_rule : RuleSettings → Event → List Signal
unfolding kst_hour in_off_hours two_digits
off_hours_rule cfg event =
    let hour = kst_hour (event.timestamp / 1000000) in
    if success event.event_type
      && cfg.off_hours_enabled
      && in_off_hours cfg.off_hours_start_kst cfg.off_hours_end_kst hour
    then signal LoginRule.off_hours event 1
        (some (
          "Login at KST "
          ^^ two_digits hour
          ^^ ":xx — outside business hours ("
          ^^ two_digits cfg.off_hours_start_kst
          ^^ ":00~"
          ^^ two_digits cfg.off_hours_end_kst
          ^^ ":00 flagged)."))
        [] true
      ∷ []
    else []

-- the countries of the setting
unfoldable pub allowed : String → List String
unfolding strip split_char upper
allowed allowed_countries = map (λ c. upper (strip c)) (split_char b',' allowed_countries)

-- AUTH-007
unfoldable pub foreign_login_rule :
    (String → Option (Option String)) → RuleSettings → Event → String → List Signal
unfolding allowed
foreign_login_rule iso_code cfg event ip =
    if success event.event_type && cfg.foreign_login_enabled
    then elim (iso_code ip) [
      | none ↦ []
      | some code ↦
          let country = text_or code "XX" in
          if contains (allowed cfg.allowed_countries) country
          then []
          else signal LoginRule.foreign_login event 1
              (some (
                "Login from foreign country: " ^^ country ^^ " (allowed: " ^^ cfg.allowed_countries
                ^^ ")."))
              [] true
            ∷ []
    ]
    else []

module _ {R : Redis String} (Z : Sorted R) (now : ℕ) where
  abbrev pub join_set : String → String → R.Db → R.Db
  join_set key member db = R.expire now key stuffing_ttl (R.sadd now key member db)

  -- AUTH-006A and AUTH-006B for a named user
  unfoldable pub stuffing_signals : Event → String → String → R.Db → R.Db × List Signal
  stuffing_signals event user ip db =
      let user_key = auth_stuffing_user_to_ips event.tenant_id event.asset_id user in
      let ip_key = auth_stuffing_ip_to_users event.tenant_id event.asset_id ip in
      let noted = join_set ip_key user (join_set user_key ip db) in
      let ip_count = R.scard now user_key noted in
      let user_count = R.scard now ip_key noted in
      (
        noted,
        (if leb 3 ip_count
              then signal LoginRule.cred_stuffing event ip_count
                  (some (
                    "Credential Stuffing (AUTH-006A): "
                    ^^ show ip_count
                    ^^ " different IPs tried username '"
                    ^^ user
                    ^^ "' within 1h."))
                  [] true
                ∷ []
              else [])
            ++ (if leb 5 user_count
                then signal LoginRule.password_spraying event user_count
                    (some (
                      "Password Spraying (AUTH-006B): "
                      ^^ show user_count
                      ^^ " different usernames tried from "
                      ^^ ip
                      ^^ " within 1h."))
                    [] true
                  ∷ []
                else []),
      )

  unfoldable pub stuffing_rule : Event → String → R.Db → R.Db × List Signal
  unfolding stuffing_signals
  stuffing_rule event ip db =
      if failed event && truthy event.username
      then stuffing_signals event (text_or event.username "") ip db
      else (db, [])

  -- what follows the rules that count and look back, given their results
  unfoldable pub finish :
      (String → Option (Option String))
      → RuleSettings
      → Event
      → String
      → List Signal
      → List Signal
      → World R × List Signal
      → World R × List Signal
  unfolding root_login_rule remember_failure off_hours_rule stuffing_rule foreign_login_rule
  finish iso_code cfg event ip brute probe login =
      let noted = remember_failure Z now cfg event ip login.0.kv in
      let stuffing = stuffing_rule event ip noted in
      (
        record { kv = stuffing.0; known_ips = login.0.known_ips },
        brute
            ++ (probe
                ++ (root_login_rule event
                    ++ (login.1
                        ++ (off_hours_rule cfg event
                            ++ (stuffing.1 ++ foreign_login_rule iso_code cfg event ip))))),
      )

  -- the rules on an event with a source address, in their order
  unfoldable pub evaluate_from :
      (String → Option (Option String))
      → RuleSettings
      → Event
      → String
      → World R
      → World R × List Signal
  unfolding brute_force_rule invalid_user_rule login_rule finish
  evaluate_from iso_code cfg event ip w =
      let brute = brute_force_rule Z now cfg event ip w.kv in
      let probe = invalid_user_rule Z now cfg event ip brute.0 in
      let login = login_rule Z now cfg event ip (record w { kv = probe.0 }) in
      finish iso_code cfg event ip brute.1 probe.1 login

  -- `evaluate_rules`
  unfoldable pub evaluate_rules :
      (String → Option (Option String)) → RuleSettings → Event → World R → World R × List Signal
  unfolding evaluate_from
  evaluate_rules iso_code cfg event w =
      if truthy event.source_ip
      then evaluate_from iso_code cfg event (text_or event.source_ip "") w
      else (w, [])
