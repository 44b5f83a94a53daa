-- ===== src/Detection/Login/Rules.antt =====
-- backend/app/workers/detection/rules.py: AUTH-001 to AUTH-005, the parts of `evaluate_rules` that count
-- events and look back on failures. `now` is the clock of Redis in seconds.
use infra_red.Prelude.{
  ℕ, ◌+◌, ◌*◌, String, Bool, true, false, not, ◌&&◌, none, some, List, [], ◌∷◌, ◌++◌, ltb, leb,
  ◌==◌, contains, str_eq, if◌then◌else◌,
}
use infra_red.Prelude.Int.{pos, sub_ℕ}
use infra_red.Prelude.Format.{◌^^◌, show, join, truthy, text_or}
use infra_red.Constants.{EventType, RuleId, rule_value}
use infra_red.Redis.{Redis}
use infra_red.Redis.Sorted.{Sorted}
use infra_red.Detection.Login.Keys.{
  auth_fail_ip, auth_fail_user_ip, auth_invalid_user, prior_signal_key,
}
use infra_red.Detection.Login.Signals.{Event, RuleSettings, LoginRule, Signal, signal, rule_of}
use infra_red.Detection.Login.Known.{World, resolve_known_ip, persist_known_ip}

abbrev pub privileged_accounts : List String
privileged_accounts = "root" ∷ "admin" ∷ "deploy" ∷ []

abbrev pub prior_signal_ttl : ℕ
prior_signal_ttl = 3600

-- a span of seconds on the scale of the scores
abbrev pub span : ℕ → ℕ
span seconds = seconds * 1000000

abbrev pub failed : Event → Bool
failed event = elim event.result [ none ↦ false | some r ↦ str_eq r "failed" ]

abbrev pub success : EventType → Bool
success EventType.ssh_login_success = true
success _ = false

abbrev pub invalid : EventType → Bool
invalid EventType.ssh_invalid_user = true
invalid _ = false

-- AUTH-002
unfoldable pub root_login_rule : Event → List Signal
root_login_rule event =
    if str_eq (text_or event.username "") "root"
    then signal LoginRule.root_login event 1 (some "Root account was used.") [] true ∷ []
    else []

-- AUTH-005
unfoldable pub suspicious_login : Event → ℕ → Bool → List Signal
suspicious_login event seen_before is_known =
    if ltb 0 seen_before && not is_known
    then signal LoginRule.suspicious_login event 1
        (some "Login from a source IP not previously seen for this user.") [] true
      ∷ []
    else []

abbrev pub bool_text : Bool → String
bool_text true = "True"
bool_text false = "False"

module _ {R : Redis String} (Z : Sorted R) (now : ℕ) where
  -- an event is added to a window, and what is too old is dropped
  unfoldable pub slide : String → ℕ → ℕ → Event → R.Db → R.Db
  slide key window ttl event db = R.expire now key ttl (
      Z.zremrangebyscore now key (pos 0) (sub_ℕ event.timestamp (span window))
        (Z.zadd now key event.event_id event.timestamp db))

  -- `_window_event_ids`
  abbrev pub window_event_ids : String → ℕ → Event → R.Db → List String
  window_event_ids key window event db =
      Z.zrangebyscore now key (sub_ℕ event.timestamp (span window)) (pos event.timestamp) db

  -- AUTH-001 and AUTH-003 count the events of one window alike
  unfoldable pub count_rule :
      LoginRule → String → ℕ → ℕ → String → Event → String → R.Db → R.Db × List Signal
  unfolding slide
  count_rule rule key window threshold note event ip db =
      let slid = slide key window (window * 2) event db in
      let count = Z.zcard now key slid in
      if leb threshold count
      then (
        R.set_ex now
            (prior_signal_key event.tenant_id event.asset_id ip (rule_value (rule_of rule))) "1"
            prior_signal_ttl slid,
        signal rule event count (some note) (window_event_ids key window event slid) true ∷ [],
      )
      else (slid, [])

  -- AUTH-001
  unfoldable pub brute_force_rule : RuleSettings → Event → String → R.Db → R.Db × List Signal
  unfolding count_rule
  brute_force_rule cfg event ip db =
      if failed event
      then count_rule LoginRule.brute_force (auth_fail_ip event.tenant_id event.asset_id ip)
          cfg.auth_brute_force_window_seconds cfg.auth_brute_force_threshold
          (show cfg.auth_brute_force_threshold
            ^^ "+ SSH failures from one IP within "
            ^^ show cfg.auth_brute_force_window_seconds
            ^^ "s.")
          event ip db
      else (db, [])

  -- AUTH-003
  unfoldable pub invalid_user_rule : RuleSettings → Event → String → R.Db → R.Db × List Signal
  unfolding count_rule
  invalid_user_rule cfg event ip db =
      if invalid event.event_type
      then count_rule LoginRule.invalid_user (auth_invalid_user event.tenant_id event.asset_id ip)
          cfg.auth_invalid_user_window_seconds cfg.auth_invalid_user_threshold
          (show cfg.auth_invalid_user_threshold
            ^^ "+ invalid-user probes from one IP within "
            ^^ show cfg.auth_invalid_user_window_seconds
            ^^ "s.")
          event ip db
      else (db, [])

  abbrev pub exists : String → R.Db → Bool
  exists key db = elim (R.get now key db) [ none ↦ false | some v ↦ true ]

  abbrev pub preceded : RuleId → Event → String → R.Db → Bool
  preceded rule event ip db =
      exists (prior_signal_key event.tenant_id event.asset_id ip (rule_value rule)) db

  -- the reasons of `_check_auth004_escalation`
  unfoldable pub reasons : Event → String → String → Bool → R.Db → List String
  reasons event user ip is_known_ip db =
      (if contains privileged_accounts user
        then ("privileged account (" ^^ user ^^ ")") ∷ []
        else [])
      ++ (if is_known_ip then [] else "source IP not in known_ips" ∷ [])
      ++ (if preceded RuleId.auth_brute_force event ip db
          then ("preceded by " ^^ rule_value RuleId.auth_brute_force) ∷ []
          else if preceded RuleId.auth_invalid_user event ip db
          then ("preceded by " ^^ rule_value RuleId.auth_invalid_user) ∷ []
          else [])

  -- `_check_auth004_escalation`
  unfoldable pub check_auth004_escalation :
      ℕ → ℕ → Event → String → String → Bool → R.Db → Bool × String
  unfolding reasons
  check_auth004_escalation failure_count threshold event user ip is_known_ip db =
      if ltb failure_count threshold
      then (
        false,
        "AUTH-004 signal only (failure_count="
            ^^ show failure_count
            ^^ " < threshold="
            ^^ show threshold
            ^^ ").",
      )
      else elim (reasons event user ip is_known_ip db) [
        | [] ↦ (
          false,
          "AUTH-004 signal only (count="
              ^^ show failure_count
              ^^ ", known_ip="
              ^^ bool_text is_known_ip
              ^^ ", no preceding AUTH-001/003).",
        )
        | r ∷ rs ↦ (true, "Failed then success - escalated: " ^^ join "; " (r ∷ rs) ^^ ".")
      ]

  -- AUTH-004 and AUTH-005 on the login of a named user
  unfoldable pub success_rule :
      RuleSettings → Event → String → String → World R → World R × List Signal
  unfolding check_auth004_escalation suspicious_login resolve_known_ip persist_known_ip
  success_rule cfg event user ip w =
      let key = auth_fail_user_ip event.tenant_id event.asset_id user ip in
      let failure_count = Z.zcard now key w.kv in
      let triggering =
        window_event_ids key cfg.auth_fail_then_success_window_seconds event w.kv
        ++ event.event_id ∷ [] in
      let resolved = resolve_known_ip event.tenant_id event.asset_id user R now ip w in
      let verdict =
        check_auth004_escalation failure_count cfg.auth_fail_then_success_threshold event user ip
          resolved.2 resolved.0.kv in
      let persisted = persist_known_ip event.tenant_id event.asset_id user R now ip resolved.0 in
      if failure_count == 0 then (persisted, suspicious_login event resolved.1 resolved.2) else (
        persisted,
        signal LoginRule.failed_then_success event (failure_count + 1) (some verdict.1) triggering
              verdict.0
            ∷ suspicious_login event resolved.1 resolved.2,
      )

  unfoldable pub login_rule : RuleSettings → Event → String → World R → World R × List Signal
  unfolding success_rule
  login_rule cfg event ip w =
      if success event.event_type && truthy event.username
      then success_rule cfg event (text_or event.username "") ip w
      else (w, [])

  -- the failures that AUTH-004 looks back on
  unfoldable pub remember_failure : RuleSettings → Event → String → R.Db → R.Db
  unfolding slide
  remember_failure cfg event ip db =
      if failed event && truthy event.username
      then slide (auth_fail_user_ip event.tenant_id event.asset_id (text_or event.username "") ip)
          cfg.auth_fail_then_success_window_seconds
          (cfg.auth_fail_then_success_window_seconds + 300) event db
      else db
