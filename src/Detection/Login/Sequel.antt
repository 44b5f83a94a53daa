-- ===== src/Detection/Login/Sequel.antt =====
-- A success after a failure, through the whole of `evaluate_rules` both times.
use infra_red.Prelude.{
  ℕ, ◌+◌, ◌≤◌, ◌<◌, ◌≡◌, refl, ap, ◌∙◌, String, Bool, true, false, Option, some, List, [], ◌∷◌,
  ◌++◌, ◌==◌, length, arith, if◌then◌else◌,
}
use infra_red.Prelude.Format.{truthy}
use infra_red.Prelude.Int.{pos, sub_ℕ}
use infra_red.Redis.{Redis}
use infra_red.Redis.Sorted.{Sorted, drop_member, place_scored, outside}
use infra_red.Constants.{EventType}
use infra_red.Detection.Login.Keys.{auth_fail_user_ip}
use infra_red.Detection.Login.Signals.{Event, RuleSettings, LoginRule, Signal, signal}
use infra_red.Detection.Login.Known.{World}
use infra_red.Detection.Login.Rules.{
  span, failed, success, slide, brute_force_rule, invalid_user_rule, root_login_rule, success_rule,
  login_rule, remember_failure,
}
use infra_red.Detection.Login.Evaluate.{
  off_hours_rule, foreign_login_rule, stuffing_rule, finish, evaluate_from,
}
use infra_red.Detection.Login.Counts.{young, Fresh, drop-Fresh, length-outside, young-place}
use infra_red.Detection.Login.Escalation.{entered}
use infra_red.Detection.Login.Memory.{
  held-brute_force_rule, held-invalid_user_rule, held-stuffing_signals, held-slide_own, noted_lem,
}

module _ {R : Redis String} (Z : Sorted R) (t now : ℕ) (cfg : RuleSettings) (event : Event)
    (user ip : String) (iso_code : String → Option (Option String)) where
  -- the failures that the window of the user counts after a failed login
  zcard_noted :
      (w : World R)
      → failed event ≡ true
      → success event.event_type ≡ false
      → event.username ≡ some user
      → truthy (some user) ≡ true
      → 0 < cfg.auth_fail_then_success_window_seconds
      → now ≤ t
      → t < now + (cfg.auth_fail_then_success_window_seconds + 300)
      → let key = auth_fail_user_ip event.tenant_id event.asset_id user ip in
        Fresh event.event_id (Z.zrange now key w.kv)
        → Z.zcard t key (evaluate_from Z now iso_code cfg event ip w).0.kv
          ≡ young
              (span cfg.auth_fail_then_success_window_seconds)
              event.timestamp
              (Z.zrange now key w.kv)
            + 1
  zcard_noted w bad fails named nonempty width l h fresh =
      let key = auth_fail_user_ip event.tenant_id event.asset_id user ip in
      let window = cfg.auth_fail_then_success_window_seconds in
      let before = (brute_force_rule Z now cfg event ip w.kv).0 in
      let counted = (invalid_user_rule Z now cfg event ip before).0 in
      let slid = slide Z now key window (window + 300) event counted in
      let same : Z.zrange now key counted ≡ Z.zrange now key w.kv =
        held-invalid_user_rule Z now now cfg event user ip before
        ∙ held-brute_force_rule Z now now cfg event user ip w.kv in
      Z.zcard_lem t key _
      ∙ ap (λ (xs : List (String × ℕ)). length xs)
          (ap (Z.zrange t key)
              (noted_lem Z now cfg event user ip bad fails named nonempty iso_code w)
            ∙ held-stuffing_signals Z t now cfg event user ip slid
            ∙ held-slide_own Z t now cfg event user ip window (window + 300) counted l h
            ∙ ap
                (λ (xs : List (String × ℕ)). outside (pos 0) (sub_ℕ event.timestamp (span window)) (
                  place_scored Z.before event.event_id event.timestamp
                    (drop_member event.event_id xs)))
                same
            ∙ ap
                (λ (xs : List (String × ℕ)).
                  outside (pos 0) (sub_ℕ event.timestamp (span window))
                    (place_scored Z.before event.event_id event.timestamp xs))
                (drop-Fresh event.event_id (Z.zrange now key w.kv) fresh))
      ∙ length-outside (span window) event.timestamp _
      ∙ young-place Z.before event.event_id (span window) event.timestamp (Z.zrange now key w.kv)
          (omega (arith, width))

module _ {R : Redis String} (Z : Sorted R) (t : ℕ) (cfg : RuleSettings) (event : Event)
    (user ip : String) (iso_code : String → Option (Option String)) where
  brute_idle : (db : R.Db) → failed event ≡ false → brute_force_rule Z t cfg event ip db ≡ (db, [])
  unfolding brute_force_rule
  brute_idle db good = rw good refl

  probe_idle :
      (db : R.Db)
      → event.event_type ≡ EventType.ssh_login_success
      → invalid_user_rule Z t cfg event ip db ≡ (db, [])
  unfolding invalid_user_rule
  probe_idle db kind = rw kind refl

  login_enters :
      (w : World R)
      → event.event_type ≡ EventType.ssh_login_success
      → event.username ≡ some user
      → truthy (some user) ≡ true
      → login_rule Z t cfg event ip w ≡ success_rule Z t cfg event user ip w
  unfolding login_rule
  login_enters w kind named nonempty =
      entered event.event_type event.username user (λ u. success_rule Z t cfg event u ip w) (w, [])
        kind named nonempty

  -- the signals of a successful login
  evaluated_lem :
      (w : World R)
      → failed event ≡ false
      → event.event_type ≡ EventType.ssh_login_success
      → event.username ≡ some user
      → truthy (some user) ≡ true
      → (rest : List Signal) × ((evaluate_from Z t iso_code cfg event ip w).1
          ≡ root_login_rule event ++ ((success_rule Z t cfg event user ip w).1 ++ rest))
  unfolding evaluate_from finish
  evaluated_lem w good kind named nonempty =
      let done = λ (probe : R.Db × List Signal) (b : List Signal).
        finish Z t iso_code cfg event ip b probe.1
          (login_rule Z t cfg event ip (record w { kv = probe.0 })) in
      (
        off_hours_rule cfg event
            ++ ((stuffing_rule Z t event ip
                  (remember_failure Z t cfg event ip (success_rule Z t cfg event user ip w).0.kv)).1
                ++ foreign_login_rule iso_code cfg event ip),
        ap
              (λ (brute : R.Db × List Signal).
                (done (invalid_user_rule Z t cfg event ip brute.0) brute.1).1)
              (brute_idle w.kv good)
            ∙ ap (λ (probe : R.Db × List Signal). (done probe []).1) (probe_idle w.kv kind)
            ∙ ap
                (λ (login : World R × List Signal).
                  (finish Z t iso_code cfg event ip [] [] login).1)
                (login_enters w kind named nonempty),
      )

  -- a login with failures behind it gives AUTH-004
  success_lem :
      (w : World R) (n : ℕ)
      → Z.zcard t (auth_fail_user_ip event.tenant_id event.asset_id user ip) w.kv ≡ n + 1
      → (note : String) × (triggering : List String) × (escalate : Bool) × (rest : List Signal)
        × ((success_rule Z t cfg event user ip w).1
            ≡ signal LoginRule.failed_then_success event (n + 1 + 1) (some note) triggering escalate
              ∷ rest)
  unfolding success_rule
  success_lem w n c = chosen _ _ _ _ _ c
    where
      chosen :
          (k : ℕ) (v : World R) (s : List Signal) (verdict : Bool × String)
          (triggering : List String)
          → k ≡ n + 1
          → (note : String) × (triggering' : List String) × (escalate : Bool) × (rest : List Signal)
            × ((let r : World R × List Signal = if k == 0 then (v, s) else (
              v,
              signal LoginRule.failed_then_success event
                    (k + 1)
                    (some verdict.1)
                    triggering
                    verdict.0
                  ∷ s,
            ) in
                  r.1)
                ≡ signal LoginRule.failed_then_success event
                    (n + 1 + 1)
                    (some note)
                    triggering'
                    escalate
                  ∷ rest)
      chosen k v s verdict triggering e =
          let z : (k == 0) ≡ false = ground (arith, e) in
          (verdict.1, triggering, verdict.0, s, rw (z, e) refl)

module _ {R : Redis String} (Z : Sorted R) (t now : ℕ) (cfg : RuleSettings) (first second : Event)
    (user ip : String) (iso_code : String → Option (Option String)) where
  -- A failed login of a named user that is not stored yet, and a successful login of the same user from
  -- the same address on the same asset, evaluated at most the window and 300 seconds later, with a window
  -- of at least a second: the success is signalled as AUTH-004, behind the signals on root, whatever the
  -- other rules did in between. Its count is one more than the failures that were younger than the window
  -- at the failed login, which itself counts.
  pub success_after_failure :
      (w : World R)
      → failed first ≡ true
      → success first.event_type ≡ false
      → first.username ≡ some user
      → truthy (some user) ≡ true
      → 0 < cfg.auth_fail_then_success_window_seconds
      → let key = auth_fail_user_ip first.tenant_id first.asset_id user ip in
        Fresh first.event_id (Z.zrange now key w.kv)
        → now ≤ t
        → t < now + (cfg.auth_fail_then_success_window_seconds + 300)
        → second.tenant_id ≡ first.tenant_id
        → second.asset_id ≡ first.asset_id
        → failed second ≡ false
        → second.event_type ≡ EventType.ssh_login_success
        → second.username ≡ some user
        → let n =
            young
              (span cfg.auth_fail_then_success_window_seconds)
              first.timestamp
              (Z.zrange now key w.kv) in
          (note : String) × (triggering : List String) × (escalate : Bool) × (rest : List Signal)
          × ((evaluate_from Z t iso_code cfg second ip
                (evaluate_from Z now iso_code cfg first ip w).0).1
              ≡ root_login_rule second
                ++ (signal LoginRule.failed_then_success second
                      (n + 1 + 1)
                      (some note)
                      triggering
                      escalate
                    ∷ rest))
  success_after_failure w bad fails named nonempty width fresh l h tenant asset good kind named' =
      let after = (evaluate_from Z now iso_code cfg first ip w).0 in
      let c =
        zcard_noted Z t now cfg first user ip iso_code w bad fails named nonempty width l h fresh in
      let c' : Z.zcard t (auth_fail_user_ip second.tenant_id second.asset_id user ip) after.kv
          ≡ young (span cfg.auth_fail_then_success_window_seconds) first.timestamp
              (Z.zrange now (auth_fail_user_ip first.tenant_id first.asset_id user ip) w.kv)
            + 1 =
        rw (tenant, asset) c in
      let (rest, all) =
        evaluated_lem Z t cfg second user ip iso_code after good kind named' nonempty in
      let (note, triggering, escalate, more, found) =
        success_lem Z t cfg second user ip iso_code after _ c' in
      (
        note,
        triggering,
        escalate,
        more ++ rest,
        all ∙ ap (λ (s : List Signal). root_login_rule second ++ (s ++ rest)) found,
      )
