-- ===== src/Detection/Login/Escalation.antt =====
-- AUTH-004: when a success after failures becomes an incident, and which failures it looks back on.
use infra_red.Prelude.{
  ℕ, ◌+◌, ◌≤◌, ◌<◌, ◌≡◌, refl, ap, ◌∙◌, String, Bool, true, false, not, ◌&&◌, ◌||◌, Option, some,
  List, [], ◌∷◌, ◌++◌, leb, ltb, ◌==◌, length, contains, str_eq, eq_iff, subst, Bool-cases, inl,
  inr, arith, if◌then◌else◌,
}
use infra_red.Prelude.Int.{pos, sub_ℕ}
use infra_red.Prelude.Format.{truthy, text_or}
use infra_red.Constants.{EventType, RuleId}
use infra_red.Redis.{Redis}
use infra_red.Redis.Sorted.{Sorted, inside, in_range}
use infra_red.Detection.Login.Keys.{auth_fail_user_ip}
use infra_red.Detection.Login.Signals.{Event, RuleSettings, Signal, LoginRule, signal}
use infra_red.Detection.Login.Known.{World, resolve_known_ip}
use infra_red.Detection.Login.Rules.{
  span, success, privileged_accounts, preceded, reasons, check_auth004_escalation, success_rule,
  login_rule, window_event_ids,
}

module _ {R : Redis String} (Z : Sorted R) (now : ℕ) where
  -- A success after failures becomes an incident exactly when the failures reach the threshold and the
  -- account is privileged, the address is not known, or there is a marker of AUTH-001 or of AUTH-003.
  pub verdict_lem :
      (failure_count threshold : ℕ) (event : Event) (user ip : String) (is_known_ip : Bool)
      (db : R.Db)
      → (check_auth004_escalation Z now failure_count threshold event user ip is_known_ip db).0 ≡ (
          leb threshold failure_count
          && (contains privileged_accounts user
              || not is_known_ip
              || preceded Z now RuleId.auth_brute_force event ip db
              || preceded Z now RuleId.auth_invalid_user event ip db))
  unfolding check_auth004_escalation reasons
  verdict_lem failure_count threshold event user ip is_known_ip db =
      verdict failure_count threshold (contains privileged_accounts user) is_known_ip
        (preceded Z now RuleId.auth_brute_force event ip db)
        (preceded Z now RuleId.auth_invalid_user event ip db) _ _ _ _ _ _ (λ r rs. _)
    where
      verdict :
          (n k : ℕ) (a b c d : Bool) (r1 r2 r3 r4 t1 t2 : String)
          (t3 : String → List String → String)
          → (let v : Bool × String =
                if ltb n k
                then (false, t1)
                else elim ((if a then r1 ∷ [] else [])
                    ++ (if b then [] else r2 ∷ [])
                    ++ (if c then r3 ∷ [] else if d then r4 ∷ [] else [])) [
                      | [] ↦ (false, t2)
                      | r ∷ rs ↦ (true, t3 r rs)
                    ] in
              v.0)
            ≡ (leb k n && (a || not b || c || d))
      verdict n k true b c d r1 r2 r3 r4 t1 t2 t3 = ground arith
      verdict n k false true true d r1 r2 r3 r4 t1 t2 t3 = ground arith
      verdict n k false true false true r1 r2 r3 r4 t1 t2 t3 = ground arith
      verdict n k false true false false r1 r2 r3 r4 t1 t2 t3 = ground arith
      verdict n k false false c d r1 r2 r3 r4 t1 t2 t3 = ground arith

-- every entry is older than a window that ends at `at`
abbrev pub Older : ℕ → ℕ → List (String × ℕ) → Type 0
Older width at [] = Unit
Older width at ((m, s) ∷ xs) = (s + width < at) × Older width at xs

inside-Older :
    (width at : ℕ) (xs : List (String × ℕ))
    → Older width at xs
    → inside (sub_ℕ at width) (pos at) xs ≡ []
inside-Older width at [] o = refl
inside-Older width at ((m, s) ∷ xs) o = rw (below at width s o.0) (inside-Older width at xs o.1)
  where
    below : (a b c : ℕ) → c + b < a → in_range (sub_ℕ a b) (pos a) c ≡ false
    below a b c h = ground arith

nonempty : (u : String) → contains privileged_accounts u ≡ true → truthy (some u) ≡ true
nonempty u p = elim (Bool-cases (str_eq u "")) [
  | inl e ↦
      let q : contains privileged_accounts "" ≡ true =
        subst (λ (t : String). contains privileged_accounts t ≡ true) ((eq_iff u "").0 e) p in
      cc q
  | inr e ↦ rw e refl
]

pub entered :
    {A : Type 0} (kind : EventType) (name : Option String) (user : String) (f : String → A) (d : A)
    → kind ≡ EventType.ssh_login_success
    → name ≡ some user
    → truthy (some user) ≡ true
    → (if success kind && truthy name then f (text_or name "") else d) ≡ f user
entered kind name user f d e n t = rw (e, n, t) (named (str_eq user "") t)
  where
    named : (b : Bool) → (if b then false else true) ≡ true → f (if b then "" else user) ≡ f user
    named true h = cc h
    named false h = refl

module _ {R : Redis String} (Z : Sorted R) (now : ℕ) where
  picked :
      (event : Event) (k m : ℕ) (v : World R) (s : List Signal) (verdict : Bool × String)
      (triggering : List String)
      → k ≡ m
      → 0 < m
      → verdict.0 ≡ true
      → triggering ≡ event.event_id ∷ []
      → (note : String) × (rest : List Signal) × ((let r : World R × List Signal =
              if k == 0 then (v, s) else (
                v,
                signal LoginRule.failed_then_success event
                      (k + 1)
                      (some verdict.1)
                      triggering
                      verdict.0
                    ∷ s,
              ) in
            r.1)
          ≡ signal LoginRule.failed_then_success event
              (m + 1)
              (some note)
              (event.event_id ∷ [])
              true
            ∷ rest)
  picked event k m v s verdict triggering e p q t =
      let z : (k == 0) ≡ false = ground (arith, e, p) in (verdict.1, s, rw (z, q, t, e) refl)

  -- For a successful login of a named user whose stored failures are all older than the window and at
  -- least as many as the threshold, which is positive: a privileged account still gets an AUTH-004 that
  -- becomes an incident. Its count has all the old failures, and of the events that it names none is a
  -- failure.
  pub stale_failures_count :
      (cfg : RuleSettings) (event : Event) (user ip : String) (w : World R)
      → event.event_type ≡ EventType.ssh_login_success
      → event.username ≡ some user
      → contains privileged_accounts user ≡ true
      → let xs = Z.zrange now (auth_fail_user_ip event.tenant_id event.asset_id user ip) w.kv in
        Older (span cfg.auth_fail_then_success_window_seconds) event.timestamp xs
        → cfg.auth_fail_then_success_threshold ≤ length xs
        → 0 < cfg.auth_fail_then_success_threshold
        → (note : String) × (rest : List Signal) × ((login_rule Z now cfg event ip w).1
            ≡ signal LoginRule.failed_then_success event
                (length xs + 1)
                (some note)
                (event.event_id ∷ [])
                true
              ∷ rest)
  unfolding login_rule success_rule
  stale_failures_count cfg event user ip w login named privileged older reached positive =
      let key = auth_fail_user_ip event.tenant_id event.asset_id user ip in
      let xs = Z.zrange now key w.kv in
      let c : Z.zcard now key w.kv ≡ length xs = Z.zcard_lem now key w.kv in
      let triggering : window_event_ids Z now key cfg.auth_fail_then_success_window_seconds event
              w.kv
            ++ event.event_id ∷ []
          ≡ event.event_id ∷ [] =
        ap (λ (ids : List String). ids ++ event.event_id ∷ [])
          (Z.zrangebyscore_lem now key _ _ w.kv
            ∙ inside-Older (span cfg.auth_fail_then_success_window_seconds) event.timestamp xs
                older) in
      let resolved = resolve_known_ip event.tenant_id event.asset_id user R now ip w in
      let out =
        picked event (Z.zcard now key w.kv) (length xs) _ _ _ _ c (omega (arith, reached, positive))
          (verdict_lem Z now (Z.zcard now key w.kv) cfg.auth_fail_then_success_threshold event user
              ip resolved.2 resolved.0.kv
            ∙ holds (leb cfg.auth_fail_then_success_threshold (Z.zcard now key w.kv))
                (contains privileged_accounts user) _ _ _ (ground (arith, c, reached)) privileged)
          triggering in
      (
        out.0,
        out.1,
        ap (λ (r : World R × List Signal). r.1)
              (entered event.event_type event.username user
                (λ u. success_rule Z now cfg event u ip w) _ login named (nonempty user privileged))
            ∙ out.2,
      )
    where
      holds : (a b c d e : Bool) → a ≡ true → b ≡ true → (a && (b || c || d || e)) ≡ true
      holds a b c d e p q = ground (arith, p, q)
