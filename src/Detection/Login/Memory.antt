-- ===== src/Detection/Login/Memory.antt =====
-- What the rules remember from a failed login to the success that follows.
use infra_red.Prelude.{
  ℕ, ◌+◌, ◌*◌, ◌≤◌, ◌<◌, ◌≡◌, refl, ap, ◌∙◌, String, Bool, true, false, Option, some, List, [], leb,
  ltb, str_eq, arith, if◌then◌else◌,
}
use infra_red.Prelude.Format.{truthy, text_or}
use infra_red.Prelude.Int.{pos, sub_ℕ}
use infra_red.Redis.{Redis}
use infra_red.Redis.Sorted.{Sorted, drop_member, place_scored, outside}
use infra_red.Detection.Login.Keys.{auth_fail_user_ip}
use infra_red.Detection.Login.Apart.{fail_keys_differ, invalid_keys_differ, stuffing_keys_differ}
use infra_red.Detection.Login.Signals.{Event, RuleSettings, LoginRule, Signal}
use infra_red.Detection.Login.Known.{World}
use infra_red.Detection.Login.Rules.{
  span, failed, success, slide, count_rule, brute_force_rule, invalid_user_rule, login_rule,
  remember_failure, invalid,
}
use infra_red.Detection.Login.Evaluate.{
  join_set, stuffing_signals, stuffing_rule, finish, evaluate_from,
}

-- whichever branch is taken
if_same :
    {A B : Type 0} (f : A → B) (b : Bool) (x y z : A)
    → f x ≡ f z
    → f y ≡ f z
    → f (if b then x else y) ≡ f z
if_same f true x y z p q = p
if_same f false x y z p q = q

module _ {R : Redis String} (Z : Sorted R) (t now : ℕ) (j : String) where
  abbrev held : R.Db → List (String × ℕ)
  held db = Z.zrange t j db

  held-slide :
      (key : String) (window ttl : ℕ) (event : Event) (db : R.Db)
      → str_eq j key ≡ false
      → held (slide Z now key window ttl event db) ≡ held db
  unfolding slide
  held-slide key window ttl event db d =
      Z.zrange-expire_other t now j key ttl _ d
      ∙ Z.zrange-zremrangebyscore_other t now j key _ _ _ d
      ∙ Z.zrange-zadd_other t now j key event.event_id event.timestamp db d

  held-count_rule :
      (rule : LoginRule) (key : String) (window threshold : ℕ) (note : String) (event : Event)
      (ip : String) (db : R.Db)
      → str_eq j key ≡ false
      → held (count_rule Z now rule key window threshold note event ip db).0 ≡ held db
  unfolding count_rule
  held-count_rule rule key window threshold note event ip db d =
      if_same {A = R.Db × List Signal} (λ r. held r.0)
        (leb threshold (Z.zcard now key (slide Z now key window (window * 2) event db))) _ _
        (db, []) (Z.zrange-set_ex t now j _ "1" _ _ ∙ held-slide key window (window * 2) event db d)
        (held-slide key window (window * 2) event db d)

  held-join_set :
      (key m : String) (db : R.Db) → str_eq j key ≡ false → held (join_set Z now key m db) ≡ held db
  held-join_set key m db d =
      Z.zrange-expire_other t now j key _ _ d ∙ Z.zrange-sadd t now j key m db

module _ {R : Redis String} (Z : Sorted R) (t now : ℕ) (cfg : RuleSettings) (event : Event)
    (user ip : String) where
  abbrev pub fail_key : String
  fail_key = auth_fail_user_ip event.tenant_id event.asset_id user ip

  abbrev pub kept : R.Db → List (String × ℕ)
  kept db = Z.zrange t fail_key db

  pub held-brute_force_rule :
      (db : R.Db) → kept (brute_force_rule Z now cfg event ip db).0 ≡ kept db
  unfolding brute_force_rule
  held-brute_force_rule db =
      if_same {A = R.Db × List Signal} (λ r. kept r.0) (failed event) _ (db, []) (db, [])
        (held-count_rule Z t now fail_key LoginRule.brute_force _ _ _ _ event ip db
          (fail_keys_differ event.tenant_id event.asset_id user ip))
        refl

  pub held-invalid_user_rule :
      (db : R.Db) → kept (invalid_user_rule Z now cfg event ip db).0 ≡ kept db
  unfolding invalid_user_rule
  held-invalid_user_rule db =
      if_same {A = R.Db × List Signal} (λ r. kept r.0) (invalid event.event_type) _ (db, [])
        (db, [])
        (held-count_rule Z t now fail_key LoginRule.invalid_user _ _ _ _ event ip db
          (invalid_keys_differ event.tenant_id event.asset_id user ip))
        refl

  pub held-stuffing_signals :
      (db : R.Db) → kept (stuffing_signals Z now event user ip db).0 ≡ kept db
  unfolding stuffing_signals
  held-stuffing_signals db =
      let d = stuffing_keys_differ event.tenant_id event.asset_id user ip in
      held-join_set Z t now fail_key _ user _ d.1 ∙ held-join_set Z t now fail_key _ ip db d.0

  -- what the window of the user holds until its key ends
  pub held-slide_own :
      (window ttl : ℕ) (db : R.Db)
      → now ≤ t
      → t < now + ttl
      → kept (slide Z now fail_key window ttl event db)
        ≡ outside (pos 0) (sub_ℕ event.timestamp (span window)) (
            place_scored Z.before event.event_id event.timestamp
              (drop_member event.event_id (Z.zrange now fail_key db)))
  unfolding slide
  held-slide_own window ttl db l h =
      Z.zrange-expire t now fail_key ttl _ l
      ∙ live _ (ltb t (now + ttl)) (ground (arith, h))
      ∙ Z.zrange-zremrangebyscore now now fail_key _ _ _ (omega arith)
      ∙ ap (outside (pos 0) (sub_ℕ event.timestamp (span window)))
          (Z.zrange-zadd now fail_key event.event_id event.timestamp db)
    where
      live : (xs : List (String × ℕ)) (b : Bool) → b ≡ true → (if b then xs else []) ≡ xs
      live xs b e = ground arith

module _ {R : Redis String} (Z : Sorted R) (now : ℕ) (cfg : RuleSettings) (event : Event)
    (user ip : String) (bad : failed event ≡ true) (not_success : success event.event_type ≡ false)
    (named : event.username ≡ some user) (nonempty : truthy (some user) ≡ true) where
  pub text_named : text_or event.username "" ≡ user
  text_named = rw named (unquoted (str_eq user "") nonempty)
    where
      unquoted : (b : Bool) → (if b then false else true) ≡ true → (if b then "" else user) ≡ user
      unquoted true h = cc h
      unquoted false h = refl

  pub noted_lem :
      (iso_code : String → Option (Option String)) (w : World R)
      → (evaluate_from Z now iso_code cfg event ip w).0.kv
        ≡ (stuffing_signals Z now event user ip (
            slide Z now
              (auth_fail_user_ip event.tenant_id event.asset_id user ip)
              cfg.auth_fail_then_success_window_seconds
              (cfg.auth_fail_then_success_window_seconds + 300)
              event
              (invalid_user_rule Z now cfg event ip
                (brute_force_rule Z now cfg event ip w.kv).0).0)).0
  unfolding evaluate_from finish login_rule remember_failure stuffing_rule
  noted_lem iso_code w = rw (not_success, bad, text_named, named, nonempty) refl
