-- ===== src/Response/Engine/Guard.antt =====
-- backend/app/autoresponse/engine.py: which addresses reach the deny list.
use text.Mathlib.TextLemmas.{append_cancel_left}
use infra_red.Prelude.{
  ◌≡◌, ◌≢◌, refl, sym, ◌∙◌, ◌⊎◌, inl, inr, String, Bool, true, false, ◌&&◌, Option, some, List, [],
  ◌∷◌, str_eq, eq_iff, Bool-cases, Option-cases, contains, find, or_else, arith, if◌then◌else◌,
}
use infra_red.Prelude.Format.{◌^^◌, truthy, text_or}
use infra_red.Redis.{Redis}
use infra_red.Response.Actions.{Action}
use infra_red.Response.Address.{Addr, Network}
use infra_red.Response.Engine.{
  Request, Run, apply_v3, v3_policy, may_list, v3_step, watchlist_step, block_step, perform,
  perform_all, is_safe, is_in_allowlist, start, run_autoresponse, notify, sev_lower,
  load_autoresponse_policy,
}
use infra_red.Response.Policy.{
  Policy, SevPolicy, Settings, policy_key, policy_denylist, policy_watchlist, policy_allowlist,
  V3Action, get_v3_action, no_policy,
}

-- Keys of one tenant with different names are different.
keys_differ : (a b t : String) → a ≢ b → str_eq (policy_key a t) (policy_key b t) ≡ false
keys_differ a b t ne = elim (Bool-cases (str_eq (policy_key a t) (policy_key b t))) [
  | inl e ↦ absurd (
      ne (
        append_cancel_left t a b (
          append_cancel_left "tenant:" (t ^^ a) (t ^^ b)
            ((eq_iff (policy_key a t) (policy_key b t)).0 e))))
  | inr e ↦ e
]

deny-ne-watch : ◌≢◌ {A = String} ":policy:deny" ":policy:watchlist"
deny-ne-watch = ground (arith, eq_iff ":policy:deny" ":policy:watchlist")

allow-ne-watch : ◌≢◌ {A = String} ":policy:allow" ":policy:watchlist"
allow-ne-watch = ground (arith, eq_iff ":policy:allow" ":policy:watchlist")

allow-ne-deny : ◌≢◌ {A = String} ":policy:allow" ":policy:deny"
allow-ne-deny = ground (arith, eq_iff ":policy:allow" ":policy:deny")

module _ (R : Redis (Option Policy)) (ip_address : String → Option Addr) (demo_nets : List Network)
    (q : Request) where
  open R use {Db, get, sismember, sadd, sismember-sadd}

  abbrev ip : String
  ip = text_or q.source_ip ""

  abbrev pub denied : String → Db → Bool
  denied m db = sismember q.now (policy_denylist q.tenant_id) m db

  abbrev pub allowed : Db → Bool
  allowed db = is_in_allowlist R ip_address demo_nets q.now q.tenant_id ip db

  -- The address may be blocked.
  abbrev MayBlock : Db → Type 0
  MayBlock db = (is_safe R ip_address demo_nets q.source_ip ≡ false) × (allowed db ≡ false)

  -- What a step does to the server.
  data Effect (before after : Db) : Type 0 where
    same : after ≡ before → Effect before after
    watched : after ≡ sadd q.now (policy_watchlist q.tenant_id) ip before → Effect before after
    blocked :
        after ≡ sadd q.now (policy_denylist q.tenant_id) ip before
        → MayBlock before
        → Effect before after

  -- The allow list stays, and who is denied afterwards was denied before or may be blocked.
  record IsGuarded (before after : Db) : Type 0 where
    keeps : allowed after ≡ allowed before
    guards :
        (m : String)
        → denied m after ≡ true
        → (denied m before ≡ true) ⊎ ((m ≡ ip) × MayBlock before)

  Effect-IsGuarded : {before after : Db} → Effect before after → IsGuarded before after
  Effect-IsGuarded {before} (same e) = rw e (record { keeps = refl; guards = λ m d. inl d })
  Effect-IsGuarded {before} (watched e) = rw e (record {
    keeps = ground (
      arith,
      sismember-sadd q.now (policy_allowlist q.tenant_id) (policy_watchlist q.tenant_id) ip ip
          before,
      keys_differ ":policy:allow" ":policy:watchlist" q.tenant_id allow-ne-watch,
    );
    guards = λ m d. inl (
        ground (
          arith,
          sismember-sadd q.now (policy_denylist q.tenant_id) (policy_watchlist q.tenant_id) ip m
              before,
          keys_differ ":policy:deny" ":policy:watchlist" q.tenant_id deny-ne-watch,
        ));
  })
  Effect-IsGuarded {before} (blocked e may) = rw e (record {
    keeps = ground (
      arith,
      sismember-sadd q.now (policy_allowlist q.tenant_id) (policy_denylist q.tenant_id) ip ip
          before,
      keys_differ ":policy:allow" ":policy:deny" q.tenant_id allow-ne-deny,
    );
    guards = λ m d. elim (Bool-cases (str_eq m ip)) [
      | inl same_ip ↦ inr ((eq_iff m ip).0 same_ip, may)
      | inr other ↦ inl (
          ground (
            arith,
            sismember-sadd q.now (policy_denylist q.tenant_id) (policy_denylist q.tenant_id) ip m
                before,
          ))
    ];
  })

  IsGuarded-trans : {a b c : Db} → IsGuarded a b → IsGuarded b c → IsGuarded a c
  IsGuarded-trans {a} {b} {c} g h = record {
    keeps = h.keeps ∙ g.keeps;
    guards = λ m d. elim (h.guards m d) [
      | inl before ↦ g.guards m before
      | inr (same_ip, may) ↦ inr (same_ip, (may.0, sym g.keeps ∙ may.1))
    ];
  }

  v3_policy_blocks :
      (db : Db) (v : V3Action)
      → v3_policy R ip_address demo_nets q db ≡ some v
      → str_eq v.action "service_block" ≡ true
      → MayBlock db
  unfolding v3_policy get_v3_action
  v3_policy_blocks db v e s =
      ground (arith, eq_iff v.action "service_block", eq_iff "watchlist_only" "service_block")

  apply_v3-Effect :
      (v : V3Action) (r : Run Db)
      → (str_eq v.action "service_block" ≡ true → MayBlock r.db)
      → Effect r.db (apply_v3 R ip_address demo_nets q ip v r).db
  unfolding apply_v3
  apply_v3-Effect v r may = elim (Bool-cases (str_eq v.action "iptables_block")) [
    | inl a ↦ same (ground arith)
    | inr a ↦ elim (Bool-cases (str_eq v.action "service_block_pending_approval")) [
      | inl b ↦ same (ground arith)
      | inr b ↦ elim (Bool-cases (str_eq v.action "service_block")) [
        | inl c ↦ blocked (ground arith) (may c)
        | inr c ↦
            elim (Bool-cases (contains ("watchlist_only" ∷ "watchlist_notify" ∷ []) v.action)) [
              | inl d ↦ watched (ground arith)
              | inr d ↦ same (ground arith)
            ]
      ]
    ]
  ]

  v3_step-Effect : (r : Run Db) → Effect r.db (v3_step R ip_address demo_nets q r).db
  unfolding v3_step
  v3_step-Effect r = elim (Option-cases (v3_policy R ip_address demo_nets q r.db)) [
    | inl e ↦ same (rw (e, v3_step))
    | inr (v, e) ↦ rw (e, v3_step) (apply_v3-Effect v r (v3_policy_blocks r.db v e))
  ]

  watchlist_step-Effect :
      (p : SevPolicy) (r : Run Db) → Effect r.db (watchlist_step R ip_address demo_nets q p r).db
  unfolding watchlist_step
  watchlist_step-Effect p r =
      elim (Bool-cases
        (p.watchlist && truthy q.source_ip && may_list R ip_address demo_nets q r.db)) [
          | inl e ↦ watched (ground arith)
          | inr e ↦ same (ground arith)
        ]

  block_step-Effect :
      (p : SevPolicy) (r : Run Db) → Effect r.db (block_step R ip_address demo_nets q p r).db
  unfolding block_step
  block_step-Effect p r =
      elim (Bool-cases
        (p.block_ip && truthy q.source_ip && may_list R ip_address demo_nets q r.db)) [
          | inl e ↦ blocked (ground arith) (ground arith, ground arith)
          | inr e ↦ same (ground arith)
        ]

  perform-db :
      (settings : Settings) (sev : String) (a : Action) (r : Run Db)
      → (perform settings sev a r).db ≡ r.db
  unfolding perform
  perform-db settings sev a r = ground arith

  perform_all-db :
      (settings : Settings) (sev : String) (acts : List Action) (r : Run Db)
      → (perform_all settings sev acts r).db ≡ r.db
  unfolding perform_all
  perform_all-db settings sev [] r = refl
  perform_all-db settings sev (a ∷ rest) r =
      perform_all-db settings sev rest (perform settings sev a r) ∙ perform-db settings sev a r

  discord-db : (b : Bool) (r : Run Db) → (if b then notify "discord_notify" r else r).db ≡ r.db
  discord-db b r = ground arith

  run-IsGuarded : (db : Db) → IsGuarded db (run_autoresponse R ip_address demo_nets q db).db
  unfolding run_autoresponse
  run-IsGuarded db =
      let p =
        or_else
          (find (sev_lower q)
            (load_autoresponse_policy R ip_address demo_nets q.now q.tenant_id db))
          no_policy in
      let r1 = v3_step R ip_address demo_nets q (start R ip_address demo_nets db) in
      let r2 = watchlist_step R ip_address demo_nets q p r1 in
      let r3 = block_step R ip_address demo_nets q p r2 in
      rw (perform_all-db, discord-db)
        (IsGuarded-trans (Effect-IsGuarded (v3_step-Effect (start R ip_address demo_nets db))) (
          IsGuarded-trans (Effect-IsGuarded (watchlist_step-Effect p r1))
            (Effect-IsGuarded (block_step-Effect p r2))))

  -- An address that is on the deny list after a response, and was not before, is the source of the
  -- incident, is not safe, and is not on the allow list.
  pub denied_guarded :
      (db : Db) (m : String)
      → denied m (run_autoresponse R ip_address demo_nets q db).db ≡ true
      → (denied m db ≡ true)
        ⊎ ((m ≡ ip) × (is_safe R ip_address demo_nets q.source_ip ≡ false) × (allowed db ≡ false))
  denied_guarded db m d = elim ((run-IsGuarded db).guards m d) [
    | inl before ↦ inl before
    | inr (same_ip, may) ↦ inr (same_ip, may.0, may.1)
  ]

  -- A response leaves it as it was whether the source is on the allow list.
  pub allowed_kept :
      (db : Db) → allowed (run_autoresponse R ip_address demo_nets q db).db ≡ allowed db
  allowed_kept db = (run-IsGuarded db).keeps
