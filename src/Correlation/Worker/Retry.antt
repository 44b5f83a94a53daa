-- ===== src/Correlation/Worker/Retry.antt =====
-- backend/app/workers/correlation/worker.py: the second attempt at a signal whose first one failed.
use Prim.Native.Char.{code}
use Prim.Native.String.append
use infra_red.Prelude.{
  ℕ, zero, ◌+◌, ◌≤◌, ◌<◌, ◌≡◌, ◌≢◌, refl, sym, ap, ◌∙◌, String, Bool, true, false, Option, none,
  some, str_eq, str_eq_refl, eq_iff, Bool-cases, Option-cases, inl, inr, arith, if◌then◌else◌,
}
use infra_red.Prelude.Format.{◌^^◌, text_or}
use infra_red.Redis.{Redis}
use infra_red.Constants.{rule_value, stage_value}
use infra_red.Correlation.Builder.{Signal, CtiEnrichment, Incident}
use infra_red.Correlation.Chain.{ScenarioState, AttackScenario}
use infra_red.Correlation.Store.{save_or_merge_incident}
use infra_red.Correlation.Worker.{
  Env, State, Result, track_kill_chain, check_incident_dedup, save_and_publish, correlate,
  correlate_matched, process_enriched, dedup_key, incident_dedup, killchain_stage,
  killchain_ttl_seconds,
}

-- a text less a text of that length at its front
strip : String → String → String
strip String.[] s = s
strip (String.◌∷◌ c t) String.[] = ""
strip (String.◌∷◌ c t) (String.◌∷◌ d s) = strip t s

strip-front : (t s : String) → strip t (t ^^ s) ≡ s
unfolding strip
strip-front String.[] s = append.nil s
strip-front (String.◌∷◌ c t) s = ap (strip (String.◌∷◌ c t)) (append.cons c t s) ∙ strip-front t s

second : String → ℕ
second String.[] = zero
second (String.◌∷◌ c String.[]) = zero
second (String.◌∷◌ c (String.◌∷◌ d s)) = code d

has_two : String → Bool
has_two String.[] = false
has_two (String.◌∷◌ c String.[]) = false
has_two (String.◌∷◌ c (String.◌∷◌ d s)) = true

second-front : (s r : String) → has_two s ≡ true → second (s ^^ r) ≡ second s
unfolding second has_two
second-front String.[] r h = absurd (ground (arith, h))
second-front (String.◌∷◌ c String.[]) r h = absurd (ground (arith, h))
second-front (String.◌∷◌ c (String.◌∷◌ d s)) r h =
    ap second (append.cons c (String.◌∷◌ d s) r ∙ ap (String.◌∷◌ c) (append.cons d s r))

cancel_front : (t x y : String) → t ^^ x ≡ t ^^ y → x ≡ y
cancel_front t x y e = sym (strip-front t x) ∙ ap (strip t) e ∙ strip-front t y

-- The keys of one tenant differ in the character after the second colon.
keys_differ :
    (tenant rule asset ip user asset' ip' : String)
    → incident_dedup tenant rule asset ip user ≢ killchain_stage tenant asset' ip'
unfolding incident_dedup killchain_stage second has_two
keys_differ tenant rule asset ip user asset' ip' e =
    let x = rule ^^ ":" ^^ asset ^^ ":" ^^ ip ^^ ":" ^^ user in
    let y = asset' ^^ ":" ^^ ip' in
    let q : ":incident:dedup:" ^^ x ≡ ":killchain:" ^^ y =
      cancel_front tenant _ _ (cancel_front "tenant:" _ _ e) in
    let n : second ":incident:dedup:" ≡ second ":killchain:" =
      sym (second-front ":incident:dedup:" x refl)
      ∙ ap second q
      ∙ second-front ":killchain:" y refl in
    omega (arith, n)

differ : (a b : String) → a ≢ b → str_eq a b ≡ false
differ a b n = elim (Bool-cases (str_eq a b)) [ inl e ↦ absurd (n ((eq_iff a b).0 e)) | inr e ↦ e ]

module _ (K : Redis String) (signal : Signal) where
  open K use {Db, get, set_ex, get-set_ex}

  -- tracking the kill chain leaves the deduplication as it is
  pub get-track :
      (t now : ℕ) (db : Db)
      → now ≤ t
      → get t (dedup_key signal) (track_kill_chain K now signal db).1 ≡ get t (dedup_key signal) db
  unfolding track_kill_chain dedup_key
  get-track t now db l = elim (Option-cases signal.kill_chain_stage) [
    | inl e ↦ rw e refl
    | inr (stage, e) ↦
        let j = dedup_key signal in
        let ip = text_or signal.source_ip "" in
        let k = killchain_stage signal.tenant_id signal.asset_id ip in
        let d : str_eq j k ≡ false = differ j k (
          keys_differ signal.tenant_id (rule_value signal.rule_id) signal.asset_id
            (text_or signal.source_ip "no-ip") (text_or signal.username "no-user") signal.asset_id
            ip) in
        ground (arith, e, d, get-set_ex t now j k (stage_value stage) killchain_ttl_seconds db l)
  ]

module _ (K : Redis String) (C : Redis ScenarioState) (signal : Signal) (cti : CtiEnrichment) where
  open K use {get, set_ex, get-set_ex}

  -- nothing after the deduplication touches its server
  publish_kv :
      (env : Env) (i : Incident) (st : State K C) → (save_and_publish K C env i st).1.kv ≡ st.kv
  unfolding save_and_publish
  publish_kv env i st = elim (Bool-cases env.db_up) [
    | inr n ↦ rw n refl
    | inl y ↦ elim (Option-cases (save_or_merge_incident env.inet env.merge_window i st.tables)) [
      | inl e ↦ rw (y, e) refl
      | inr ((id, created, t), e) ↦ elim (Bool-cases env.publishes) [
        | inl sent ↦ rw (y, e, sent) refl
        | inr unsent ↦ rw (y, e, unsent) refl
      ]
    ]
  ]

  matched_kv :
      (env : Env) (from : Option String) (st : State K C)
      (m : Option (Option AttackScenario × ℕ × C.Db))
      → (correlate_matched K C env signal cti from st m).1.kv ≡ st.kv
  unfolding correlate_matched
  matched_kv env from st none = refl
  matched_kv env from st (some (matched, bonus, chain)) =
      publish_kv env _ (record st { chain = chain })

  -- which branch raised
  raised :
      (b c : Bool) (x y z : Result K C)
      → (if b then (if c then x else y) else z).0 ≡ none
      → y.0 ≡ some (none, false)
      → z.0 ≡ some (none, false)
      → (b ≡ true) × (c ≡ true) × ((if b then (if c then x else y) else z).1.kv ≡ x.1.kv)
  raised true true x y z h p q = (refl, refl, refl)
  raised true false x y z h p q = absurd (ground (arith, h, p))
  raised false c x y z h p q = absurd (ground (arith, h, q))

  new_entry :
      (now ttl t : ℕ) (db : K.Db)
      → (check_incident_dedup K now ttl signal db).0 ≡ true
      → now ≤ t
      → t < now + ttl
      → get t (dedup_key signal) (check_incident_dedup K now ttl signal db).1 ≡ some "1"
  unfolding check_incident_dedup
  new_entry now ttl t db h l m = elim (Option-cases (get now (dedup_key signal) db)) [
    | inl e ↦ ground (
      arith,
      e,
      m,
      get-set_ex t now (dedup_key signal) (dedup_key signal) "1" ttl db l,
      str_eq_refl (dedup_key signal),
    )
    | inr (v, e) ↦ absurd (ground (arith, e, h))
  ]

  -- the key of the deduplication after a call that raised
  entry_after_raise :
      (env : Env) (t : ℕ) (st : State K C)
      → (process_enriched K C env signal cti st).0 ≡ none
      → env.now ≤ t
      → t < env.now + env.incident_dedup_ttl_seconds
      → (signal.escalate_to_incident ≡ true)
        × (get t (dedup_key signal) (process_enriched K C env signal cti st).1.kv ≡ some "1")
  unfolding process_enriched correlate
  entry_after_raise env t st h l m =
      let (from, kv) = track_kill_chain K env.now signal st.kv in
      let (is_new, kv') = check_incident_dedup K env.now env.incident_dedup_ttl_seconds signal kv in
      let (b, c, e) = raised signal.escalate_to_incident is_new _ _ _ h refl refl in
      (
        b,
        ap (get t (dedup_key signal)) (e ∙ matched_kv env from (record st { kv = kv' }) _)
            ∙ new_entry env.now env.incident_dedup_ttl_seconds t kv c l m,
      )

  -- a signal whose key is there is skipped
  skipped :
      (env : Env) (st : State K C) (v : String)
      → signal.escalate_to_incident ≡ true
      → get env.now (dedup_key signal) st.kv ≡ some v
      → process_enriched K C env signal cti st
        ≡ (some (none, false), record st { kv = (track_kill_chain K env.now signal st.kv).1 })
  unfolding process_enriched check_incident_dedup
  skipped env st v b held =
      let q : get env.now (dedup_key signal) (track_kill_chain K env.now signal st.kv).1 ≡ some v =
        get-track K signal env.now env.now st.kv (omega arith) ∙ held in
      ground (arith, b, q)

  -- A signal whose first call raised gets no incident from a second call while the entry of the
  -- deduplication lasts: that call reports that there is none, as for a duplicate, and leaves the
  -- tables and the stream of incidents as the first one left them.
  pub retry_skipped :
      (env again : Env) (st : State K C)
      → (process_enriched K C env signal cti st).0 ≡ none
      → env.now ≤ again.now
      → again.now < env.now + env.incident_dedup_ttl_seconds
      → ((process_enriched K C again signal cti (process_enriched K C env signal cti st).1).0
          ≡ some (none, false))
        × ((process_enriched K C again signal cti
              (process_enriched K C env signal cti st).1).1.tables
            ≡ (process_enriched K C env signal cti st).1.tables)
        × ((process_enriched K C again signal cti
              (process_enriched K C env signal cti st).1).1.outbox
            ≡ (process_enriched K C env signal cti st).1.outbox)
  retry_skipped env again st h l m =
      let after = (process_enriched K C env signal cti st).1 in
      let (b, held) = entry_after_raise env again.now st h l m in
      let e = skipped again after "1" b held in
      (
        ap (λ (r : Result K C). r.0) e,
        ap (λ (r : Result K C). r.1.tables) e,
        ap (λ (r : Result K C). r.1.outbox) e,
      )
