-- ===== src/Correlation/Worker/Effects.antt =====
-- backend/app/workers/correlation/worker.py: what a processed signal leaves in the tables and in the
-- stream of incidents.
use infra_red.Prelude.{
  ℕ, ◌≡◌, refl, ap, ◌⊎◌, ◌∙◌, if◌then◌else◌, String, Bool, true, false, Option, none, some, [], ◌∷◌,
  ◌++◌, Bool-cases, Option-cases, inl, inr, arith,
}
use infra_red.Prelude.Format.{text_or}
use infra_red.Redis.{Redis}
use infra_red.Constants.{rule_value}
use infra_red.Correlation.Builder.{Signal, CtiEnrichment, Extras, build_incident}
use infra_red.Correlation.Chain.{ScenarioState}
use infra_red.Correlation.Chain.Scenarios.{process_signal}
use infra_red.Correlation.Chain.Total.{process_signal_returns}
use infra_red.Correlation.Store.{save_or_merge_incident}
use infra_red.Correlation.Tables.{Tables}
use infra_red.Correlation.Worker.{
  Env, State, Result, message, dedup_key, track_kill_chain, check_incident_dedup, save_and_publish,
  correlate, correlate_matched, process_enriched,
}
use infra_red.Correlation.Worker.Retry.{get-track}

module _ (K : Redis String) (C : Redis ScenarioState) (env : Env) (signal : Signal)
    (cti : CtiEnrichment) where
  open K use {get}

  -- an incident of the signal was saved, with these tables
  abbrev pub Stored : State K C → Extras → String → Bool → Tables → Type 0
  Stored st x id created t =
      save_or_merge_incident env.inet env.merge_window (build_incident signal cti x) st.tables
      ≡ some (id, created, t)

  -- an incident of the signal was saved, and its message is the last in the stream
  abbrev pub Saved : State K C → Result K C → Type 0
  Saved st r =
      (x : Extras) × (id : String) × (created : Bool) × (t : Tables) × Stored st x id created t
      × (r.0 ≡ some (some id, created))
      × (r.1.tables ≡ t)
      × (r.1.outbox ≡ st.outbox ++ message id created (build_incident signal cti x) ∷ [])

  -- XADD failed: the call raised, and an incident of the signal was saved with no message
  abbrev pub Unsent : State K C → Result K C → Type 0
  Unsent st r =
      (env.publishes ≡ false)
      × (r.0 ≡ none)
      × (r.1.outbox ≡ st.outbox)
      × ((x : Extras) × (id : String) × (created : Bool) × (t : Tables) × Stored st x id created t
          × (r.1.tables ≡ t))

  -- the database failed: the call raised, nothing was saved and nothing was sent
  abbrev pub Failed : State K C → Result K C → Type 0
  Failed st r =
      (r.0 ≡ none)
      × (r.1.tables ≡ st.tables)
      × (r.1.outbox ≡ st.outbox)
      × ((env.db_up ≡ false)
          ⊎ ((x : Extras) × (save_or_merge_incident env.inet env.merge_window
                  (build_incident signal cti x) st.tables
                ≡ none)))

  -- one of the three
  abbrev pub Tried : State K C → Result K C → Type 0
  Tried st r = Saved st r ⊎ (Unsent st r ⊎ Failed st r)

  -- The signal is to make an incident, and its key of the deduplication is not there.
  abbrev pub IsFresh : State K C → Type 0
  IsFresh st = (signal.escalate_to_incident ≡ true) × (get env.now (dedup_key signal) st.kv ≡ none)

  -- The signal is not to make an incident, or its key is there; nothing was saved or sent.
  abbrev pub Skipped : State K C → Result K C → Type 0
  Skipped st r =
      ((signal.escalate_to_incident ≡ false)
        ⊎ ((v : String) × (get env.now (dedup_key signal) st.kv ≡ some v)))
      × (r.0 ≡ some (none, false))
      × (r.1.tables ≡ st.tables)
      × (r.1.outbox ≡ st.outbox)

  abbrev pub Consistent : State K C → Result K C → Type 0
  Consistent st r = (IsFresh st × Tried st r) ⊎ Skipped st r

  publish-Tried :
      (x : Extras) (st : State K C)
      → Tried st (save_and_publish K C env (build_incident signal cti x) st)
  unfolding save_and_publish
  publish-Tried x st = elim (Bool-cases env.db_up) [
    | inr n ↦ rw n (inr (inr (refl, refl, refl, inl refl)))
    | inl y ↦
        let o =
          save_or_merge_incident env.inet env.merge_window (build_incident signal cti x)
            st.tables in
        elim (Option-cases o) [
          | inl e ↦ rw (y, e) (inr (inr (refl, refl, refl, inr (x, e))))
          | inr ((id, created, t), e) ↦ elim (Bool-cases env.publishes) [
            | inl sent ↦ rw (y, e, sent) (inl (x, id, created, t, e, refl, refl, refl))
            | inr unsent ↦
                rw (y, e, unsent) (inr (inl (refl, refl, refl, (x, id, created, t, e, refl))))
          ]
        ]
  ]

  correlate-Tried :
      (from : Option String) (st : State K C) → Tried st (correlate K C env signal cti from st)
  unfolding correlate correlate_matched
  correlate-Tried from st =
      let o =
        process_signal C env.now signal.tenant_id (rule_value signal.rule_id)
          (text_or signal.source_ip "no-ip") signal.asset_id st.chain in
      elim (Option-cases o) [
        | inl e ↦ absurd (
            process_signal_returns C env.now signal.tenant_id (text_or signal.source_ip "no-ip")
              signal.asset_id (rule_value signal.rule_id) st.chain e)
        | inr ((matched, bonus, chain), e) ↦
            rw (e, correlate_matched) (publish-Tried _ (record st { chain = chain }))
      ]

  -- a result without an incident that leaves tables and stream
  abbrev Idle : State K C → Result K C → Type 0
  Idle st r = (r.0 ≡ some (none, false)) × (r.1.tables ≡ st.tables) × (r.1.outbox ≡ st.outbox)

  abbrev absent : Option String → Bool
  absent none = true
  absent (some v) = false

  -- the two guards, by what the signal says and what is stored
  guards :
      (st : State K C) (b : Bool) (o : Option String) (c : Bool) (x y z : Result K C)
      → signal.escalate_to_incident ≡ b
      → get env.now (dedup_key signal) st.kv ≡ o
      → c ≡ absent o
      → Tried st x
      → Idle st y
      → Idle st z
      → Consistent st (if b then (if c then x else y) else z)
  guards st false o c x y z s e d f g h = inr (inl s, h.0, h.1, h.2)
  guards st true none true x y z s e d f g h = inl ((s, e), f)
  guards st true none false x y z s e d f g h = cc d
  guards st true (some v) true x y z s e d f g h = cc d
  guards st true (some v) false x y z s e d f g h = inr (inr (v, e), g.0, g.1, g.2)

  dedup-absent :
      (ttl : ℕ) (db : K.Db)
      → (check_incident_dedup K env.now ttl signal db).0
        ≡ absent (get env.now (dedup_key signal) db)
  unfolding check_incident_dedup
  dedup-absent ttl db = elim (Option-cases (get env.now (dedup_key signal) db)) [
    | inl e ↦ ground (arith, e)
    | inr (v, e) ↦ ground (arith, e)
  ]

  -- Where the commands of Redis before XADD succeed: a signal that is to make an incident and whose key of
  -- the deduplication is not there ends in one of three ways. An incident built from it was saved or merged:
  -- the id and the flag of the save are the result, the tables are those of the save, and the stream has one
  -- more message, with that id. Or XADD failed: the call raised, the tables are those of the save, and the
  -- stream is as it was. Or the database is down or the save failed: the call raised, and tables and stream
  -- are as they were. For every other signal the result is that there is no incident, and tables and stream
  -- are as they were.
  pub process-Consistent : (st : State K C) → Consistent st (process_enriched K C env signal cti st)
  unfolding process_enriched
  process-Consistent st =
      let (from, kv) = track_kill_chain K env.now signal st.kv in
      let ttl = env.incident_dedup_ttl_seconds in
      let (is_new, kv') = check_incident_dedup K env.now ttl signal kv in
      guards st signal.escalate_to_incident (get env.now (dedup_key signal) st.kv) is_new _ _ _ refl
        refl
        (dedup-absent ttl kv ∙ ap absent (get-track K signal env.now env.now st.kv (omega arith)))
        (correlate-Tried from (record st { kv = kv' })) (refl, refl, refl) (refl, refl, refl)
