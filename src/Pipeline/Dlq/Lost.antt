-- ===== src/Pipeline/Dlq/Lost.antt =====
-- backend/app/workers/correlation/worker.py, `_handle`: a signal whose first call raised, at its reclaim.
use infra_red.Prelude.{
  ℕ, ◌+◌, ◌≤◌, ◌<◌, ◌≡◌, ◌⊎◌, refl, sym, subst, ap, ◌∙◌, String, Bool, false, Option, none, some,
  [], ◌∷◌, ◌++◌, inl, inr, arith,
}
use infra_red.Redis.{Redis}
use infra_red.Correlation.Builder.{Signal, CtiEnrichment, Extras}
use infra_red.Correlation.Chain.{ScenarioState}
use infra_red.Correlation.Tables.{Tables}
use infra_red.Correlation.Worker.{Env, State, Result, process_enriched}
use infra_red.Correlation.Worker.Effects.{Stored, process-Consistent}
use infra_red.Correlation.Worker.Retry.{retry_skipped}
use infra_red.Pipeline.Dlq.{Fields, Queue, Handler, clear_retry, reclaim_one}

module _ (R : Redis ℕ) (K : Redis String) (C : Redis ScenarioState)
    (parse : Fields → Option (Signal × CtiEnrichment)) where
  -- the text of the exception, if the call raised
  abbrev raised : Result K C → Option String × State K C
  raised (none, st) = (some "correlation_failed", st)
  raised (some r, st) = (none, st)

  -- `_handle`. `parse` reads the two models from their fields.
  unfoldable pub handle : Env → Handler R (State K C)
  handle env stream_id fields st = elim (parse fields) [
    | none ↦ (some "validation_error", st)
    | some (signal, cti) ↦ raised (process_enriched K C env signal cti st)
  ]

  -- The tables are as they were, or XADD failed and they are those of the save before it.
  abbrev pub Kept : Env → Signal → CtiEnrichment → State K C → Tables → Type 0
  Kept env signal cti st tables =
      (tables ≡ st.tables)
      ⊎ ((env.publishes ≡ false)
          × ((x : Extras) × (id : String) × (created : Bool) × (t : Tables) × Stored K C env signal
                cti st x id created t
              × (tables ≡ t)))

  raised_same :
      (env : Env) (signal : Signal) (cti : CtiEnrichment) (st : State K C)
      → (process_enriched K C env signal cti st).0 ≡ none
      → Kept env signal cti st (process_enriched K C env signal cti st).1.tables
        × ((process_enriched K C env signal cti st).1.outbox ≡ st.outbox)
  raised_same env signal cti st h = elim (process-Consistent K C env signal cti st) [
    | inl (_, inl (x, id, created, t, _, e, _, _)) ↦ absurd (ground (arith, h, e))
    | inl (_, inr (inl (unsent, _, o, saved))) ↦ (inr (unsent, saved), o)
    | inl (_, inr (inr (_, t, o, _))) ↦ (inl t, o)
    | inr (_, e, _, _) ↦ absurd (ground (arith, h, e))
  ]

  raised_of : (r : Result K C) (x : Option String × Bool) → r.0 ≡ some x → raised r ≡ (none, r.1)
  raised_of (none, st) x e = absurd (ground (arith, e))
  raised_of (some y, st) x e = refl

  -- the turn of an entry whose handler returned
  returned :
      (h : Handler R (State K C)) (now : ℕ) (stage : String) (n : ℕ) (sid : String)
      (fields : Fields) (q : Queue R (State K C)) (w : State K C)
      → h sid fields q.world ≡ (none, w)
      → reclaim_one R (State K C) h now stage n sid fields q
        ≡ record q { world = w; acked = q.acked ++ sid ∷ []; kv = clear_retry R sid q.kv }
  unfolding reclaim_one
  returned h now stage n sid fields q w e =
      let raises : (h sid fields q.world).0 ≡ none =
        ap (λ (p : Option String × State K C). p.0) e in
      let world : (h sid fields q.world).1 ≡ w = ap (λ (p : Option String × State K C). p.1) e in
      rw (raises, world, reclaim_one) refl

  handled :
      (env : Env) (sid : String) (fields : Fields) (signal : Signal) (cti : CtiEnrichment)
      (st : State K C) (x : Option String × Bool)
      → parse fields ≡ some (signal, cti)
      → (process_enriched K C env signal cti st).0 ≡ some x
      → handle env sid fields st ≡ (none, (process_enriched K C env signal cti st).1)
  unfolding handle
  handled env sid fields signal cti st x p e =
      rw (p, handle) (raised_of (process_enriched K C env signal cti st) x e)

  -- An entry whose first call raised, for example since the database was down, is acknowledged by a
  -- reclaim within the life of the deduplication key, with no dead letter, although no message was sent:
  -- the stream of incidents is as before the first call. No incident was saved either, the tables are as
  -- before the first call, unless it was XADD that failed: then they are those of the save before it, so
  -- that the incident is there and its message is not.
  pub signal_lost :
      (env again : Env) (stage : String) (max_retries : ℕ) (sid : String) (fields : Fields)
      (signal : Signal) (cti : CtiEnrichment) (st : State K C) (q : Queue R (State K C))
      → parse fields ≡ some (signal, cti)
      → (process_enriched K C env signal cti st).0 ≡ none
      → env.now ≤ again.now
      → again.now < env.now + env.incident_dedup_ttl_seconds
      → let after = record q { world = (process_enriched K C env signal cti st).1 } in
        let q' =
          reclaim_one R (State K C) (handle again) again.now stage max_retries sid fields after in
        (q'.acked ≡ q.acked ++ sid ∷ [])
        × (q'.dead ≡ q.dead)
        × Kept env signal cti st q'.world.tables
        × (q'.world.outbox ≡ st.outbox)
  signal_lost env again stage max_retries sid fields signal cti st q p h l m =
      let w = (process_enriched K C env signal cti st).1 in
      let (skip, t, o) = retry_skipped K C signal cti env again st h l m in
      let (t0, o0) = raised_same env signal cti st h in
      let e =
        returned (handle again) again.now stage max_retries sid fields (record q { world = w })
          (process_enriched K C again signal cti w).1
          (handled again sid fields signal cti w (none, false) p skip) in
      (
        ap (λ (z : Queue R (State K C)). z.acked) e,
        ap (λ (z : Queue R (State K C)). z.dead) e,
        subst (Kept env signal cti st)
            (sym (ap (λ (z : Queue R (State K C)). z.world.tables) e ∙ t)) t0,
        ap (λ (z : Queue R (State K C)). z.world.outbox) e ∙ o ∙ o0,
      )
