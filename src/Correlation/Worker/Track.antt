-- ===== src/Correlation/Worker/Track.antt =====
-- backend/app/workers/correlation/worker.py: the stage of the kill chain that is stored of a source.
use infra_red.Prelude.{
  ℕ, ◌<◌, ◌≡◌, max, refl, String, false, Option, none, some, str_eq, str_eq_refl, arith,
}
use infra_red.Redis.{Redis}
use infra_red.Constants.{KillChainStage, stage_value}
use infra_red.Correlation.Builder.{Signal}
use infra_red.Correlation.Worker.{
  order_of, previous_order, killchain_stage, killchain_ttl_seconds, track_kill_chain,
}

previous_order-stage :
    (k : KillChainStage) → previous_order (some (stage_value k)) ≡ order_of (stage_value k)
unfolding previous_order stage_value order_of
previous_order-stage KillChainStage.reconnaissance = refl
previous_order-stage KillChainStage.credential_access = refl
previous_order-stage KillChainStage.initial_access = refl
previous_order-stage KillChainStage.execution = refl
previous_order-stage KillChainStage.persistence = refl
previous_order-stage KillChainStage.privilege_escalation = refl
previous_order-stage KillChainStage.defense_evasion = refl
previous_order-stage KillChainStage.installation = refl
previous_order-stage KillChainStage.command_and_control = refl
previous_order-stage KillChainStage.exfiltration = refl
previous_order-stage KillChainStage.impact = refl
previous_order-stage KillChainStage.actions_on_objectives = refl

module _ (K : Redis String) (now : ℕ) (signal : Signal) (ip : String) (stage : KillChainStage) where
  open K use {Db, get, set_ex, get-set_ex}

  -- the key of the signal's source on its asset
  abbrev pub key : String
  key = killchain_stage signal.tenant_id signal.asset_id ip

  -- The stage that was advanced from, if there is one, was stored and has a lower rank.
  abbrev pub IsAdvance : Db → Option String → Type 0
  IsAdvance db none = Unit
  IsAdvance db (some p) =
      (get now key db ≡ some p) × (previous_order (some p) < order_of (stage_value stage))

  IsAdvance-intro :
      (db : Db) (from : Option String)
      → ((p : String) → from ≡ some p → IsAdvance db (some p))
      → IsAdvance db from
  IsAdvance-intro db none f = tt
  IsAdvance-intro db (some p) f = f p refl

  -- A signal with a source and a stage leaves the higher of the stored stage's rank and its own. The
  -- stage that it reports as advanced from, if it reports one, was stored and has a lower rank.
  pub track_max :
      (db : Db)
      → signal.source_ip ≡ some ip
      → str_eq ip "" ≡ false
      → signal.kill_chain_stage ≡ some stage
      → (previous_order (get now key (track_kill_chain K now signal db).1)
          ≡ max (previous_order (get now key db)) (order_of (stage_value stage)))
        × IsAdvance db (track_kill_chain K now signal db).0
  unfolding track_kill_chain
  track_max db e n s = (
    ground (
      arith,
      e,
      n,
      s,
      get-set_ex now now key key (stage_value stage) killchain_ttl_seconds db (omega arith),
      str_eq_refl key,
      previous_order-stage stage,
    ),
    IsAdvance-intro db _ (λ p h. (ground (arith, e, n, s, h), ground (arith, e, n, s, h))),
  )
