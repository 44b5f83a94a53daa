-- ===== src/Correlation/Chain/Window.antt =====
-- backend/app/workers/correlation/attack_chain.py: the last stage of CRED_SPREAD and the window.
use infra_red.Prelude.{ℕ, ◌≡◌, String, arith}
use infra_red.Redis.{Redis}
use infra_red.Correlation.Chain.{ScenarioStage, AttackScenario, ScenarioState, spread}

module _ (R : Redis ScenarioState) (now : ℕ) (tenant_id source_ip asset_id : String)
    (sc : AttackScenario) where
  open R use {Db}

  -- The last stage of CRED_SPREAD does not look at the age of the stored progress: its verdict is the same
  -- whatever the time at which that progress began.
  pub spread_ignores_age :
      (stage_idx : ℕ) (stage : ScenarioStage) (s : ScenarioState) (began : ℕ) (db : Db)
      → (spread R now tenant_id source_ip asset_id sc stage_idx stage s db).0
        ≡ (spread R now tenant_id source_ip asset_id sc stage_idx stage
            (record s { first_seen_at = began })
            db).0
  unfolding spread
  spread_ignores_age stage_idx stage s began db = ground arith
