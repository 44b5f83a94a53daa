-- ===== src/Tests/Chain.antt =====
-- Runs of backend/app/workers/correlation/attack_chain.py, over a server with nothing stored.
use infra_red.Prelude.{
  ℕ, ◌≡◌, ◌≢◌, refl, String, Bool, true, Option, none, some, List, [], ◌∷◌, arith,
}
use infra_red.Redis.{Redis}
use infra_red.Redis.Instance.{Server, server, nothing}
use infra_red.Correlation.Chain.{
  ScenarioState, ScenarioStage, scenario_state, cred_spread_assets, can_advance, is_complete,
  process_match, process_scenario_stage, track_asset, process_lateral_movement, spread,
}
use infra_red.Correlation.Chain.Scenarios.{
  ssh_account_compromise, privilege_escalation, lateral_movement, cred_spread, stage,
  rule_to_stages, process_signal,
}
use infra_red.Correlation.Chain.Seen.{Event}
use infra_red.Correlation.Chain.Sound
use infra_red.Correlation.Chain.Sound.{AllSeen}
use infra_red.Correlation.Chain.Assets
use infra_red.Correlation.Chain.Assets.{Visit, visit_all}
use infra_red.Correlation.Chain.Total
use infra_red.Correlation.Chain.Total.{Fits}

abbrev redis : Redis ScenarioState
redis = server ScenarioState

abbrev Db : Type 0
Db = Server ScenarioState

abbrev at : ℕ → ℕ → Event
at time stage_idx = record { time = time; stage_idx = stage_idx; asset_id = "web" }

abbrev db_of : Option Db → Db
db_of none = nothing
db_of (some db) = db

abbrev db_after : Option (Bool × Db) → Db
db_after none = nothing
db_after (some (_, db)) = db

abbrev earlier : List Event
earlier = at 200 1 ∷ at 100 0 ∷ []

abbrev replayed : Db
replayed = db_of (Sound.replay redis "t" "9.9.9.9" ssh_account_compromise earlier nothing)

abbrev finished : Option (Bool × Db)
finished = process_match redis 300 "t" "9.9.9.9" "web" ssh_account_compromise 2 replayed

complete_sound_example :
    AllSeen ssh_account_compromise.stages 300 600 (at 300 2 ∷ earlier) ssh_account_compromise.stages
unfolding process_match process_scenario_stage Sound.replay is_complete can_advance scenario_state
complete_sound_example =
    Sound.complete_sound redis "t" "9.9.9.9" ssh_account_compromise refl refl (at 300 2) earlier
      nothing replayed (db_after finished) (λ t. refl) (omega arith) refl refl

-- the three stages, in order, are a compromise
compromise_found : finished ≡ some (true, db_after finished)
unfolding process_match process_scenario_stage Sound.replay is_complete can_advance scenario_state
compromise_found = refl

abbrev stale : ScenarioState
stale = record {
  completed_stages = "initial_auth_attempt" ∷ "successful_auth" ∷ [];
  first_seen_at = 100;
  source_ip = "9.9.9.9";
  asset_id = "web";
}

abbrev held_key : String
held_key = "scenario:SSH_ACCOUNT_COMPROMISE_WITH_PERSISTENCE:t:9.9.9.9"

abbrev holding : Db
holding = record nothing { values = λ k. some (stale, 2000) }

-- a chain that began more than an hour ago, and three assets
abbrev old_chain : ScenarioState
old_chain = record stale { completed_stages = "초기 자격증명 침해" ∷ "자격증명 덤프" ∷ []; first_seen_at = 0 }

abbrev last_stage : ScenarioStage
last_stage = stage "횡이동" ("AUTH-004" ∷ []) true 3

abbrev three_assets : Db
three_assets = record nothing {
  sets = λ k. record { items = "a" ∷ "b" ∷ "c" ∷ []; end = some 10000 };
}

-- it is complete, two and a half hours after its first signal
old_chain_completes :
    (spread redis 9000 "t" "9.9.9.9" "c" cred_spread 2 last_stage old_chain three_assets).0 ≡ true
unfolding spread track_asset can_advance is_complete cred_spread_assets
old_chain_completes = refl

abbrev on : ℕ → String → Visit
on time asset = record { time = time; asset = asset }

abbrev visits : List Visit
visits = on 200 "b" ∷ on 150 "a" ∷ on 100 "a" ∷ []

lateral_movement_lem_example :
    (db' : Db) × (process_lateral_movement redis 300 "t" "9.9.9.9" "c" lateral_movement
        (visit_all redis (Assets.key redis "t" "9.9.9.9" lateral_movement) 600 visits nothing)
      ≡ some (true, db'))
lateral_movement_lem_example =
    Assets.lateral_movement_lem redis "t" "9.9.9.9" lateral_movement
      (stage "multi_asset_auth" ("AUTH-004" ∷ []) true 3) (on 300 "c") visits nothing refl
      (omega arith) (omega arith) (λ t. refl) (λ t m. refl)

process_signal_returns_example :
    process_signal redis 5 "t" "AUTH-004" "9.9.9.9" "web" nothing ≢ none
process_signal_returns_example =
    Total.process_signal_returns redis 5 "t" "9.9.9.9" "web" "AUTH-004" nothing

-- the four scenarios that a login after failures belongs to
auth_004_scenarios :
    rule_to_stages "AUTH-004"
    ≡ (ssh_account_compromise, 1)
      ∷ (privilege_escalation, 0)
      ∷ (lateral_movement, 0)
      ∷ (cred_spread, 2)
      ∷ []
unfolding rule_to_stages
auth_004_scenarios = refl
