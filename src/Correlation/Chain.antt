-- ===== src/Correlation/Chain.antt =====
-- backend/app/workers/correlation/attack_chain.py: named attack scenarios, their progress in Redis,
-- and the matcher. Confidence bonuses are thousandths. The worker's clock is the server's.
-- A list index out of range is `none`.
pub mod Scenarios
pub mod Seen
pub mod Sound
pub mod Window
pub mod Assets
pub mod Total
use infra_red.Prelude.{
  ℕ, zero, suc, ◌+◌, String, Bool, true, false, not, ◌&&◌, Option, none, some, List, [], ◌∷◌, ◌++◌,
  ltb, leb, ◌==◌, str_eq, contains, get_elem?, if◌then◌else◌,
}
use infra_red.Prelude.Format.{◌^^◌}
use infra_red.Redis.{Redis}

pub record ScenarioStage : Type 0 where
  pub name : String
  pub rule_ids : List String
  pub required : Bool
  pub min_distinct_assets : ℕ

pub record AttackScenario : Type 0 where
  pub id : String
  pub display_name : String
  pub window_seconds : ℕ
  pub auto_severity : String
  pub confidence_bonus : ℕ
  pub stages : List ScenarioStage

-- What is stored as JSON: the state that the matcher reads back.
pub record ScenarioState : Type 0 where
  pub completed_stages : List String
  pub first_seen_at : ℕ
  pub source_ip : String
  pub asset_id : String

-- backend/app/redis_kv/keys.py
unfoldable pub scenario_state : String → String → String → String
scenario_state scenario_id tenant_id source_ip =
    "scenario:" ^^ scenario_id ^^ ":" ^^ tenant_id ^^ ":" ^^ source_ip

unfoldable pub lateral_movement_assets : String → String → String
lateral_movement_assets tenant_id source_ip = "scenario:lateral:" ^^ tenant_id ^^ ":" ^^ source_ip

-- `assets_key` of `_process_cred_spread`
unfoldable pub cred_spread_assets : String → String → String
cred_spread_assets tenant_id source_ip =
    "scenario:cred_spread:" ^^ tenant_id ^^ ":" ^^ source_ip ^^ ":assets"

-- `_can_advance_to`, over the stages before the index
unfoldable pub can_advance : List ScenarioStage → ℕ → List String → Bool
can_advance stages zero completed = true
can_advance [] (suc i) completed = true
can_advance (s ∷ rest) (suc i) completed =
    let later = can_advance rest i completed in
    if s.required && not (contains completed s.name) then false else later

-- `_is_scenario_complete`
unfoldable pub is_complete : List ScenarioStage → List String → Bool
is_complete [] completed = true
is_complete (s ∷ rest) completed =
    let later = is_complete rest completed in
    if s.required && not (contains completed s.name) then false else later

-- What a signal adds to the completed stages.
unfoldable pub advance : AttackScenario → ScenarioStage → ℕ → List String → List String
advance scenario stage stage_idx completed =
    if contains completed stage.name
    then completed
    else if can_advance scenario.stages stage_idx completed
    then completed ++ stage.name ∷ []
    else completed

-- The progress that counts at `now`: none if there is none stored or if its window is over.
unfoldable pub progress : ℕ → ℕ → Option ScenarioState → List String × ℕ
progress window now none = ([], now)
progress window now (some s) =
    if ltb (s.first_seen_at + window) now then ([], now) else (s.completed_stages, s.first_seen_at)

module _ (R : Redis ScenarioState) where
  open R use {Db, get, set_ex, sadd, expire, scard}

  -- `_process_scenario_stage`
  unfoldable pub process_scenario_stage :
      ℕ → String → String → String → AttackScenario → ℕ → Db → Option (Bool × Db)
  unfolding advance progress
  process_scenario_stage now tenant_id source_ip asset_id scenario stage_idx db =
      let key = scenario_state scenario.id tenant_id source_ip in
      let (before, first_seen_at) = progress scenario.window_seconds now (get now key db) in
      elim (get_elem? scenario.stages stage_idx) [
        | none ↦ none
        | some stage ↦
            let completed = advance scenario stage stage_idx before in
            let state : ScenarioState = record {
              completed_stages = completed;
              first_seen_at = first_seen_at;
              source_ip = source_ip;
              asset_id = asset_id;
            } in
            some (
              is_complete scenario.stages completed,
              set_ex now key state scenario.window_seconds db,
            )
      ]

  -- the pipeline SADD, EXPIRE, SCARD
  unfoldable pub track_asset : ℕ → String → String → ℕ → Db → ℕ × Db
  track_asset now key asset_id window db =
      let db' = expire now key window (sadd now key asset_id db) in (scard now key db', db')

  -- `_process_lateral_movement`
  unfoldable pub process_lateral_movement :
      ℕ → String → String → String → AttackScenario → Db → Option (Bool × Db)
  process_lateral_movement now tenant_id source_ip asset_id scenario db =
      let (distinct_count, db') =
        track_asset now (lateral_movement_assets tenant_id source_ip) asset_id
          scenario.window_seconds db in
      elim (get_elem? scenario.stages 0) [
        | none ↦ none
        | some stage ↦ some (leb stage.min_distinct_assets distinct_count, db')
      ]

  -- the last stage of `_process_cred_spread`, once there is a state
  unfoldable pub spread :
      ℕ
      → String
      → String
      → String
      → AttackScenario
      → ℕ
      → ScenarioStage
      → ScenarioState
      → Db
      → Bool × Db
  spread now tenant_id source_ip asset_id scenario stage_idx stage s db =
      let (distinct_count, db') =
        track_asset now (cred_spread_assets tenant_id source_ip) asset_id scenario.window_seconds
          db in
      let completed =
        if contains s.completed_stages stage.name
        then s.completed_stages
        else s.completed_stages ++ stage.name ∷ [] in
      let state : ScenarioState = record {
        completed_stages = completed;
        first_seen_at = s.first_seen_at;
        source_ip = source_ip;
        asset_id = asset_id;
      } in
      if can_advance scenario.stages stage_idx s.completed_stages
      then (if leb stage.min_distinct_assets distinct_count
          then (
            is_complete scenario.stages completed,
            set_ex now (scenario_state scenario.id tenant_id source_ip) state
                scenario.window_seconds db',
          )
          else (false, db'))
      else (false, db)

  -- `_process_cred_spread`
  unfoldable pub process_cred_spread :
      ℕ → String → String → String → AttackScenario → ℕ → Db → Option (Bool × Db)
  process_cred_spread now tenant_id source_ip asset_id scenario stage_idx db =
      elim (get_elem? scenario.stages stage_idx) [
        | none ↦ none
        | some stage ↦ elim (stage_idx == 2) [
          | true ↦ elim (get now (scenario_state scenario.id tenant_id source_ip) db) [
            | none ↦ process_scenario_stage now tenant_id source_ip asset_id scenario stage_idx db
            | some s ↦ some (spread now tenant_id source_ip asset_id scenario stage_idx stage s db)
          ]
          | false ↦ process_scenario_stage now tenant_id source_ip asset_id scenario stage_idx db
        ]
      ]

  -- one turn of the loop of `process_signal`
  unfoldable pub process_match :
      ℕ → String → String → String → AttackScenario → ℕ → Db → Option (Bool × Db)
  process_match now tenant_id source_ip asset_id scenario stage_idx db =
      if str_eq scenario.id "LATERAL_MOVEMENT"
      then process_lateral_movement now tenant_id source_ip asset_id scenario db
      else if str_eq scenario.id "CRED_SPREAD"
      then process_cred_spread now tenant_id source_ip asset_id scenario stage_idx db
      else process_scenario_stage now tenant_id source_ip asset_id scenario stage_idx db

  -- The first scenario that is complete ends the loop.
  unfoldable pub process_matches :
      ℕ
      → String
      → String
      → String
      → List (AttackScenario × ℕ)
      → Db
      → Option (Option AttackScenario × ℕ × Db)
  process_matches now tenant_id source_ip asset_id [] db = some (none, 0, db)
  process_matches now tenant_id source_ip asset_id ((scenario, stage_idx) ∷ rest) db =
      elim (process_match now tenant_id source_ip asset_id scenario stage_idx db) [
        | none ↦ none
        | some (true, db') ↦ some (some scenario, scenario.confidence_bonus, db')
        | some (false, db') ↦ process_matches now tenant_id source_ip asset_id rest db'
      ]
