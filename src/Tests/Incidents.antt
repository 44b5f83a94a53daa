-- ===== src/Tests/Incidents.antt =====
-- Runs of the correlation worker over backend/app/db/repositories.py.
use infra_red.Prelude.{
  length, ℕ, ◌≡◌, refl, String, Bool, true, false, Option, none, some, [], ◌∷◌, or_else, arith,
}
use infra_red.Redis.{Redis}
use infra_red.Redis.Instance.{server, nothing}
use infra_red.Constants.{RuleId, KillChainStage, stage_value, rule_value}
use infra_red.Correlation.Builder.{Signal, CtiEnrichment, Incident, Extras, build_incident}
use infra_red.Correlation.Chain.{
  ScenarioState, process_matches, process_match, process_cred_spread, process_scenario_stage,
  is_complete, advance, can_advance, progress, scenario_state,
}
use infra_red.Correlation.Chain.Scenarios.{process_signal, rule_to_stages}
use infra_red.Correlation.Merge.{no_cti, incident_anchor_time}
use infra_red.Correlation.Store.{
  source_of, save_or_merge_incident, save_from, correlated, latest, is_candidate, is_active,
  same_source, has_evidence,
}
use infra_red.Correlation.Tables.{Row, Exhibit, Tables, insert_incident_evidence}
use infra_red.Correlation.Store.Keeps.{Keeps, Keyed}
use infra_red.Correlation.Store.Save.{save-Keeps}
use infra_red.Correlation.Store.Filed.{Filed}
use infra_red.Correlation.Store.Evidence.{transition_lost}
use infra_red.Correlation.Worker.{
  Env, State, Result, killchain_stage, order_of, previous_order, track_kill_chain, process_enriched,
  check_incident_dedup, dedup_key, incident_dedup, correlate, correlate_matched, save_and_publish,
}
use infra_red.Correlation.Worker.Track
use infra_red.Correlation.Worker.Effects.{Consistent, process-Consistent}
use infra_red.Pipeline.Dlq.{Fields, Queue, reclaim_one}
use infra_red.Pipeline.Dlq.Lost.{handle, Kept, signal_lost}

abbrev counters : Redis ℕ
counters = server ℕ

abbrev texts : Redis String
texts = server String

abbrev states : Redis ScenarioState
states = server ScenarioState

abbrev brute_force : Signal
brute_force = record {
  signal_id = "sig-1";
  tenant_id = "t";
  asset_id = "web";
  rule_id = RuleId.auth_brute_force;
  rule_name = "SSH brute force";
  mitre_tactic = some "Credential Access";
  mitre_technique = some "T1110";
  kill_chain_stage = some KillChainStage.credential_access;
  source_ip = some "9.9.9.9";
  username = some "root";
  user_agent = none;
  detected_count = 9;
  detected_at = 1000;
  escalate_to_incident = true;
}

abbrev env : Env
env = record {
  now = 1000;
  incident_dedup_ttl_seconds = 600;
  merge_window = 7200;
  inet = some;
  db_up = true;
  publishes = true;
  day = "20260101";
  tag = "AB12";
}

abbrev down : Env
down = record env { db_up = false }

-- XADD fails
abbrev unsent : Env
unsent = record env { publishes = false }

abbrev later : Env
later = record env { now = 1060 }

abbrev empty : Tables
empty = record { incidents = []; evidence = [] }

abbrev start : State texts states
start = record { kv = nothing; chain = nothing; tables = empty; outbox = [] }

abbrev extras : Extras
extras = record {
  now = 1000;
  day = "20260101";
  tag = "AB12";
  advanced_from = some "Reconnaissance";
  detection_confidence = none;
  scenario_id = none;
  confidence_breakdown = none;
}

abbrev incident : Incident
incident = build_incident brute_force no_cti extras

abbrev old_row : Row
old_row = record {
  incident_id = "INC-1";
  tenant_id = "t";
  asset_id = "web";
  severity = "medium";
  confidence = "low";
  priority = "normal";
  kill_chain_stage = "Reconnaissance";
  mitre_tactic = some "Reconnaissance";
  mitre_technique = some "T1595";
  cti_enrichment = none;
  source_ip = some "9.9.9.9";
  username = some "admin";
  signal_ids = "sig-0" ∷ [];
  status = "open";
  created_at = 900;
  updated_at = 900;
}

abbrev old_evidence : Exhibit
old_evidence = record {
  incident_id = "INC-1";
  tenant_id = "t";
  timestamp = 900;
  description = "scan";
  signal_id = some "sig-0";
  rule_id = some "AUTH-003";
}

abbrev active : Tables
active = record { incidents = old_row ∷ []; evidence = old_evidence ∷ [] }

abbrev saved : String × Bool × Tables
saved = or_else (save_or_merge_incident some 7200 incident active) ("", true, empty)

save-Keeps_example : Keyed saved.2.incidents × Keeps active.incidents saved.2.incidents
unfolding save_or_merge_incident build_incident source_of save_from correlated latest is_candidate
    is_active same_source has_evidence incident_anchor_time
save-Keeps_example = save-Keeps some 7200 incident active saved (refl, tt) refl

transition_lost_example :
    insert_incident_evidence incident "INC-1" []
    ≡ insert_incident_evidence
        (build_incident brute_force no_cti (record extras { advanced_from = none }))
        "INC-1"
        []
transition_lost_example = transition_lost brute_force no_cti extras "INC-1" [] refl

abbrev scanned : State texts states
scanned = record start {
  kv = texts.set_ex 900 "tenant:t:killchain:web:9.9.9.9" "Reconnaissance" 3600 nothing;
}

abbrev chain_key : String
chain_key = Track.key texts 1000 brute_force "9.9.9.9" KillChainStage.credential_access

-- the signal advances the kill chain of its source
advanced : (track_kill_chain texts 1000 brute_force scanned.kv).0 ≡ some "Reconnaissance"
unfolding track_kill_chain previous_order killchain_stage order_of stage_value
advanced = refl

process-Consistent_example :
    Consistent texts states env brute_force no_cti start
      (process_enriched texts states env brute_force no_cti start)
process-Consistent_example = process-Consistent texts states env brute_force no_cti start

abbrev failed : Result texts states
failed = process_enriched texts states down brute_force no_cti start

failed_raises : failed.0 ≡ none
unfolding process_enriched check_incident_dedup track_kill_chain previous_order order_of stage_value
    dedup_key incident_dedup rule_value killchain_stage correlate correlate_matched process_signal
    process_matches rule_to_stages process_match process_scenario_stage is_complete save_and_publish
    advance can_advance progress scenario_state process_cred_spread
failed_raises = refl

-- the call raises, and the incident is there
unsent_saved :
    ((process_enriched texts states unsent brute_force no_cti start).0 ≡ none)
    × (length (process_enriched texts states unsent brute_force no_cti start).1.tables.incidents
        ≡ 1)
    × ((process_enriched texts states unsent brute_force no_cti start).1.outbox ≡ [])
unfolding process_enriched check_incident_dedup track_kill_chain previous_order order_of stage_value
    dedup_key incident_dedup rule_value killchain_stage correlate correlate_matched process_signal
    process_matches rule_to_stages process_match process_scenario_stage is_complete save_and_publish
    advance can_advance progress scenario_state process_cred_spread save_or_merge_incident
    build_incident source_of save_from correlated latest infra_red.Correlation.Store.insert_or_raise
    infra_red.Correlation.Store.insert_incident
unsent_saved = (refl, refl, refl)

abbrev parse : Fields → Option (Signal × CtiEnrichment)
parse fields = some (brute_force, no_cti)

abbrev queue : Queue counters (State texts states)
queue = record { world = start; kv = nothing; acked = []; dead = []; trims = λ letters. 0 }

abbrev reclaimed : Queue counters (State texts states)
reclaimed =
    reclaim_one counters (State texts states) (handle counters texts states parse later) 1060
      "correlation" 3 "1-0" [] (record queue { world = failed.1 })

signal_lost_example :
    (reclaimed.acked ≡ "1-0" ∷ [])
    × (reclaimed.dead ≡ [])
    × Kept counters texts states parse down brute_force no_cti start reclaimed.world.tables
    × (reclaimed.world.outbox ≡ [])
signal_lost_example =
    signal_lost counters texts states parse down later "correlation" 3 "1-0" [] brute_force no_cti
      start queue refl failed_raises (omega arith) (omega arith)
