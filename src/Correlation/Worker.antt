-- ===== src/Correlation/Worker.antt =====
-- backend/app/workers/correlation/worker.py: `process_enriched`, from a signal and its enrichment to an
-- incident and a message to the LLM worker. The alert to Discord and the event to the browsers, which
-- may fail and are then logged, are left out. The keys of the kill chain and of the deduplication live
-- in one server, the scenarios of the matcher in another.
pub mod Track
pub mod Effects
pub mod Retry
use infra_red.Prelude.{
  ℕ, ◌*◌, String, Bool, true, false, not, ◌&&◌, Option, none, some, List, [], ◌∷◌, ◌++◌, ltb,
  contains, find, or_else, str_eq, map, if◌then◌else◌,
}
use infra_red.Prelude.Format.{◌^^◌, truthy, text_or, join}
use infra_red.Redis.{Redis}
use infra_red.Constants.{KillChainStage, stage_value, rule_value}
use infra_red.Detection.Confidence.{Evidence, Breakdown, calculate_detection_confidence}
use infra_red.Correlation.Builder.{Signal, CtiEnrichment, Extras, Incident, abuse, build_incident}
use infra_red.Correlation.Chain.{AttackScenario, ScenarioState}
use infra_red.Correlation.Chain.Scenarios.{process_signal}
use infra_red.Correlation.Store.{save_or_merge_incident}
use infra_red.Correlation.Tables.{Tables}

-- _STAGE_ORDER
abbrev pub stage_order : List (String × ℕ)
stage_order =
    ("Reconnaissance", 1)
    ∷ ("Credential Access", 2)
    ∷ ("Initial Access", 3)
    ∷ ("Execution", 4)
    ∷ ("Privilege Escalation", 5)
    ∷ ("Defense Evasion", 6)
    ∷ ("Exfiltration", 7)
    ∷ []

abbrev pub killchain_ttl_seconds : ℕ
killchain_ttl_seconds = 60 * 60

-- `_STAGE_ORDER.get(stage, 0)`
unfoldable pub order_of : String → ℕ
order_of stage = or_else (find stage stage_order) 0

-- the rank of what is stored
unfoldable pub previous_order : Option String → ℕ
previous_order previous = if truthy previous then order_of (text_or previous "") else 0

-- backend/app/redis_kv/keys.py
unfoldable pub killchain_stage : String → String → String → String
killchain_stage tenant_id asset_id source_ip =
    "tenant:" ^^ tenant_id ^^ ":killchain:" ^^ asset_id ^^ ":" ^^ source_ip

unfoldable pub incident_dedup : String → String → String → String → String → String
incident_dedup tenant_id rule_id asset_id ip username =
    "tenant:" ^^ tenant_id ^^ ":incident:dedup:" ^^ rule_id ^^ ":" ^^ asset_id ^^ ":" ^^ ip ^^ ":"
    ^^ username

-- the key of `_check_incident_dedup`
unfoldable pub dedup_key : Signal → String
dedup_key signal =
    incident_dedup signal.tenant_id (rule_value signal.rule_id) signal.asset_id
      (text_or signal.source_ip "no-ip") (text_or signal.username "no-user")

-- the fields of an entry of the stream incidents:new
pub record Message : Type 0 where
  pub incident_id : String
  pub tenant_id : String
  pub signal_ids : String
  pub event_type : String
  pub refresh : String

unfoldable pub message : String → Bool → Incident → Message
message incident_id created incident = record {
  incident_id = incident_id;
  tenant_id = incident.tenant_id;
  signal_ids = join "," incident.signal_ids;
  event_type = if created then "incident_created" else "incident_updated";
  refresh = if created then "false" else "true";
}

-- the id of the scenario that was completed
abbrev pub scenario_id_of : Option AttackScenario → Option String
scenario_id_of none = none
scenario_id_of (some s) = some s.id

-- the arguments of `calculate_detection_confidence`; those that are left out have their defaults
unfoldable pub confidence_evidence : Signal → CtiEnrichment → ℕ → Evidence
confidence_evidence signal cti correlation_bonus = record {
  rule_id = rule_value signal.rule_id;
  correlation_bonus = correlation_bonus;
  asset_type = none;
  environment = none;
  exposure = none;
  contains_sensitive_data = false;
  is_known_ip = true;
  cti_abuse_score = abuse cti;
  cti_is_known_malicious = contains cti.tags "malicious";
  cti_is_tor_exit = contains cti.tags "tor";
  in_allowlist = false;
  in_maintenance_window = false;
  matches_benign_pattern = false;
}

-- The clock, the settings, the cast to an address, whether the database answers, whether XADD to the stream
-- of incidents succeeds, and the day and the random tag of an id.
pub record Env : Type 0 where
  pub now : ℕ
  pub incident_dedup_ttl_seconds : ℕ
  pub merge_window : ℕ
  pub inet : String → Option String
  pub db_up : Bool
  pub publishes : Bool
  pub day : String
  pub tag : String

pub record State (K : Redis String) (C : Redis ScenarioState) : Type 0 where
  pub kv : K.Db
  pub chain : C.Db
  pub tables : Tables
  pub outbox : List Message

module _ (K : Redis String) where
  open K use {Db, get, set_ex}

  -- the stage that was advanced from, and the server
  unfoldable pub track_kill_chain : ℕ → Signal → Db → Option String × Db
  track_kill_chain now signal db = elim signal.kill_chain_stage [
    | none ↦ (none, db)
    | some stage ↦
        if truthy signal.source_ip
        then (let key =
              killchain_stage signal.tenant_id signal.asset_id (text_or signal.source_ip "") in
            let incoming = stage_value stage in
            let previous = get now key db in
            if ltb (previous_order previous) (order_of incoming)
            then (
              if truthy previous && not (str_eq (text_or previous "") incoming)
                  then previous
                  else none,
              set_ex now key incoming killchain_ttl_seconds db,
            )
            else (none, db))
        else (none, db)
  ]

  -- SET NX EX: is the signal new?
  unfoldable pub check_incident_dedup : ℕ → ℕ → Signal → Db → Bool × Db
  check_incident_dedup now ttl_seconds signal db = elim (get now (dedup_key signal) db) [
    | none ↦ (true, set_ex now (dedup_key signal) "1" ttl_seconds db)
    | some v ↦ (false, db)
  ]

module _ (K : Redis String) (C : Redis ScenarioState) where
  -- What a call gives: the id of the incident, if there is one, and whether it is new; none for a call
  -- that raises. The state is what the call leaves, also then.
  abbrev pub Result : Type 0
  Result = Option (Option String × Bool) × State K C

  -- The save is committed before XADD, which raises where it fails.
  unfoldable pub save_and_publish : Env → Incident → State K C → Result
  save_and_publish env incident st =
      if env.db_up
      then elim (save_or_merge_incident env.inet env.merge_window incident st.tables) [
        | none ↦ (none, st)
        | some (incident_id, created, tables) ↦
            if env.publishes
            then (
              some (some incident_id, created),
              record st {
                tables = tables;
                outbox = st.outbox ++ message incident_id created incident ∷ [];
              },
            )
            else (none, record st { tables = tables })
      ]
      else (none, st)

  -- after the matcher: grade the signal, and make the incident
  unfoldable pub correlate_matched :
      Env
      → Signal
      → CtiEnrichment
      → Option String
      → State K C
      → Option (Option AttackScenario × ℕ × C.Db)
      → Result
  correlate_matched env signal cti advanced_from st none = (none, st)
  correlate_matched env signal cti advanced_from st (some (matched, correlation_bonus, chain)) =
      let (detection_confidence, breakdown) =
        calculate_detection_confidence (confidence_evidence signal cti correlation_bonus) in
      let extras : Extras = record {
        now = env.now;
        day = env.day;
        tag = env.tag;
        advanced_from = advanced_from;
        detection_confidence = some detection_confidence;
        scenario_id = scenario_id_of matched;
        confidence_breakdown = some breakdown;
      } in
      save_and_publish env (build_incident signal cti extras) (record st { chain = chain })

  -- what follows for a signal that is new
  unfoldable pub correlate : Env → Signal → CtiEnrichment → Option String → State K C → Result
  correlate env signal cti advanced_from st = correlate_matched env signal cti advanced_from st (
      process_signal C env.now signal.tenant_id (rule_value signal.rule_id)
        (text_or signal.source_ip "no-ip") signal.asset_id st.chain)

  unfoldable pub process_enriched : Env → Signal → CtiEnrichment → State K C → Result
  process_enriched env signal cti st =
      let (advanced_from, kv) = track_kill_chain K env.now signal st.kv in
      if signal.escalate_to_incident
      then (let (is_new, kv') =
            check_incident_dedup K env.now env.incident_dedup_ttl_seconds signal kv in
          if is_new
          then correlate env signal cti advanced_from (record st { kv = kv' })
          else (some (none, false), record st { kv = kv' }))
      else (some (none, false), record st { kv = kv })
