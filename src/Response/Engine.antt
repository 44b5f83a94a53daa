-- ===== src/Response/Engine.antt =====
-- backend/app/autoresponse/engine.py: the policy-based response to an incident.
-- The policy is the JSON value that Redis holds (`none`: a text that is no JSON). Confidence values are
-- thousandths. What is sent to the agents, queued for approval and logged is recorded in order.
pub mod Guard
pub mod Bypass
use infra_red.Prelude.{
  ℕ, ◌+◌, String, Bool, true, false, not, ◌&&◌, Option, none, some, List, [], ◌∷◌, ◌++◌, leb, ltb,
  str_eq, find, or_else, contains, if◌then◌else◌,
}
use infra_red.Prelude.Format.{◌^^◌, truthy, text_or}
use infra_red.Prelude.Case.{lower, upper}
use infra_red.Redis.{Redis}
use infra_red.Response.Actions.{
  Action, ActionType, PayloadValue, text, number, should_auto_execute, should_queue_approval,
  build_actions_from_llm,
}
use infra_red.Response.Policy.{
  Policy, Settings, SevPolicy, V3Action, default_policy, get_v3_action, no_policy, policy_allowlist,
  policy_autoresponse, policy_denylist, policy_watchlist, tenant_settings,
}
use infra_red.Response.Address.{Addr, Network, is_safe_ip}

-- `.value` of an action type
unfoldable pub action_value : ActionType → String
action_value ActionType.block_ip = "block_ip"
action_value ActionType.lock_account = "lock_account"
action_value ActionType.escalate = "escalate"
action_value ActionType.notify = "notify"
action_value ActionType.isolate_server = "isolate_server"
action_value ActionType.kill_process = "kill_process"
action_value ActionType.collect_forensics = "collect_forensics"
action_value ActionType.restore_file = "restore_file"
action_value ActionType.container_isolate = "container_isolate"
action_value ActionType.container_unisolate = "container_unisolate"

-- The arguments, and what the lookups outside Redis return.
pub record Request : Type 0 where
  pub now : ℕ
  pub tenant_id : String
  pub asset_id : String
  pub incident_id : String
  pub severity : String
  pub recommended_actions : List String
  pub source_ip : Option String
  pub username : Option String
  pub detection_confidence : Option ℕ
  pub settings_row : Option Settings

abbrev pub sev_lower : Request → String
sev_lower q = lower q.severity

-- The state of a run: the server, and what has been done so far.
pub record Run (D : Type 0) : Type 0 where
  pub db : D
  pub commands : List Action
  pub pending : List Action
  pub actions_taken : List String
  pub actions_queued : List String
  pub actions_notified : List String

module _ {D : Type 0} where
  abbrev pub take : String → Run D → Run D
  take name r = record r { actions_taken = r.actions_taken ++ name ∷ [] }

  abbrev pub notify : String → Run D → Run D
  notify name r = record r { actions_notified = r.actions_notified ++ name ∷ [] }

  -- `_push_agent_command`, to the queue of the asset
  abbrev pub push_agent_command : Action → Run D → Run D
  push_agent_command a r = record r { commands = r.commands ++ a ∷ [] }

  -- `_save_pending_action`
  abbrev pub save_pending_action : Action → String → Run D → Run D
  save_pending_action a name r = record r {
    pending = r.pending ++ a ∷ [];
    actions_queued = r.actions_queued ++ name ∷ [];
  }

  -- one turn of the loop over the actions of the model's advice
  unfoldable pub perform : Settings → String → Action → Run D → Run D
  unfolding action_value
  perform settings severity a r =
      let name = action_value a.action_type in
      elim a.action_type [
        | ActionType.notify ↦ notify name r
        | _ ↦
            if should_auto_execute settings.response_mode severity settings.auto_block_min_severity
            then take name (push_agent_command a r)
            else if should_queue_approval settings.response_mode severity
                settings.auto_block_min_severity
            then save_pending_action a name r
            else notify name r
      ]

  unfoldable pub perform_all : Settings → String → List Action → Run D → Run D
  perform_all settings severity [] r = r
  perform_all settings severity (a ∷ rest) r =
      perform_all settings severity rest (perform settings severity a r)

module _ (R : Redis (Option Policy)) (ip_address : String → Option Addr)
    (demo_nets : List Network) where
  open R use {Db, get, sismember, sadd}

  -- `_load_autoresponse_policy`
  unfoldable pub load_autoresponse_policy : ℕ → String → Db → Policy
  load_autoresponse_policy now tenant_id db = elim (get now (policy_autoresponse tenant_id) db) [
    | none ↦ default_policy
    | some none ↦ default_policy
    | some (some p) ↦ p
  ]

  abbrev pub is_safe : Option String → Bool
  is_safe = is_safe_ip ip_address demo_nets

  -- `_is_in_allowlist`
  abbrev pub is_in_allowlist : ℕ → String → String → Db → Bool
  is_in_allowlist now tenant_id ip db = sismember now (policy_allowlist tenant_id) ip db

  -- `_watchlist_add`, and the name of the action taken
  abbrev pub watch : Request → String → String → Run Db → Run Db
  watch q ip name r =
      take name (record r { db = sadd q.now (policy_watchlist q.tenant_id) ip r.db })

  -- `_denylist_add`: the name tells whether the address was there already
  abbrev pub deny : Request → String → String → Run Db → Run Db
  deny q ip name r =
      let there = sismember q.now (policy_denylist q.tenant_id) ip r.db in
      take (if there then name ^^ "_already_blocked" else name)
        (record r { db = sadd q.now (policy_denylist q.tenant_id) ip r.db })

  block_command : Request → String → Option ℕ → Action
  block_command q ip ttl = record {
    action_type = ActionType.block_ip;
    target = ip;
    payload =
        ("ip", text ip) ∷ ("incident_id", text q.incident_id) ∷ ("ttl_seconds", number ttl) ∷ [];
  }

  -- the tests on `v3_action`
  unfoldable pub apply_v3 : Request → String → V3Action → Run Db → Run Db
  unfolding block_command
  apply_v3 q ip v r =
      if str_eq v.action "iptables_block"
      then take "v3_iptables_block" (push_agent_command (block_command q ip v.ttl_seconds) r)
      else if str_eq v.action "service_block_pending_approval"
      then save_pending_action (block_command q ip v.ttl_seconds) "v3_approval_iptables" r
      else if str_eq v.action "service_block"
      then deny q ip "v3_service_block" r
      else if contains ("watchlist_only" ∷ "watchlist_notify" ∷ []) v.action
      then watch q ip "v3_watchlist" r
      else r

  -- the action of the matrix, if there is a confidence and an address that is not safe
  unfoldable pub v3_policy : Request → Db → Option V3Action
  v3_policy q db = elim q.detection_confidence [
    | none ↦ none
    | some c ↦
        if truthy q.source_ip && not (is_safe q.source_ip)
        then some (
            get_v3_action (sev_lower q) c
              (is_in_allowlist q.now q.tenant_id (text_or q.source_ip "") db))
        else none
  ]

  unfoldable pub v3_step : Request → Run Db → Run Db
  unfolding v3_policy
  v3_step q r = elim (v3_policy q r.db) [
    | none ↦ r
    | some v ↦ apply_v3 q (text_or q.source_ip "") v r
  ]

  -- May the address be put on a list?
  abbrev pub may_list : Request → Db → Bool
  may_list q db =
      not (is_safe q.source_ip)
      && not (is_in_allowlist q.now q.tenant_id (text_or q.source_ip "") db)

  unfoldable pub watchlist_step : Request → SevPolicy → Run Db → Run Db
  watchlist_step q p r =
      if p.watchlist && truthy q.source_ip && may_list q r.db
      then watch q (text_or q.source_ip "") "watchlist" r
      else r

  unfoldable pub block_step : Request → SevPolicy → Run Db → Run Db
  block_step q p r =
      if p.block_ip && truthy q.source_ip && may_list q r.db
      then deny q (text_or q.source_ip "") "block_ip" r
      else r

  abbrev pub start : Db → Run Db
  start db = record {
    db = db;
    commands = [];
    pending = [];
    actions_taken = [];
    actions_queued = [];
    actions_notified = [];
  }

  unfoldable pub run_autoresponse : Request → Db → Run Db
  run_autoresponse q db =
      let p =
        or_else (find (sev_lower q) (load_autoresponse_policy q.now q.tenant_id db)) no_policy in
      let settings = tenant_settings q.settings_row in
      let r1 = v3_step q (start db) in
      let r2 = block_step q p (watchlist_step q p r1) in
      let r3 = if p.discord_notify then notify "discord_notify" r2 else r2 in
      perform_all settings (sev_lower q)
        (build_actions_from_llm q.incident_id q.source_ip q.username q.recommended_actions) r3
