-- ===== src/Tests/Response.antt =====
-- Runs of backend/app/autoresponse.
use infra_red.Prelude.{◌≡◌, ◌⊎◌, refl, String, true, false, Option, none, some, [], ◌∷◌}
use infra_red.Prelude.All.{any}
use infra_red.Prelude.Format.{join}
use infra_red.Prelude.Case.{lower, is_in}
use infra_red.Redis.{Redis}
use infra_red.Redis.Instance.{server, nothing}
use infra_red.Response.Actions.{
  should_auto_execute, should_queue_approval, advice_of, build_actions_from_llm,
}
use infra_red.Response.Address.{Addr, v4, is_safe_addr, is_safe_ip, is_loopback, in_network}
use infra_red.Response.Engine.{
  Request, is_safe, run_autoresponse, load_autoresponse_policy, v3_step, watchlist_step, block_step,
  perform_all, perform,
}
use infra_red.Response.Policy.{Policy, tenant_settings}
use infra_red.Response.Engine.Guard.{denied, allowed, denied_guarded}
use infra_red.Response.Engine.Bypass.{is_block_of, auto_blocks_any_address}

abbrev redis : Redis (Option Policy)
redis = server (Option Policy)

-- a parser that knows two texts
abbrev parse : String → Option Addr
parse s = elim (is_in "127.0.0.1" s) [ true ↦ some (v4 2130706433) | false ↦ some (v4 151587081) ]

abbrev attack : Request
attack = record {
  now = 100;
  tenant_id = "t";
  asset_id = "web";
  incident_id = "INC-1";
  severity = "CRITICAL";
  recommended_actions = "Block the source address" ∷ [];
  source_ip = some "9.9.9.9";
  username = some "deploy";
  detection_confidence = none;
  settings_row = some (record { response_mode = "auto"; auto_block_min_severity = "high" });
}

abbrev from_loopback : Request
from_loopback = record attack { source_ip = some "127.0.0.1" }

program : Unit {0}
unfolding run_autoresponse v3_step watchlist_step block_step perform perform_all
    load_autoresponse_policy tenant_settings is_safe_ip is_safe_addr is_loopback in_network
    build_actions_from_llm advice_of lower join is_in should_auto_execute should_queue_approval
program = tt

attack-denied :
    denied redis parse [] attack "9.9.9.9" (run_autoresponse redis parse [] attack nothing).db
    ≡ true
unfolding program
attack-denied = refl

attack_taken :
    (run_autoresponse redis parse [] attack nothing).actions_taken
    ≡ "watchlist" ∷ "block_ip" ∷ "block_ip" ∷ "lock_account" ∷ []
unfolding program
attack_taken = refl

denied_guarded_example :
    (denied redis parse [] attack "9.9.9.9" nothing ≡ true)
    ⊎ ((◌≡◌ {A = String} "9.9.9.9" "9.9.9.9")
        × (is_safe redis parse [] (some "9.9.9.9") ≡ false)
        × (allowed redis parse [] attack nothing ≡ false))
denied_guarded_example = denied_guarded redis parse [] attack nothing "9.9.9.9" attack-denied

auto_blocks_any_address_example :
    any (is_block_of "127.0.0.1") (run_autoresponse redis parse [] from_loopback nothing).commands
    ≡ true
unfolding program
auto_blocks_any_address_example =
    auto_blocks_any_address redis parse [] from_loopback nothing refl refl refl

loopback_is_safe : is_safe redis parse [] from_loopback.source_ip ≡ true
unfolding program
loopback_is_safe = refl
