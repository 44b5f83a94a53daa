-- ===== src/Response/Policy.antt =====
-- backend/app/autoresponse/engine.py: the policies of a tenant, their keys, and the matrix of version 3.
-- Confidence values are thousandths.
pub mod Matrix
use infra_red.Prelude.{
  ℕ, String, Bool, true, false, ◌&&◌, Option, none, some, List, [], ◌∷◌, leb, ltb, str_eq,
  if◌then◌else◌,
}
use infra_red.Prelude.Format.{◌^^◌}
use infra_red.Prelude.Case.{upper}

pub record SevPolicy : Type 0 where
  pub watchlist : Bool
  pub block_ip : Bool
  pub discord_notify : Bool

abbrev pub Policy : Type 0
Policy = List (String × SevPolicy)

abbrev pub no_policy : SevPolicy
no_policy = record { watchlist = false; block_ip = false; discord_notify = false }

abbrev pub default_policy : Policy
default_policy =
    ("critical", record { watchlist = true; block_ip = true; discord_notify = true })
    ∷ ("high", record { watchlist = true; block_ip = false; discord_notify = true })
    ∷ ("medium", record { watchlist = false; block_ip = false; discord_notify = true })
    ∷ ("info", no_policy)
    ∷ []

-- the row of tenant_settings
pub record Settings : Type 0 where
  pub response_mode : String
  pub auto_block_min_severity : String

-- `_get_tenant_settings`, after the query
unfoldable pub tenant_settings : Option Settings → Settings
tenant_settings (some row) = row
tenant_settings none = record { response_mode = "manual"; auto_block_min_severity = "critical" }

-- backend/app/redis_kv/keys.py
abbrev pub policy_key : String → String → String
policy_key name tenant_id = "tenant:" ^^ tenant_id ^^ name

abbrev pub policy_watchlist : String → String
policy_watchlist = policy_key ":policy:watchlist"

abbrev pub policy_denylist : String → String
policy_denylist = policy_key ":policy:deny"

abbrev pub policy_allowlist : String → String
policy_allowlist = policy_key ":policy:allow"

abbrev pub policy_autoresponse : String → String
policy_autoresponse = policy_key ":autoresponse:policy"

-- the dictionary that `_get_v3_action` returns; a key that is missing reads as None or False
pub record V3Action : Type 0 where
  pub action : String
  pub ttl_seconds : Option ℕ
  pub approval_required : Bool
  pub action_level : Option String

unfoldable pub get_v3_action : String → ℕ → Bool → V3Action
get_v3_action severity detection_confidence in_allowlist =
    if in_allowlist
    then record {
      action = "watchlist_only";
      ttl_seconds = none;
      approval_required = false;
      action_level = none;
    }
    else if str_eq (upper severity) "CRITICAL" && leb 850 detection_confidence
    then record {
      action = "iptables_block";
      ttl_seconds = some 1800;
      approval_required = false;
      action_level = some "iptables_block";
    }
    else if str_eq (upper severity) "CRITICAL" && ltb detection_confidence 850
    then record {
      action = "service_block_pending_approval";
      ttl_seconds = some 3600;
      approval_required = true;
      action_level = some "approval_iptables";
    }
    else if str_eq (upper severity) "HIGH"
    then record {
      action = "service_block";
      ttl_seconds = some 900;
      approval_required = false;
      action_level = some "service_block";
    }
    else record {
      action = "watchlist_notify";
      ttl_seconds = none;
      approval_required = false;
      action_level = some "watchlist";
    }
