-- ===== src/Detection/Login/Keys.antt =====
-- backend/app/redis_kv/keys.py: the keys of the rules on logins.
use infra_red.Prelude.{String}
use infra_red.Prelude.Format.{◌^^◌}

abbrev pub ns : String → String
ns tenant_id = "tenant:" ^^ tenant_id

unfoldable pub auth_fail_ip : String → String → String → String
auth_fail_ip tenant_id asset_id ip = ns tenant_id ^^ ":auth:fail:ip:" ^^ asset_id ^^ ":" ^^ ip

unfoldable pub auth_fail_user_ip : String → String → String → String → String
auth_fail_user_ip tenant_id asset_id username ip =
    ns tenant_id ^^ ":auth:fail:user_ip:" ^^ asset_id ^^ ":" ^^ username ^^ ":" ^^ ip

unfoldable pub auth_invalid_user : String → String → String → String
auth_invalid_user tenant_id asset_id ip = ns tenant_id ^^ ":auth:invalid:" ^^ asset_id ^^ ":" ^^ ip

unfoldable pub auth_known_ip : String → String → String → String
auth_known_ip tenant_id asset_id username =
    ns tenant_id ^^ ":auth:known_ip:" ^^ asset_id ^^ ":" ^^ username

unfoldable pub auth_stuffing_user_to_ips : String → String → String → String
auth_stuffing_user_to_ips tenant_id asset_id username =
    ns tenant_id ^^ ":auth:stuffing:user_to_ips:" ^^ asset_id ^^ ":" ^^ username

unfoldable pub auth_stuffing_ip_to_users : String → String → String → String
auth_stuffing_ip_to_users tenant_id asset_id source_ip =
    ns tenant_id ^^ ":auth:stuffing:ip_to_users:" ^^ asset_id ^^ ":" ^^ source_ip

-- `_prior_signal_key` of rules.py
unfoldable pub prior_signal_key : String → String → String → String → String
prior_signal_key tenant_id asset_id source_ip rule =
    "tenant:" ^^ tenant_id ^^ ":prior_signal:" ^^ asset_id ^^ ":" ^^ source_ip ^^ ":" ^^ rule
