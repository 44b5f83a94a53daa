-- ===== src/Constants.antt =====
-- backend/app/common/constants.py: the shared enumerations.
use infra_red.Prelude.{String}

pub data Severity : Type 0 where
  critical high medium info : Severity

pub data Confidence : Type 0 where
  high medium low : Confidence

pub data Priority : Type 0 where
  urgent high normal low : Priority

pub data KillChainStage : Type 0 where
  reconnaissance credential_access initial_access execution : KillChainStage
  persistence privilege_escalation defense_evasion installation : KillChainStage
  command_and_control exfiltration impact actions_on_objectives : KillChainStage

pub data EventType : Type 0 where
  ssh_login_failed ssh_login_success ssh_invalid_user agent_heartbeat web_request : EventType
  fim_change suspicious_process_execution webshell_execution bulk_file_modification : EventType

pub data RuleId : Type 0 where
  auth_brute_force auth_root_login auth_invalid_user auth_failed_then_success : RuleId
  auth_suspicious_login auth_off_hours_login auth_foreign_ip_login : RuleId
  web_shell_access web_admin_scan web_automation web_404_burst : RuleId
  web_sql_injection web_path_traversal web_cve_probe web_honeypot : RuleId
  auth_cred_stuffing auth_password_spraying net_http_flood : RuleId
  deception_honeytoken_file deception_honeytoken_account : RuleId
  exec_tmp exec_webshell exec_bulk_mod : RuleId
  fim_authorized_keys fim_sshd_config fim_crontab fim_passwd fim_sudoers : RuleId

-- `.value` of a kill chain stage
unfoldable pub stage_value : KillChainStage → String
stage_value KillChainStage.reconnaissance = "Reconnaissance"
stage_value KillChainStage.credential_access = "Credential Access"
stage_value KillChainStage.initial_access = "Initial Access"
stage_value KillChainStage.execution = "Execution"
stage_value KillChainStage.persistence = "Persistence"
stage_value KillChainStage.privilege_escalation = "Privilege Escalation"
stage_value KillChainStage.defense_evasion = "Defense Evasion"
stage_value KillChainStage.installation = "Installation"
stage_value KillChainStage.command_and_control = "Command and Control"
stage_value KillChainStage.exfiltration = "Exfiltration"
stage_value KillChainStage.impact = "Impact"
stage_value KillChainStage.actions_on_objectives = "Actions on Objectives"

-- `.value` of a rule
unfoldable pub rule_value : RuleId → String
rule_value RuleId.auth_brute_force = "AUTH-001"
rule_value RuleId.auth_root_login = "AUTH-002"
rule_value RuleId.auth_invalid_user = "AUTH-003"
rule_value RuleId.auth_failed_then_success = "AUTH-004"
rule_value RuleId.auth_suspicious_login = "AUTH-005"
rule_value RuleId.auth_off_hours_login = "AUTH-006"
rule_value RuleId.auth_foreign_ip_login = "AUTH-007"
rule_value RuleId.web_shell_access = "WEB-001"
rule_value RuleId.web_admin_scan = "WEB-002"
rule_value RuleId.web_automation = "WEB-003"
rule_value RuleId.web_404_burst = "WEB-004"
rule_value RuleId.web_sql_injection = "WEB-005"
rule_value RuleId.web_path_traversal = "WEB-006"
rule_value RuleId.web_cve_probe = "WEB-007"
rule_value RuleId.web_honeypot = "WEB-HNY-001"
rule_value RuleId.auth_cred_stuffing = "AUTH-006A"
rule_value RuleId.auth_password_spraying = "AUTH-006B"
rule_value RuleId.net_http_flood = "NET-001"
rule_value RuleId.deception_honeytoken_file = "DECEPTION-001"
rule_value RuleId.deception_honeytoken_account = "DECEPTION-002"
rule_value RuleId.exec_tmp = "EXEC-001"
rule_value RuleId.exec_webshell = "EXEC-002"
rule_value RuleId.exec_bulk_mod = "EXEC-003"
rule_value RuleId.fim_authorized_keys = "FIM-001"
rule_value RuleId.fim_sshd_config = "FIM-002"
rule_value RuleId.fim_crontab = "FIM-003"
rule_value RuleId.fim_passwd = "FIM-004"
rule_value RuleId.fim_sudoers = "FIM-005"
