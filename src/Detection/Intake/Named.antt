-- ===== src/Detection/Intake/Named.antt =====
-- Events that agents have classified become signals of the rule that they name.
use infra_red.Prelude.{◌≡◌, refl, String, Bool, true, some, List, [], ◌∷◌, map}
use infra_red.Prelude.Format.{truthy}
use infra_red.Constants.{RuleId, rule_value}
use infra_red.Detection.Intake.{Envelope}
use infra_red.Detection.Intake.AgentRules.{
  AgentSignal, agent_signal, rule_id_of, evaluate_agent_event,
}

-- reading the value of a rule gives the rule
rule_id_of-rule_value : (r : RuleId) → rule_id_of (rule_value r) ≡ some r
unfolding rule_id_of rule_value
rule_id_of-rule_value RuleId.auth_brute_force = refl
rule_id_of-rule_value RuleId.auth_root_login = refl
rule_id_of-rule_value RuleId.auth_invalid_user = refl
rule_id_of-rule_value RuleId.auth_failed_then_success = refl
rule_id_of-rule_value RuleId.auth_suspicious_login = refl
rule_id_of-rule_value RuleId.auth_off_hours_login = refl
rule_id_of-rule_value RuleId.auth_foreign_ip_login = refl
rule_id_of-rule_value RuleId.web_shell_access = refl
rule_id_of-rule_value RuleId.web_admin_scan = refl
rule_id_of-rule_value RuleId.web_automation = refl
rule_id_of-rule_value RuleId.web_404_burst = refl
rule_id_of-rule_value RuleId.web_sql_injection = refl
rule_id_of-rule_value RuleId.web_path_traversal = refl
rule_id_of-rule_value RuleId.web_cve_probe = refl
rule_id_of-rule_value RuleId.web_honeypot = refl
rule_id_of-rule_value RuleId.auth_cred_stuffing = refl
rule_id_of-rule_value RuleId.auth_password_spraying = refl
rule_id_of-rule_value RuleId.net_http_flood = refl
rule_id_of-rule_value RuleId.deception_honeytoken_file = refl
rule_id_of-rule_value RuleId.deception_honeytoken_account = refl
rule_id_of-rule_value RuleId.exec_tmp = refl
rule_id_of-rule_value RuleId.exec_webshell = refl
rule_id_of-rule_value RuleId.exec_bulk_mod = refl
rule_id_of-rule_value RuleId.fim_authorized_keys = refl
rule_id_of-rule_value RuleId.fim_sshd_config = refl
rule_id_of-rule_value RuleId.fim_crontab = refl
rule_id_of-rule_value RuleId.fim_passwd = refl
rule_id_of-rule_value RuleId.fim_sudoers = refl

named : (r : RuleId) → truthy (some (rule_value r)) ≡ true
unfolding rule_value
named RuleId.auth_brute_force = refl
named RuleId.auth_root_login = refl
named RuleId.auth_invalid_user = refl
named RuleId.auth_failed_then_success = refl
named RuleId.auth_suspicious_login = refl
named RuleId.auth_off_hours_login = refl
named RuleId.auth_foreign_ip_login = refl
named RuleId.web_shell_access = refl
named RuleId.web_admin_scan = refl
named RuleId.web_automation = refl
named RuleId.web_404_burst = refl
named RuleId.web_sql_injection = refl
named RuleId.web_path_traversal = refl
named RuleId.web_cve_probe = refl
named RuleId.web_honeypot = refl
named RuleId.auth_cred_stuffing = refl
named RuleId.auth_password_spraying = refl
named RuleId.net_http_flood = refl
named RuleId.deception_honeytoken_file = refl
named RuleId.deception_honeytoken_account = refl
named RuleId.exec_tmp = refl
named RuleId.exec_webshell = refl
named RuleId.exec_bulk_mod = refl
named RuleId.fim_authorized_keys = refl
named RuleId.fim_sshd_config = refl
named RuleId.fim_crontab = refl
named RuleId.fim_passwd = refl
named RuleId.fim_sudoers = refl

abbrev pub verdict : AgentSignal → RuleId × Bool × List String
verdict s = (s.rule_id, s.escalate_to_incident, s.triggering_event_ids)

-- An event of an agent that names any rule of the system by its value gives exactly one signal: of that
-- rule, an incident, and for that event.
pub agent_event_lem :
    (envelope : Envelope) (r : RuleId)
    → envelope.rule_id ≡ some (rule_value r)
    → map verdict (evaluate_agent_event envelope) ≡ (r, true, envelope.event_id ∷ []) ∷ []
unfolding evaluate_agent_event agent_signal
agent_event_lem envelope r e = rw (evaluate_agent_event, e, named r, rule_id_of-rule_value r) refl
