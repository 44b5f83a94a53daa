-- ===== src/Detection/Intake/AgentRules.antt =====
-- backend/app/workers/detection/agent_event_rules.py: events that agents have classified.
use infra_red.Prelude.{ℕ, String, Bool, true, Option, none, some, List, [], ◌∷◌, if◌then◌else◌}
use infra_red.Prelude.Format.{◌^^◌, join, truthy, or_empty}
use infra_red.Prelude.Dict.{entry_of}
use infra_red.Constants.{KillChainStage, RuleId, rule_value}
use infra_red.Detection.Intake.{Envelope, with_value}

pub record AgentMeta : Type 0 where
  pub name : String
  pub mitre_tactic : String
  pub mitre_technique : String
  pub kill_chain_stage : KillChainStage

abbrev agent_meta : String → String → String → KillChainStage → AgentMeta
agent_meta name tactic technique stage = record {
  name = name;
  mitre_tactic = tactic;
  mitre_technique = technique;
  kill_chain_stage = stage;
}

-- `_RULE_META`
abbrev pub agent_rule_meta : List (String × AgentMeta)
agent_rule_meta =
    (
      "FIM-001",
      agent_meta "/root/.ssh/authorized_keys 변조" "Persistence" "T1098.004"
          KillChainStage.installation,
    )
    ∷ (
      "FIM-002",
      agent_meta "sshd_config 변조" "Defense Evasion" "T1562.004" KillChainStage.installation,
    )
    ∷ (
      "FIM-003",
      agent_meta "/etc/crontab 변조" "Persistence" "T1053.003" KillChainStage.installation,
    )
    ∷ ("FIM-004", agent_meta "/etc/passwd 변조" "Persistence" "T1136.001" KillChainStage.installation)
    ∷ (
      "FIM-005",
      agent_meta "/etc/sudoers 변조" "Privilege Escalation" "T1548.003"
          KillChainStage.privilege_escalation,
    )
    ∷ ("EXEC-001", agent_meta "/tmp 계열에서 실행 중인 프로세스" "Execution" "T1059" KillChainStage.execution)
    ∷ (
      "EXEC-002",
      agent_meta "웹서버 child process가 shell" "Initial Access" "T1505.003"
          KillChainStage.installation,
    )
    ∷ (
      "EXEC-003",
      agent_meta "대량 파일 변경 (랜섬웨어 의심)" "Impact" "T1486" KillChainStage.actions_on_objectives,
    )
    ∷ []

abbrev pub rule_ids : List RuleId
rule_ids =
    RuleId.auth_brute_force ∷ RuleId.auth_root_login ∷ RuleId.auth_invalid_user
    ∷ RuleId.auth_failed_then_success ∷ RuleId.auth_suspicious_login ∷ RuleId.auth_off_hours_login
    ∷ RuleId.auth_foreign_ip_login ∷ RuleId.web_shell_access ∷ RuleId.web_admin_scan
    ∷ RuleId.web_automation ∷ RuleId.web_404_burst ∷ RuleId.web_sql_injection
    ∷ RuleId.web_path_traversal ∷ RuleId.web_cve_probe ∷ RuleId.web_honeypot
    ∷ RuleId.auth_cred_stuffing ∷ RuleId.auth_password_spraying ∷ RuleId.net_http_flood
    ∷ RuleId.deception_honeytoken_file ∷ RuleId.deception_honeytoken_account ∷ RuleId.exec_tmp
    ∷ RuleId.exec_webshell ∷ RuleId.exec_bulk_mod ∷ RuleId.fim_authorized_keys
    ∷ RuleId.fim_sshd_config ∷ RuleId.fim_crontab ∷ RuleId.fim_passwd ∷ RuleId.fim_sudoers ∷ []

-- `RuleId(text)`, none for a ValueError
unfoldable pub rule_id_of : String → Option RuleId
unfolding rule_value
rule_id_of text = with_value rule_value text rule_ids

pub record AgentSignal : Type 0 where
  pub tenant_id : String
  pub asset_id : String
  pub rule_id : RuleId
  pub rule_name : String
  pub mitre_tactic : Option String
  pub mitre_technique : Option String
  pub kill_chain_stage : Option KillChainStage
  pub source_ip : Option String
  pub username : Option String
  pub detected_at : ℕ
  pub triggering_event_ids : List String
  pub notes : Option String
  pub escalate_to_incident : Bool

-- `a or b`
abbrev first_text : Option String → Option String → Option String
first_text a b = if truthy a then a else b

abbrev note_keys : List String
note_keys =
    "path" ∷ "exe_path" ∷ "cmdline" ∷ "pid" ∷ "old_hash" ∷ "new_hash" ∷ "parent_process"
    ∷ "child_process" ∷ "change_count" ∷ []

-- the parts of the note
unfoldable pub note_parts : List (String × String) → List String → List String
note_parts payload [] = []
note_parts payload (key ∷ keys) =
    let rest = note_parts payload keys in
    if truthy (entry_of key payload)
    then (key ^^ "=" ^^ or_empty (entry_of key payload)) ∷ rest
    else rest

unfoldable pub agent_signal : Envelope → String → RuleId → AgentSignal
unfolding note_parts
agent_signal envelope rule_id_str rule_id =
    let meta = entry_of rule_id_str agent_rule_meta in
    record {
      tenant_id = envelope.tenant_id;
      asset_id = or_empty envelope.asset_id;
      rule_id = rule_id;
      rule_name = elim meta [ none ↦ rule_id_str | some m ↦ m.name ];
      mitre_tactic = elim meta [ none ↦ none | some m ↦ some m.mitre_tactic ];
      mitre_technique = elim meta [
        | none ↦ envelope.mitre_technique
        | some m ↦ some m.mitre_technique
      ];
      kill_chain_stage = elim meta [ none ↦ none | some m ↦ some m.kill_chain_stage ];
      source_ip = first_text envelope.source_ip (entry_of "source_ip" envelope.payload);
      username = first_text envelope.username (entry_of "username" envelope.payload);
      detected_at = envelope.timestamp;
      triggering_event_ids = envelope.event_id ∷ [];
      notes = elim (note_parts envelope.payload note_keys) [
        | [] ↦ none
        | p ∷ ps ↦ some (join " · " (p ∷ ps))
      ];
      escalate_to_incident = true;
    }

-- `evaluate_agent_event`
unfoldable pub evaluate_agent_event : Envelope → List AgentSignal
unfolding rule_id_of agent_signal
evaluate_agent_event envelope =
    if truthy envelope.rule_id
    then elim (rule_id_of (or_empty envelope.rule_id)) [
      | none ↦ []
      | some rule_id ↦ agent_signal envelope (or_empty envelope.rule_id) rule_id ∷ []
    ]
    else []
