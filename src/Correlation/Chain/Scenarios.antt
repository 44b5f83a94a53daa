-- ===== src/Correlation/Chain/Scenarios.antt =====
-- backend/app/workers/correlation/attack_chain.py: the table of scenarios, and `_RULE_TO_STAGES`.
use infra_red.Prelude.{
  ℕ, suc, String, Bool, true, false, List, [], ◌∷◌, ◌++◌, str_eq, Option, if◌then◌else◌,
}
use infra_red.Redis.{Redis}
use infra_red.Correlation.Chain.{ScenarioStage, AttackScenario, ScenarioState, process_matches}

abbrev pub stage : String → List String → Bool → ℕ → ScenarioStage
stage name rule_ids required min_distinct_assets = record {
  name = name;
  rule_ids = rule_ids;
  required = required;
  min_distinct_assets = min_distinct_assets;
}

abbrev pub ssh_account_compromise : AttackScenario
ssh_account_compromise = record {
  id = "SSH_ACCOUNT_COMPROMISE_WITH_PERSISTENCE";
  display_name = "SSH Account Compromise with Persistence";
  window_seconds = 600;
  auto_severity = "critical";
  confidence_bonus = 350;
  stages =
      stage "initial_auth_attempt" ("AUTH-001" ∷ "AUTH-006A" ∷ "AUTH-006B" ∷ "TRAVEL-001" ∷ []) true
        1
      ∷ stage "successful_auth" ("AUTH-004" ∷ []) true 1
      ∷ stage "persistence" ("PERSIST-001" ∷ "FIM-001" ∷ "PERSIST-002" ∷ "PERSIST-003" ∷ []) true 1
      ∷ [];
}

abbrev pub webshell_infiltration : AttackScenario
webshell_infiltration = record {
  id = "WEBSHELL_INFILTRATION";
  display_name = "Webshell Infiltration";
  window_seconds = 1200;
  auto_severity = "critical";
  confidence_bonus = 350;
  stages =
      stage "honeypot_probe" ("WEB-HNY-001" ∷ []) false 1
      ∷ stage "web_shell_access" ("WEB-001" ∷ []) true 1
      ∷ stage "code_execution" ("EXEC-002" ∷ []) true 1
      ∷ [];
}

abbrev pub privilege_escalation : AttackScenario
privilege_escalation = record {
  id = "PRIVILEGE_ESCALATION";
  display_name = "Privilege Escalation";
  window_seconds = 300;
  auto_severity = "high";
  confidence_bonus = 300;
  stages =
      stage "credential_access" ("AUTH-002" ∷ "AUTH-004" ∷ []) true 1
      ∷ stage "escalation" ("ESCALATE-001" ∷ "FIM-005" ∷ []) true 1
      ∷ [];
}

abbrev pub ransomware_precursor : AttackScenario
ransomware_precursor = record {
  id = "RANSOMWARE_PRECURSOR";
  display_name = "Ransomware Precursor";
  window_seconds = 180;
  auto_severity = "critical";
  confidence_bonus = 300;
  stages =
      stage "discovery" ("EXEC-001" ∷ []) true 1
      ∷ stage "encryption_prep" ("EXEC-003" ∷ "TAMPER-LOG-001" ∷ []) true 1
      ∷ [];
}

abbrev pub supply_chain_binary_replacement : AttackScenario
supply_chain_binary_replacement = record {
  id = "SUPPLY_CHAIN_BINARY_REPLACEMENT";
  display_name = "공급망 바이너리 교체";
  window_seconds = 3600;
  auto_severity = "critical";
  confidence_bonus = 450;
  stages =
      stage "binary_replaced" ("EXEC-FIRST-001" ∷ []) true 1
      ∷ stage "persistence_or_lateral" ("PERSIST-001" ∷ "PERSIST-002" ∷ "PERSIST-003" ∷ []) false 1
      ∷ [];
}

abbrev pub lateral_movement : AttackScenario
lateral_movement = record {
  id = "LATERAL_MOVEMENT";
  display_name = "Lateral Movement";
  window_seconds = 600;
  auto_severity = "high";
  confidence_bonus = 200;
  stages = stage "multi_asset_auth" ("AUTH-004" ∷ []) true 3 ∷ [];
}

abbrev pub cred_spread : AttackScenario
cred_spread = record {
  id = "CRED_SPREAD";
  display_name = "다중 자격증명 내부 확산";
  window_seconds = 3600;
  auto_severity = "critical";
  confidence_bonus = 400;
  stages =
      stage "초기 자격증명 침해" ("AUTH-001" ∷ "AUTH-006A" ∷ "AUTH-006B" ∷ []) true 1
      ∷ stage "자격증명 덤프" ("EXEC-001" ∷ "ESCALATE-001" ∷ []) true 1
      ∷ stage "횡이동" ("AUTH-004" ∷ []) true 3
      ∷ [];
}

-- SCENARIOS
abbrev pub scenarios : List AttackScenario
scenarios =
    ssh_account_compromise ∷ webshell_infiltration ∷ privilege_escalation ∷ ransomware_precursor
    ∷ supply_chain_binary_replacement ∷ lateral_movement ∷ cred_spread ∷ []

-- The entries that the loops over the scenarios, their stages and their rules add under `rule`.
unfoldable pub rule_entries : String → AttackScenario → ℕ → List String → List (AttackScenario × ℕ)
rule_entries rule sc idx [] = []
rule_entries rule sc idx (r ∷ rest) =
    let more = rule_entries rule sc idx rest in if str_eq rule r then (sc, idx) ∷ more else more

unfoldable pub stage_entries :
    String → AttackScenario → ℕ → List ScenarioStage → List (AttackScenario × ℕ)
unfolding rule_entries
stage_entries rule sc idx [] = []
stage_entries rule sc idx (s ∷ rest) =
    rule_entries rule sc idx s.rule_ids ++ stage_entries rule sc (suc idx) rest

unfoldable pub scenario_entries : String → List AttackScenario → List (AttackScenario × ℕ)
unfolding stage_entries
scenario_entries rule [] = []
scenario_entries rule (sc ∷ rest) = stage_entries rule sc 0 sc.stages ++ scenario_entries rule rest

-- `_RULE_TO_STAGES.get(rule, [])`
unfoldable pub rule_to_stages : String → List (AttackScenario × ℕ)
unfolding scenario_entries
rule_to_stages rule = scenario_entries rule scenarios

module _ (R : Redis ScenarioState) where
  open R use {Db}

  unfoldable pub process_signal :
      ℕ → String → String → String → String → Db → Option (Option AttackScenario × ℕ × Db)
  process_signal now tenant_id rule_id source_ip asset_id db =
      process_matches R now tenant_id source_ip asset_id (rule_to_stages rule_id) db
