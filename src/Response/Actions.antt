-- ===== src/Response/Actions.antt =====
-- backend/app/autoresponse/actions.py: the actions, and when they run.
pub mod Modes
use infra_red.Prelude.{
  ℕ, String, Bool, true, false, ◌&&◌, Option, none, some, List, [], ◌∷◌, ◌++◌, leb, str_eq, find,
  or_else, if◌then◌else◌,
}
use infra_red.Prelude.Format.{join, truthy, text_or}
use infra_red.Prelude.Case.{lower, any_in}

pub data ActionType : Type 0 where
  block_ip lock_account escalate notify isolate_server kill_process : ActionType
  collect_forensics restore_file container_isolate container_unisolate : ActionType

-- A value of a payload: text, or a number or None.
pub data PayloadValue : Type 0 where
  text : String → PayloadValue
  number : Option ℕ → PayloadValue

pub record Action : Type 0 where
  pub action_type : ActionType
  pub target : String
  pub payload : List (String × PayloadValue)

-- SEVERITY_RANK
abbrev pub severity_rank : List (String × ℕ)
severity_rank = ("info", 0) ∷ ("medium", 1) ∷ ("high", 2) ∷ ("critical", 3) ∷ []

unfoldable pub should_auto_execute : String → String → String → Bool
should_auto_execute response_mode severity min_severity =
    if str_eq response_mode "auto"
    then leb (or_else (find min_severity severity_rank) 3) (or_else (find severity severity_rank) 0)
    else false

unfoldable pub should_queue_approval : String → String → String → Bool
should_queue_approval response_mode severity min_severity =
    if str_eq response_mode "approval"
    then leb (or_else (find min_severity severity_rank) 2) (or_else (find severity severity_rank) 0)
    else false

abbrev pub block_words : List String
block_words = "차단" ∷ "block" ∷ "firewall" ∷ "방화벽" ∷ []

abbrev pub lock_words : List String
lock_words = "잠금" ∷ "lock" ∷ "계정" ∷ "account" ∷ []

abbrev pub escalate_words : List String
escalate_words = "에스컬레이션" ∷ "escalat" ∷ "상향" ∷ []

notify_if_none : String → List Action → List Action
notify_if_none incident_id [] =
    record {
      action_type = ActionType.notify;
      target = incident_id;
      payload = ("incident_id", text incident_id) ∷ [];
    }
    ∷ []
notify_if_none incident_id (a ∷ rest) = a ∷ rest

block_actions : String → Option String → String → List Action
block_actions incident_id source_ip advice =
    if truthy source_ip && any_in block_words advice
    then record {
      action_type = ActionType.block_ip;
      target = text_or source_ip "";
      payload = ("ip", text (text_or source_ip "")) ∷ ("incident_id", text incident_id) ∷ [];
    }
      ∷ []
    else []

lock_actions : String → Option String → String → List Action
lock_actions incident_id username advice =
    if truthy username && any_in lock_words advice
    then record {
      action_type = ActionType.lock_account;
      target = text_or username "";
      payload = ("username", text (text_or username "")) ∷ ("incident_id", text incident_id) ∷ [];
    }
      ∷ []
    else []

escalate_actions : String → String → List Action
escalate_actions incident_id advice =
    if any_in escalate_words advice
    then record {
      action_type = ActionType.escalate;
      target = incident_id;
      payload = ("incident_id", text incident_id) ∷ [];
    }
      ∷ []
    else []

-- `text`, the advice of the model as one lower-case line
unfoldable pub advice_of : List String → String
advice_of recommended_actions = lower (join " " recommended_actions)

unfoldable pub build_actions_from_llm :
    String → Option String → Option String → List String → List Action
unfolding notify_if_none block_actions lock_actions escalate_actions
build_actions_from_llm incident_id source_ip username recommended_actions =
    let advice = advice_of recommended_actions in
    notify_if_none incident_id (
      block_actions incident_id source_ip advice
      ++ (lock_actions incident_id username advice ++ escalate_actions incident_id advice))
