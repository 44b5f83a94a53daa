-- ===== src/Response/Actions/Modes.antt =====
-- backend/app/autoresponse/actions.py: what the modes and the advice lead to.
use infra_red.Prelude.{
  ◌≡◌, ◌∙◌, ◌≢◌, not, String, Bool, true, false, ◌&&◌, ◌||◌, Option, some, List, eq_iff, arith,
}
use infra_red.Prelude.All.{any}
use infra_red.Prelude.Format.{truthy}
use infra_red.Prelude.Case.{is_in, is_in-block, any_in}
use infra_red.Response.Actions.{
  Action, ActionType, should_auto_execute, should_queue_approval, block_words, lock_words,
  escalate_words, advice_of, build_actions_from_llm,
}

auto-ne-approval : ◌≢◌ {A = String} "auto" "approval"
auto-ne-approval = ground (arith, eq_iff "auto" "approval")

-- Whatever the mode and the severities, an action is not both run and queued; in a mode other than
-- "auto" and "approval" it is neither.
pub modes_exclusive :
    (mode severity min_severity : String)
    → ((should_auto_execute mode severity min_severity
          && should_queue_approval mode severity min_severity)
        ≡ false)
      × (mode ≢ "auto"
          → mode ≢ "approval"
          → (should_auto_execute mode severity min_severity
              || should_queue_approval mode severity min_severity)
            ≡ false)
unfolding should_auto_execute should_queue_approval
modes_exclusive mode severity min_severity = (
  ground (arith, eq_iff mode "auto", eq_iff mode "approval", auto-ne-approval),
  λ a b. ground (arith, eq_iff mode "auto", eq_iff mode "approval"),
)

-- Is there an action of the type?
abbrev pub is_type : ActionType → Action → Bool
is_type ActionType.block_ip a = elim a.action_type [ ActionType.block_ip ↦ true | _ ↦ false ]
is_type ActionType.lock_account a = elim a.action_type [
  | ActionType.lock_account ↦ true
  | _ ↦ false
]
is_type ActionType.escalate a = elim a.action_type [ ActionType.escalate ↦ true | _ ↦ false ]
is_type ActionType.notify a = elim a.action_type [ ActionType.notify ↦ true | _ ↦ false ]
is_type _ a = false

-- The advice yields a block exactly if it has a word for it and there is an address, a lock exactly if
-- it has a word for it and there is a user name, an escalation exactly if it has a word for it, and a
-- notice exactly if it yields none of these.
pub build_actions_lem :
    (incident_id : String) (source_ip username : Option String) (advice : List String)
    → let acts = build_actions_from_llm incident_id source_ip username advice in
      let said = advice_of advice in
      let blocks = truthy source_ip && any_in block_words said in
      let locks = truthy username && any_in lock_words said in
      let escalates = any_in escalate_words said in
      (any (is_type ActionType.block_ip) acts ≡ blocks)
      × (any (is_type ActionType.lock_account) acts ≡ locks)
      × (any (is_type ActionType.escalate) acts ≡ escalates)
      × (any (is_type ActionType.notify) acts ≡ not (blocks || locks || escalates))
unfolding build_actions_from_llm
build_actions_lem incident_id source_ip username advice = ground arith

-- Advice that says "block" locks the account too, since "lock" is a part of that word: whenever there
-- is a user name, an account lock is among the actions.
pub block_advice_locks :
    (incident_id : String) (source_ip : Option String) (user : String) (advice : List String)
    → truthy (some user) ≡ true
    → is_in "block" (advice_of advice) ≡ true
    → any
        (is_type ActionType.lock_account)
        (build_actions_from_llm incident_id source_ip (some user) advice)
      ≡ true
block_advice_locks incident_id source_ip user advice named said =
    (build_actions_lem incident_id source_ip (some user) advice).1
    ∙ ground (arith, is_in-block (advice_of advice) said)
