-- ===== src/Response/Engine/Bypass.antt =====
-- backend/app/autoresponse/engine.py: the actions of the model's advice have no guard on the address.
use infra_red.Prelude.{
  ◌≡◌, ◌∙◌, String, Bool, true, false, ◌&&◌, ◌||◌, Option, none, some, List, [], ◌∷◌, ◌++◌, find,
  str_eq, str_eq_refl, arith,
}
use infra_red.Prelude.All.{any}
use infra_red.Prelude.Format.{truthy, text_or}
use infra_red.Prelude.Case.{any_in}
use infra_red.Redis.{Redis}
use infra_red.Response.Actions.{
  Action, ActionType, PayloadValue, text, number, should_auto_execute, block_words, advice_of,
  build_actions_from_llm,
}
use infra_red.Response.Actions.Modes.{is_type}
use infra_red.Response.Address.{Addr, Network}
use infra_red.Response.Engine.{Request, Run, sev_lower, perform, perform_all, run_autoresponse}
use infra_red.Response.Policy.{Policy, Settings, tenant_settings}

any-append {ℓ} :
    {A : Type ℓ} (p : A → Bool) (xs ys : List A) → any p (xs ++ ys) ≡ (any p xs || any p ys)
any-append p [] ys = ground arith
any-append p (x ∷ xs) ys = ground (arith, any-append p xs ys)

abbrev runs : Settings → String → Bool
runs settings sev = should_auto_execute settings.response_mode sev settings.auto_block_min_severity

-- the text that a payload has for the address
abbrev pub payload_ip : List (String × PayloadValue) → Option String
payload_ip payload = elim (find "ip" payload) [
  | some (text ip) ↦ some ip
  | some (number n) ↦ none
  | none ↦ none
]

abbrev same_text : Option String → String → Bool
same_text none ip = false
same_text (some t) ip = str_eq t ip

-- Is the action a block of the address, in its target and in its payload?
abbrev pub is_block_of : String → Action → Bool
is_block_of ip a =
    is_type ActionType.block_ip a && (str_eq a.target ip && same_text (payload_ip a.payload) ip)

module _ (ip : String) {D : Type 0} where
  abbrev blocks : Run D → Bool
  blocks r = any (is_block_of ip) r.commands

  perform-blocks :
      (settings : Settings) (sev : String) (a : Action) (r : Run D)
      → runs settings sev ≡ true
      → blocks (perform settings sev a r) ≡ (blocks r || is_block_of ip a)
  unfolding perform
  perform-blocks settings sev a r h =
      ground (arith, h, any-append (is_block_of ip) r.commands (a ∷ []))

  perform_all-blocks :
      (settings : Settings) (sev : String) (acts : List Action) (r : Run D)
      → runs settings sev ≡ true
      → blocks (perform_all settings sev acts r) ≡ (blocks r || any (is_block_of ip) acts)
  unfolding perform_all
  perform_all-blocks settings sev [] r h = ground arith
  perform_all-blocks settings sev (a ∷ rest) r h = ground (
    arith,
    perform-blocks settings sev a r h,
    perform_all-blocks settings sev rest (perform settings sev a r) h,
  )

-- a block is among the actions, and it is one of the source address
build_block_lem :
    (incident_id : String) (source_ip username : Option String) (advice : List String)
    → truthy source_ip ≡ true
    → any_in block_words (advice_of advice) ≡ true
    → any
        (is_block_of (text_or source_ip ""))
        (build_actions_from_llm incident_id source_ip username advice)
      ≡ true
unfolding build_actions_from_llm
build_block_lem incident_id source_ip username advice named said =
    rw (named, said) (ground (arith, str_eq_refl (text_or source_ip "")))

module _ (R : Redis (Option Policy)) (ip_address : String → Option Addr) (demo_nets : List Network)
    (q : Request) where
  open R use {Db}

  -- Where the tenant's mode runs actions at the incident's severity, advice that has a word for blocking
  -- sends the agent a block whose target and whose payload are the source address, whatever the address
  -- is: it may be a loopback address, a private one, or one on the allow list.
  pub auto_blocks_any_address :
      (db : Db)
      → truthy q.source_ip ≡ true
      → any_in block_words (advice_of q.recommended_actions) ≡ true
      → runs (tenant_settings q.settings_row) (sev_lower q) ≡ true
      → any
          (is_block_of (text_or q.source_ip ""))
          (run_autoresponse R ip_address demo_nets q db).commands
        ≡ true
  unfolding run_autoresponse
  auto_blocks_any_address db named said auto =
      perform_all-blocks (text_or q.source_ip "") (tenant_settings q.settings_row) (sev_lower q)
        (build_actions_from_llm q.incident_id q.source_ip q.username q.recommended_actions) _ auto
      ∙ ground (
        arith,
        build_block_lem q.incident_id q.source_ip q.username q.recommended_actions named said,
      )
