-- ===== src/Detection/Intake/Process.antt =====
-- backend/app/workers/detection/worker.py: `process_payload`, from an envelope to the signals that go on.
-- The digest of a text and what the outside answers are parameters; metrics, logs and the events to
-- browsers are left out.
use infra_red.Prelude.{
  ℕ, String, Bool, true, false, Option, none, some, List, [], ◌∷◌, ◌++◌, map, str_eq, if◌then◌else◌,
}
use infra_red.Prelude.Format.{◌^^◌, truthy, or_empty}
use infra_red.Prelude.Strip.{strip, before_char, split_char}
use infra_red.Prelude.Split.{behind, before_text}
use infra_red.Prelude.Dict.{entry_of}
use infra_red.Constants.{EventType}
use infra_red.Redis.{Redis}
use infra_red.Redis.Sorted.{Sorted}
use infra_red.Detection.Login.Keys.{ns}
use infra_red.Detection.Login.Signals.{RuleSettings, Signal}
use infra_red.Detection.Login.Known.{KnownIp}
use infra_red.Detection.Login.Evaluate.{evaluate_rules}
use infra_red.Detection.Web.{
  WebSettings, WebPatterns, WebSignal, clean_path, honeypot_path_severity,
}
use infra_red.Detection.Web.Rules.{evaluate_web_rules, evaluate_net_rules}
use infra_red.Detection.Intake.{
  Envelope, NormalizedEvent, Patterns, Parsed, parsed, unparsed, value_error, parse_auth_log,
  parse_nginx_log, is_agent_event, is_nginx_source,
}
use infra_red.Detection.Intake.AgentRules.{AgentSignal, evaluate_agent_event}

-- a signal of one of the three kinds of rules
pub data Found : Type 0 where
  login : Signal → Found
  web : WebSignal → Found
  agent : AgentSignal → Found

-- `_mask_ip`, on the parts between dots
abbrev pub mask_parts : String → List String → String
mask_parts ip (a ∷ b ∷ c ∷ d ∷ []) = a ^^ "." ^^ b ^^ ".xx.xx"
mask_parts ip parts = ip

unfoldable pub mask_ip : Option String → Option String
unfolding split_char
mask_ip ip =
    if truthy ip then some (mask_parts (or_empty ip) (split_char b'.' (or_empty ip))) else none

pub record DemoSignal : Type 0 where
  pub tenant_id : String
  pub asset_id : String
  pub source_ip_masked : Option String
  pub source_ip_hash : Option String
  pub path : String
  pub severity : String
  pub detected_at : ℕ

-- the path that the notes of a honeypot signal name
unfoldable pub noted_path : String → String
unfolding strip before_char clean_path
noted_path notes =
    let path : String = elim (behind "Honeypot path accessed:" notes) [
      | none ↦ "/demo"
      | some rest ↦ strip (before_char b'(' (before_text "Honeypot path accessed:" rest))
    ] in
    let clean = clean_path path in if str_eq clean "" then "/demo" else clean

pub data Outcome : Type 0 where
  duplicate not_parsed processed raised : Outcome

-- what the outside answers during a call: the clock, the settings, whether the database takes an event
-- and a signal
pub record Env : Type 0 where
  pub now : ℕ
  pub dedup_ttl_seconds : ℕ
  pub rules : RuleSettings
  pub web_rules : WebSettings
  pub saves_event : Bool
  pub saves_signal : Found → Bool

-- the parts that the worker is given
pub record Parts : Type 0 where
  pub patterns : Patterns
  pub web_patterns : WebPatterns
  pub default_asset : String
  pub sha256 : String → String
  pub iso_code : String → Option (Option String)

-- The state: Redis, the table of known addresses, the tables of events, of signals and of demo signals,
-- and the stream signals:matched.
pub record Board (R : Redis String) : Type 0 where
  pub kv : R.Db
  pub known_ips : Option (List KnownIp)
  pub events : List NormalizedEvent
  pub signals : List Found
  pub demo_signals : List DemoSignal
  pub matched : List Found

abbrev pub demo_of : Found → Option WebSignal
demo_of (web s) = if s.is_demo then some s else none
demo_of (login s) = none
demo_of (agent s) = none

module _ {R : Redis String} (Z : Sorted R) (p : Parts) where
  -- `event_dedup` and `honeypot_visit` of backend/app/redis_kv/keys.py
  unfoldable pub event_dedup : String → String → String
  event_dedup tenant_id event_id = ns tenant_id ^^ ":event:dedup:" ^^ p.sha256 event_id

  abbrev pub honeypot_visit : String → String → String
  honeypot_visit tenant_id ip_hash = ns tenant_id ^^ ":honeypot:visit:" ^^ ip_hash

  abbrev pub hash_ip : Option String → Option String
  hash_ip ip = if truthy ip then some (p.sha256 (or_empty ip)) else none

  -- SET with NX and EX
  abbrev pub set_new : ℕ → String → ℕ → R.Db → R.Db
  set_new now key ex db = elim (R.get now key db) [
    | none ↦ R.set_ex now key "1" ex db
    | some v ↦ db
  ]

  -- `_handle_demo_signal`: the answer of the SET is not read
  unfoldable pub handle_demo_signal : ℕ → WebSignal → Board R → Board R
  unfolding mask_ip noted_path
  handle_demo_signal now s b =
      let ip_hash = hash_ip s.source_ip in
      let path = noted_path s.notes in
      record b {
        kv =
            if truthy ip_hash
            then set_new now (honeypot_visit s.tenant_id (or_empty ip_hash)) 86400 b.kv
            else b.kv;
        demo_signals =
            b.demo_signals
            ++ record {
              tenant_id = s.tenant_id;
              asset_id = s.asset_id;
              source_ip_masked = mask_ip s.source_ip;
              source_ip_hash = ip_hash;
              path = path;
              severity = elim (entry_of path honeypot_path_severity) [
                | none ↦ "info"
                | some sev ↦ sev
              ];
              detected_at = s.detected_at;
            }
              ∷ [];
      }

  -- one turn of the loop over the signals, none where the database raises; the option is the signal if it
  -- is one of a demonstration
  unfoldable pub turn : Env → Option WebSignal → Found → Board R → Option (Board R)
  unfolding handle_demo_signal
  turn env (some w) s b = some (handle_demo_signal env.now w b)
  turn env none s b =
      if env.saves_signal s
      then some (record b { signals = b.signals ++ s ∷ []; matched = b.matched ++ s ∷ [] })
      else none

  -- the loop over the signals
  unfoldable pub dispatch : Env → List Found → Board R → Board R × Outcome
  unfolding turn
  dispatch env [] b = (b, processed)
  dispatch env (s ∷ ss) b = elim (turn env (demo_of s) s b) [
    | none ↦ (b, raised)
    | some b' ↦ dispatch env ss b'
  ]

  abbrev pub is_web : EventType → Bool
  is_web EventType.web_request = true
  is_web _ = false

  -- the rules on an event
  unfoldable pub evaluate : Env → NormalizedEvent → Board R → Board R × List Found
  unfolding evaluate_rules evaluate_web_rules evaluate_net_rules
  evaluate env e b =
      if is_web e.event.event_type
      then (let found = evaluate_web_rules Z env.now p.web_patterns env.web_rules e b.kv in
          let net = evaluate_net_rules Z env.now env.web_rules e found.0 in
          (record b { kv = net.0 }, map web (found.1 ++ net.1)))
      else (let found =
            evaluate_rules Z env.now p.iso_code env.rules e.event
              (record { kv = b.kv; known_ips = b.known_ips }) in
          (record b { kv = found.0.kv; known_ips = found.0.known_ips }, map login found.1))

  -- what follows the parser
  unfoldable pub process_parsed : Env → Parsed → Board R → Board R × Outcome
  unfolding evaluate dispatch
  process_parsed env value_error b = (b, raised)
  process_parsed env unparsed b = (b, not_parsed)
  process_parsed env (parsed e) b =
      if env.saves_event
      then (let found = evaluate env e (record b { events = b.events ++ e ∷ [] }) in
          dispatch env found.1 found.0)
      else (b, raised)

  -- an event that is not a duplicate
  unfoldable pub process_new : Env → Envelope → Board R → Board R × Outcome
  unfolding is_agent_event is_nginx_source evaluate_agent_event parse_nginx_log parse_auth_log
      process_parsed dispatch
  process_new env envelope b =
      if is_agent_event envelope
      then dispatch env (map agent (evaluate_agent_event envelope)) b
      else if is_nginx_source envelope
      then process_parsed env (parse_nginx_log p.patterns p.default_asset envelope) b
      else process_parsed env (parse_auth_log p.patterns p.default_asset envelope) b

  -- `process_payload`
  unfoldable pub process_payload : Env → Envelope → Board R → Board R × Outcome
  unfolding event_dedup process_new
  process_payload env envelope b =
      let key = event_dedup envelope.tenant_id envelope.event_id in
      elim (R.get env.now key b.kv) [
        | some v ↦ (b, duplicate)
        | none ↦
            process_new env envelope
              (record b { kv = R.set_ex env.now key "1" env.dedup_ttl_seconds b.kv })
      ]
