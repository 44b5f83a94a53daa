-- ===== src/Detection/Intake.antt =====
-- backend/app/models/envelope.py, backend/app/workers/detection/parser.py and nginx_parser.py: the
-- envelopes of the agents, and the events that are made of them. What the patterns of `re` find in a
-- line, and what strptime makes of a time, are parameters. Times are microseconds.
pub mod AgentRules
pub mod Process
pub mod Streams
pub mod Lost
pub mod Named
use infra_red.Prelude.{
  ℕ, String, Bool, true, false, ◌&&◌, Option, none, some, List, [], ◌∷◌, contains, or_else, str_eq,
  if◌then◌else◌,
}
use infra_red.Prelude.Format.{truthy, text_or, or_empty}
use infra_red.Prelude.Case.{lower, upper}
use infra_red.Constants.{EventType}
use infra_red.Detection.Login.Signals.{Event}

-- RawEventEnvelope: the fields that the worker reads, with the extra ones of agents
pub record Envelope : Type 0 where
  pub event_id : String
  pub tenant_id : String
  pub asset_id : Option String
  pub timestamp : ℕ
  pub event_type : Option String
  pub raw_source : Option String
  pub raw_line : Option String
  pub username : Option String
  pub source_ip : Option String
  pub result : Option String
  pub request_path : Option String
  pub status_code : Option ℕ
  pub user_agent : Option String
  pub rule_id : Option String
  pub mitre_technique : Option String
  pub payload : List (String × String)

-- NormalizedEvent: what the rules on logins read, and what those on web requests read beside it
pub record NormalizedEvent : Type 0 where
  pub event : Event
  pub request_path : Option String
  pub status_code : Option ℕ
  pub user_agent : Option String

-- `.value` of a type of events
unfoldable pub event_type_value : EventType → String
event_type_value EventType.ssh_login_failed = "ssh_login_failed"
event_type_value EventType.ssh_login_success = "ssh_login_success"
event_type_value EventType.ssh_invalid_user = "ssh_invalid_user"
event_type_value EventType.agent_heartbeat = "agent_heartbeat"
event_type_value EventType.web_request = "web_request"
event_type_value EventType.fim_change = "fim_change"
event_type_value EventType.suspicious_process_execution = "suspicious_process_execution"
event_type_value EventType.webshell_execution = "webshell_execution"
event_type_value EventType.bulk_file_modification = "bulk_file_modification"

abbrev pub event_types : List EventType
event_types =
    EventType.ssh_login_failed ∷ EventType.ssh_login_success ∷ EventType.ssh_invalid_user
    ∷ EventType.agent_heartbeat ∷ EventType.web_request ∷ EventType.fim_change
    ∷ EventType.suspicious_process_execution ∷ EventType.webshell_execution
    ∷ EventType.bulk_file_modification ∷ []

abbrev pub with_value : {A : Type 0} → (A → String) → String → List A → Option A
with_value value text [] = none
with_value value text (a ∷ rest) =
    let found = with_value value text rest in if str_eq (value a) text then some a else found

-- `EventType(text)`, none for a ValueError
unfoldable pub event_type_of : String → Option EventType
unfolding event_type_value
event_type_of text = with_value event_type_value text event_types

-- a parser gives an event, nothing, or a ValueError
pub data Parsed : Type 0 where
  parsed : NormalizedEvent → Parsed
  unparsed value_error : Parsed

-- the fields of a line of nginx
pub record NginxLine : Type 0 where
  pub ip : String
  pub time : Option ℕ
  pub path : String
  pub status : ℕ
  pub ua : String

-- what the patterns find: the time and the message behind the prefix of syslog, the user and the address
-- of the four messages of sshd, and the fields of a line of nginx
pub record Patterns : Type 0 where
  pub auth_prefix : String → Option (Option ℕ × String)
  pub accepted_password : String → Option (String × String)
  pub failed_invalid : String → Option (String × String)
  pub failed_password : String → Option (String × String)
  pub invalid_user : String → Option (String × String)
  pub nginx_log : String → Option NginxLine

abbrev pub is_web_request : Option String → Bool
is_web_request event_type = str_eq (or_empty event_type) "web_request"

module _ (p : Patterns) (default_asset : String) where
  abbrev login_event :
      Envelope → ℕ → EventType → Option String → Option String → Option String → NormalizedEvent
  login_event envelope timestamp event_type username source_ip result = record {
    event = record {
      event_id = envelope.event_id;
      tenant_id = envelope.tenant_id;
      asset_id = text_or envelope.asset_id default_asset;
      timestamp = timestamp;
      event_type = event_type;
      username = username;
      source_ip = source_ip;
      result = result;
    };
    request_path = none;
    status_code = none;
    user_agent = none;
  }

  -- no message of sshd: the type of the envelope counts
  unfoldable pub by_type : Envelope → ℕ → Parsed
  unfolding event_type_of
  by_type envelope timestamp =
      if truthy envelope.event_type
      then elim (event_type_of (or_empty envelope.event_type)) [
        | none ↦ value_error
        | some kind ↦ parsed (
            login_event envelope timestamp kind envelope.username envelope.source_ip
              envelope.result)
      ]
      else unparsed

  -- the messages of sshd, in their order
  unfoldable pub by_message : Envelope → ℕ → String → Parsed
  unfolding by_type
  by_message envelope timestamp message = elim (p.accepted_password message) [
    | some (user, ip) ↦ parsed (
        login_event envelope timestamp EventType.ssh_login_success (some user) (some ip)
          (some "success"))
    | none ↦ elim (p.failed_invalid message) [
      | some (user, ip) ↦ parsed (
          login_event envelope timestamp EventType.ssh_invalid_user (some user) (some ip)
            (some "failed"))
      | none ↦ elim (p.failed_password message) [
        | some (user, ip) ↦ parsed (
            login_event envelope timestamp EventType.ssh_login_failed (some user) (some ip)
              (some "failed"))
        | none ↦ elim (p.invalid_user message) [
          | some (user, ip) ↦ parsed (
              login_event envelope timestamp EventType.ssh_invalid_user (some user) (some ip)
                (some "failed"))
          | none ↦ by_type envelope timestamp
        ]
      ]
    ]
  ]

  -- `parse_auth_log`
  unfoldable pub parse_auth_log : Envelope → Parsed
  unfolding by_message
  parse_auth_log envelope =
      let raw_line = or_empty envelope.raw_line in
      elim (p.auth_prefix raw_line) [
        | none ↦ by_message envelope envelope.timestamp raw_line
        | some (time, message) ↦ by_message envelope (or_else time envelope.timestamp) message
      ]

  abbrev web_event :
      Envelope → ℕ → Option String → Option String → Option ℕ → Option String → NormalizedEvent
  web_event envelope timestamp source_ip path status ua = record {
    event = record {
      event_id = envelope.event_id;
      tenant_id = envelope.tenant_id;
      asset_id = text_or envelope.asset_id default_asset;
      timestamp = timestamp;
      event_type = EventType.web_request;
      username = none;
      source_ip = source_ip;
      result = none;
    };
    request_path = path;
    status_code = status;
    user_agent = ua;
  }

  -- `parse_nginx_log`
  unfoldable pub parse_nginx_log : Envelope → Parsed
  parse_nginx_log envelope = elim (p.nginx_log (or_empty envelope.raw_line)) [
    | some line ↦ parsed (
        web_event envelope (or_else line.time envelope.timestamp) (some line.ip) (some line.path)
          (some line.status) (some line.ua))
    | none ↦
        if is_web_request envelope.event_type && truthy envelope.request_path
        then parsed (
            web_event envelope envelope.timestamp envelope.source_ip envelope.request_path
              envelope.status_code envelope.user_agent)
        else unparsed
  ]

-- `is_agent_event`
unfoldable pub is_agent_event : Envelope → Bool
unfolding lower
is_agent_event envelope =
    contains ("fim" ∷ "exec" ∷ "agent.fim" ∷ "agent.exec" ∷ [])
      (lower (or_empty envelope.raw_source))

-- `_is_nginx_source` of worker.py
unfoldable pub is_nginx_source : Envelope → Bool
unfolding lower
is_nginx_source envelope =
    if is_web_request envelope.event_type
    then true
    else contains ("nginx" ∷ "nginx_access" ∷ "nginx_access_log" ∷ "sdk" ∷ "web" ∷ [])
        (lower (or_empty envelope.raw_source))
