-- ===== src/Tests/Intake.antt =====
-- Runs of backend/app/workers/detection: the worker, the rules on web requests and those on the events of
-- agents.
use infra_red.Prelude.{
  ℕ, ◌≡◌, refl, String, Bool, true, false, none, some, List, [], ◌∷◌, ◌++◌, map, arith,
}
use infra_red.Constants.{EventType, RuleId, rule_value}
use infra_red.Redis.{Redis}
use infra_red.Redis.Sorted.{Sorted}
use infra_red.Redis.Instance.{server, nothing}
use infra_red.Redis.Ranks.{sorted}
use infra_red.Detection.Login.Signals.{RuleSettings}
use infra_red.Detection.Intake.{
  Envelope, NormalizedEvent, Patterns, is_agent_event, is_nginx_source,
}
use infra_red.Detection.Intake.AgentRules.{evaluate_agent_event}
use infra_red.Detection.Intake.Named.{verdict, agent_event_lem}
use infra_red.Detection.Intake.Process.{
  Found, web, agent, Env, Parts, Board, duplicate, raised, processed, dispatch, process_payload,
  mask_ip, noted_path,
}
use infra_red.Detection.Intake.Streams.{HandsOn, dispatch_lem}
use infra_red.Detection.Intake.Lost.{nginx_request_lost}
use infra_red.Detection.Web.{
  WebSettings, WebPatterns, WebSignal, evaluate_honeypot, net_rate_ip, web_signal,
}
use infra_red.Detection.Web.Rules.{evaluate_net_rules}
use infra_red.Detection.Web.Flood.{digest, net_rules_exact}

abbrev redis : Redis String
redis = server String

abbrev zsets : Sorted redis
zsets = sorted String

abbrev patterns : Patterns
patterns = record {
  auth_prefix = λ line. none;
  accepted_password = λ line. none;
  failed_invalid = λ line. none;
  failed_password = λ line. none;
  invalid_user = λ line. none;
  nginx_log = λ line. none;
}

abbrev web_patterns : WebPatterns
web_patterns = record {
  webshell_path = λ path. false;
  admin_path = λ path. false;
  automation_ua = λ ua. false;
  normal_path = λ path. false;
  sqli = λ path. false;
  path_traversal = λ path. false;
  cve_probe = λ path. false;
}

abbrev parts : Parts
parts = record {
  patterns = patterns;
  web_patterns = web_patterns;
  default_asset = "asset-1";
  sha256 = λ text. text;
  iso_code = λ ip. none;
}

abbrev rules : RuleSettings
rules = record {
  auth_brute_force_threshold = 5;
  auth_brute_force_window_seconds = 300;
  auth_invalid_user_threshold = 3;
  auth_invalid_user_window_seconds = 300;
  auth_fail_then_success_threshold = 5;
  auth_fail_then_success_window_seconds = 300;
  off_hours_enabled = false;
  off_hours_start_kst = 0;
  off_hours_end_kst = 6;
  foreign_login_enabled = false;
  allowed_countries = "KR";
}

abbrev web_settings : WebSettings
web_settings = record {
  web_admin_scan_threshold = 30;
  web_admin_scan_window_seconds = 300;
  web_404_threshold = 50;
  web_404_window_seconds = 300;
  web_sql_injection_enabled = true;
  web_path_traversal_enabled = true;
  web_cve_probe_enabled = true;
  net_http_flood_enabled = true;
  net_http_flood_threshold = 1;
  net_http_flood_window_seconds = 300;
}

abbrev at : ℕ → Env
at now = record {
  now = now;
  dedup_ttl_seconds = 600;
  rules = rules;
  web_rules = web_settings;
  saves_event = true;
  saves_signal = λ s. true;
}

abbrev empty_board : Board redis
empty_board = record {
  kv = nothing;
  known_ips = none;
  events = [];
  signals = [];
  demo_signals = [];
  matched = [];
}

-- as the tailer of nginx writes it
abbrev tailed : Envelope
tailed = record {
  event_id = "e-000001";
  tenant_id = "t";
  asset_id = some "a";
  timestamp = 1000000;
  event_type = some "WEB_REQUEST";
  raw_source = some "nginx.log";
  raw_line = some "8.8.8.8 - - \"GET /demo HTTP/1.1\" 200";
  username = none;
  source_ip = some "8.8.8.8";
  result = none;
  request_path = some "/demo";
  status_code = some 200;
  user_agent = none;
  rule_id = none;
  mitre_technique = none;
  payload = [];
}

abbrev classified : Envelope
classified = record tailed {
  event_type = some "fim_change";
  raw_source = some "fim";
  rule_id = some "FIM-004";
}

-- with the type that the worker reads, the event is processed
abbrev served : Envelope
served = record tailed { event_type = some "web_request" }

processes : (process_payload zsets parts (at 5) served empty_board).1 ≡ processed
unfolding process_payload evaluate_honeypot net_rate_ip web_signal
processes = refl

sources : (is_agent_event classified ≡ true) × (is_nginx_source tailed ≡ false)
unfolding is_agent_event is_nginx_source
sources = (refl, refl)

masked : mask_ip (some "121.135.10.20") ≡ some "121.135.xx.xx"
unfolding mask_ip
masked = refl

noted : noted_path "Honeypot path accessed: /demo/?x=1 (severity=info)" ≡ "/demo"
unfolding noted_path
noted = refl

abbrev request : NormalizedEvent
request = record {
  event = record {
    event_id = "e-000001";
    tenant_id = "t";
    asset_id = "a";
    timestamp = 1000000;
    event_type = EventType.web_request;
    username = none;
    source_ip = some "8.8.8.8";
    result = none;
  };
  request_path = some "/demo/";
  status_code = some 200;
  user_agent = none;
}

abbrev flags : WebSignal → Bool × Bool
flags s = (s.escalate_to_incident, s.is_demo)

-- a visit of the demonstration is no incident, and one of a page below it is
demonstration :
    (map flags (evaluate_honeypot request) ≡ (false, true) ∷ [])
    × (map flags (evaluate_honeypot (record request { request_path = some "/demo/a" }))
        ≡ (true, false) ∷ [])
unfolding evaluate_honeypot
demonstration = (refl, refl)

net_rules_exact_example :
    map digest (evaluate_net_rules zsets 1 web_settings request nothing).1
    ≡ (RuleId.net_http_flood, 1, true) ∷ []
net_rules_exact_example =
    net_rules_exact zsets 1 web_settings request nothing refl refl (omega arith) tt

classified_signal :
    map verdict (evaluate_agent_event classified) ≡ (RuleId.fim_passwd, true, "e-000001" ∷ []) ∷ []
unfolding rule_value
classified_signal = agent_event_lem classified RuleId.fim_passwd refl

abbrev two_found : List Found
two_found = map web (evaluate_honeypot request) ++ map agent (evaluate_agent_event classified)

dispatch_lem_example :
    HandsOn zsets parts
      (at 5)
      (map agent (evaluate_agent_event classified))
      1
      empty_board
      (dispatch zsets parts (at 5) two_found empty_board)
unfolding evaluate_honeypot evaluate_agent_event
dispatch_lem_example = dispatch_lem zsets parts (at 5) two_found empty_board (λ s. refl)

nginx_request_lost_example :
    let first = process_payload zsets parts (at 5) tailed empty_board in
    (first.1 ≡ raised)
    × (first.0.events ≡ [])
    × (first.0.matched ≡ [])
    × (process_payload zsets parts (at 65) tailed first.0 ≡ (first.0, duplicate))
nginx_request_lost_example =
    nginx_request_lost zsets parts (at 5) (at 65) tailed empty_board
      (record { kind = refl; source = refl })
      (record {
        prefix = refl;
        accepted = refl;
        failed_invalid = refl;
        failed = refl;
        invalid = refl;
      })
      refl (omega arith) (omega arith)
