-- ===== src/Lib.antt =====
-- InfraRed: the core of the backend's pipeline from signals to responses.
--
-- A worker detects signals in the events of agents and web servers. The correlation worker tracks the
-- kill chain of a source, drops duplicates, matches named attack scenarios, scores the detection, builds
-- an incident and saves it or merges it into an active one, and tells the LLM worker. From the advice of
-- the language model and the tenant's policy the auto-response engine watches, denies or blocks an
-- address, or asks for approval. Messages that fail are retried and end in a stream of dead letters.
-- Isolated servers have a dead man switch. The agent on a server sends the lines of its
-- logs, watches its clock, blocks addresses in its firewall for a time and puts keys of SSH into
-- authorized_keys for a time; a watchdog watches the agent. The API limits requests, caches the settings
-- of the rules and checks tokens, revocations and roles.
--
-- The files, and the code that they model:
-- - Prelude and its children: lists, texts, integers, Boolean tests, Python's truth values and methods
--   of texts. Text case is that of ASCII.
-- - Constants: backend/app/common/constants.py.
-- - Redis: the commands that the backend uses, as a record of operations and laws, and in
--   Redis/Sorted.antt those on sorted sets; Redis/Instance.antt and Redis/Ranks.antt are a server that
--   meets them. Redis/Hash.antt has the commands on hashes and a server of its own. Every theorem over
--   Redis holds for any such server. Times are whole seconds on one clock.
-- - Detection/Confidence: calculate_detection_confidence of backend/app/workers/detection/confidence.py,
--   in whole thousandths.
-- - Detection/Hours: the off-hours of rule AUTH-006, of backend/app/workers/detection/rules.py.
-- - Detection/Login: evaluate_rules of backend/app/workers/detection/rules.py, the rules AUTH-001 to
--   AUTH-007, with the known addresses of backend/app/db/repositories.py and the keys of
--   backend/app/redis_kv/keys.py. Scores are the microseconds of an event; the clock of Redis is an
--   argument. Login/Marker.antt is about the markers that AUTH-001 and AUTH-003 leave for AUTH-004. The
--   GeoIP database is a parameter, and the settings of the rules are an argument.
-- - Detection/Intake: the envelopes of agents and the two parsers of backend/app/workers/detection/parser.py
--   and nginx_parser.py; Intake/AgentRules.antt is agent_event_rules.py, and Intake/Process.antt is
--   process_payload of worker.py, whose state is Redis, the tables and the stream of matched signals. What
--   the patterns of re find in a line is a parameter.
-- - Detection/Web: backend/app/workers/detection/web_rules.py. Whether a pattern finds something in a text
--   is a parameter; the paths of the honeypot are modelled.
-- - Detection/Settings: get_rule_settings of backend/app/workers/detection/rule_settings.py, and the cache
--   of backend/app/ingestion/settings_routes.py that it reads, over the hashes of Redis/Hash.antt.
-- - Gateway/RateLimit: backend/app/middleware/rate_limit.py, in whole milliseconds. RateLimit/Window.antt
--   has the limiter that RateLimit/Refine.antt compares it with: a plain log of the times of admissions.
-- - Correlation/Builder: backend/app/workers/correlation/builder.py, with the fields that it reads of
--   backend/app/models/signal.py and incident.py.
-- - Correlation/Chain: backend/app/workers/correlation/attack_chain.py. Chain.antt has the stages and
--   the matcher, Chain/Scenarios.antt the table and the index by rules. A list index out of range is
--   none; Chain/Total.antt is about that.
-- - Correlation/Merge, Correlation/Tables and Correlation/Store: the helpers that merge two incidents, the
--   tables with _insert_incident_evidence, and save_or_merge_incident of backend/app/db/repositories.py.
--   Tables are lists of rows; a call that raises leaves them as they are. The cast to INET is a
--   parameter.
-- - Correlation/Worker: _track_kill_chain, _check_incident_dedup and process_enriched of
--   backend/app/workers/correlation/worker.py. A call that raises, also at XADD behind a save, gives no
--   result, and the state that it leaves. _handle is in Pipeline/Dlq/Lost.antt.
-- - Response/Actions: backend/app/autoresponse/actions.py.
-- - Response/Address, Response/Policy and Response/Engine: the guards, the policies with the matrix of
--   version 3, and run_autoresponse of backend/app/autoresponse/engine.py. The parser of addresses is a
--   parameter.
-- - Iam/Roles: backend/app/iam/rbac_v2.py.
-- - Iam/Tokens: backend/app/iam/token_revocation.py, and verify_token and the two gates of
--   backend/app/iam/security.py. The library that decodes tokens is a parameter.
-- - Pipeline/Dlq: backend/app/workers/dlq.py. The handler of a message is a function on a world that is
--   a parameter; what XAUTOCLAIM hands over is an argument. The stream of dead letters is trimmed to about
--   10,000 entries; how many of the oldest Redis drops beyond that is a field of the queue.
-- - Pipeline/Deadman: backend/app/workers/deadman/switch.py.
-- - Agent/Ntp: NTPMonitor of agent/infrared_agent/ntp_monitor.py, in whole milliseconds. The exchange
--   with a server is a parameter; the texts and times of the events are left out.
-- - Agent/JitSsh: agent/infrared_agent/jit_ssh.py. A file is the list of its lines as they are read,
--   each with its end; the validation of base64 and the text of a time are parameters.
-- - Agent/Commander: _block_ip, _unblock_ip and a round of ttl_expiry_loop of
--   agent/infrared_agent/commander.py. A rule has its source and its comment; whether iptables carries out a
--   command is an argument of each call, and a deletion only takes a rule with the same comment.
-- - Agent/Tailer: agent/infrared_agent/tailer.py, offset_store.py and _send_log_events of main.py, on files
--   of bytes. Whether the backend takes a line is an argument.
-- - Agent/Watchdog: agent/infrared_agent/watchdog.py, in whole milliseconds. What it finds of the process
--   and of the files is an argument of each round.
-- - Tests: runs at concrete inputs.
--
-- Every loop of the modelled code runs over a list or a text and is a recursion on it; only the printing of a
-- number counts down fuel, one more than the number, which is enough as each step divides by ten.
--
-- Not modelled: alerts, server-sent events, logs and metrics, which are output and whose failures the
-- code ignores; the endless loops of the workers, of which only a turn is modelled; interleavings of two
-- workers, except for two requests that overlap in the limiter; failures of Redis other than those of the
-- revocation checks, of the limiter and of the message on an incident; the trimming of streams other than
-- that of the dead letters.
pub mod Prelude
pub mod Constants
pub mod Redis
pub mod Detection
pub mod Correlation
pub mod Response
pub mod Iam
pub mod Gateway
pub mod Pipeline
pub mod Agent
pub mod Tests
