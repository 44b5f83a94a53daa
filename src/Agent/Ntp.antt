-- ===== src/Agent/Ntp.antt =====
-- agent/infrared_agent/ntp_monitor.py: the watch on the system clock. Times and drifts are whole
-- milliseconds. `query` stands for the exchange with a server: its drift, or none for an exchange that
-- fails. The description and the time of an event are left out.
pub mod Streak
pub mod Drift
use infra_red.Prelude.{
  ℕ, suc, ◌+◌, ◌*◌, String, Bool, true, false, Option, none, some, List, [], ◌∷◌, ltb, leb,
  if◌then◌else◌,
}
use infra_red.Prelude.Int.{ℤ, pos, negsuc, pos_part, neg_part}

abbrev pub drift_warn : ℕ
drift_warn = 30 * 1000

abbrev pub drift_alert : ℕ
drift_alert = 60 * 1000

abbrev pub default_ntp_servers : List String
default_ntp_servers =
    "pool.ntp.org" ∷ "time.google.com" ∷ "time.cloudflare.com" ∷ "ntp.ubuntu.com" ∷ []

abbrev pub max_consecutive_failures : ℕ
max_consecutive_failures = 3

pub record Monitor : Type 0 where
  pub servers : List String
  pub warn : ℕ
  pub alert : ℕ
  pub check_interval : ℕ
  pub last_check : ℕ
  pub consecutive_failures : ℕ

-- `__init__`
unfoldable pub monitor : List String → ℕ → ℕ → ℕ → Monitor
monitor servers warn alert check_interval = record {
  servers = elim servers [ [] ↦ default_ntp_servers | s ∷ rest ↦ s ∷ rest ];
  warn = warn;
  alert = alert;
  check_interval = check_interval;
  last_check = 0;
  consecutive_failures = 0;
}

pub record Alarm : Type 0 where
  pub rule_id : String
  pub severity : String
  pub drift : Option ℤ
  pub server : Option String

-- `_make_event`
abbrev pub make_event : String → String → Option ℤ → Option String → Alarm
make_event rule_id severity drift server = record {
  rule_id = rule_id;
  severity = severity;
  drift = drift;
  server = server;
}

unfoldable pub abs_drift : ℤ → ℕ
abs_drift d = pos_part d + neg_part d

-- the first server that answers
unfoldable pub first_answer : (String → Option ℤ) → List String → Option (String × ℤ)
first_answer query [] = none
first_answer query (s ∷ rest) = elim (query s) [
  | some d ↦ some (s, d)
  | none ↦ first_answer query rest
]

unfoldable pub drift_events : Monitor → String → ℤ → List Alarm
drift_events m server drift =
    if leb m.alert (abs_drift drift)
    then make_event "TAMPER-NTP-001" "high" (some drift) (some server) ∷ []
    else if leb m.warn (abs_drift drift)
    then make_event "TAMPER-NTP-001" "low" (some drift) (some server) ∷ []
    else []

unfoldable pub failure_events : ℕ → List Alarm
failure_events failures =
    if leb max_consecutive_failures failures
    then make_event "TAMPER-NTP-002" "medium" none none ∷ []
    else []

-- what a check does that is due
unfoldable pub check_due : Monitor → Option (String × ℤ) → List Alarm × Monitor
check_due m none = (
  failure_events (suc m.consecutive_failures),
  record m { consecutive_failures = suc m.consecutive_failures },
)
check_due m (some (server, drift)) =
    (drift_events m server drift, record m { consecutive_failures = 0 })

unfoldable pub check : (String → Option ℤ) → ℕ → Monitor → List Alarm × Monitor
check query now m =
    if ltb now (m.last_check + m.check_interval)
    then ([], m)
    else check_due (record m { last_check = now }) (first_answer query m.servers)
