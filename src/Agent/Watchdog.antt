-- ===== src/Agent/Watchdog.antt =====
-- agent/infrared_agent/watchdog.py: the watchdog over the agent's process and the log files. Times are
-- milliseconds, one reading of the clock a round. The product with 0.1 is taken to be exact.
pub mod Stops
pub mod Shrinks
use infra_red.Prelude.{
  ℕ, ◌+◌, ◌-◌, ◌*◌, ◌/◌, String, Bool, true, false, ◌&&◌, Option, none, some, List, [], ◌∷◌, ◌++◌,
  ltb, max, or_else, if◌then◌else◌,
}
use infra_red.Prelude.Dict.{put, entry_of}

abbrev pub grace_period : ℕ
grace_period = 30000

-- the payloads of `_report_tamper`, with their detail
pub data Tamper : Type 0 where
  agent_unexpectedly_stopped : ℕ → Tamper
  log_file_truncated : String → ℕ → ℕ → Tamper
  log_file_deleted : String → Tamper

-- the variables of `run`, and `log_size_baseline`
pub record Watchdog : Type 0 where
  pub agent_was_running : Bool
  pub stopped_at : Option ℕ
  pub log_size_baseline : List (String × ℕ)

abbrev pub log_paths : List String
log_paths = "/var/log/auth.log" ∷ "/var/log/syslog" ∷ []

-- a file in `_check_log_integrity`; the size is none where it does not exist
unfoldable pub check_log : String → Option ℕ → List (String × ℕ) → List (String × ℕ) × List Tamper
check_log path none baseline = elim (entry_of path baseline) [
  | none ↦ (baseline, [])
  | some prev ↦ (baseline, log_file_deleted path ∷ [])
]
check_log path (some current) baseline =
    let prev = or_else (entry_of path baseline) current in
    (
      put path (max current prev) baseline,
      if ltb (current * 10) prev && ltb 10240 prev
          then log_file_truncated path prev current ∷ []
          else [],
    )

-- `_check_log_integrity`, on the paths that are left
unfoldable pub check_logs :
    (String → Option ℕ) → List String → List (String × ℕ) → List (String × ℕ) × List Tamper
unfolding check_log
check_logs size [] baseline = (baseline, [])
check_logs size (path ∷ paths) baseline =
    let one = check_log path (size path) baseline in
    let rest = check_logs size paths one.0 in (rest.0, one.1 ++ rest.1)

-- the part of a round of `run` that is about the process
unfoldable pub check_process : ℕ → Bool → Watchdog → Watchdog × List Tamper
check_process now true w = (record w { stopped_at = none; agent_was_running = true }, [])
check_process now false w =
    if w.agent_was_running
    then elim w.stopped_at [
      | none ↦ (record w { stopped_at = some now }, [])
      | some since ↦
          if ltb grace_period (now - since)
          then (
            record w { stopped_at = none; agent_was_running = false },
            agent_unexpectedly_stopped ((now - since) / 1000) ∷ [],
          )
          else (w, [])
    ]
    else (w, [])

-- a round of `run`
unfoldable pub round : ℕ → Bool → (String → Option ℕ) → Watchdog → Watchdog × List Tamper
unfolding check_process check_logs
round now is_running size w =
    let process = check_process now is_running w in
    let logs = check_logs size log_paths process.0.log_size_baseline in
    (record process.0 { log_size_baseline = logs.0 }, process.1 ++ logs.1)

-- the process as it is found, at one time after another
unfoldable pub watch : List (ℕ × Bool) → Watchdog → Watchdog × List Tamper
unfolding check_process
watch [] w = (w, [])
watch ((now, is_running) ∷ looks) w =
    let one = check_process now is_running w in
    let rest = watch looks one.0 in (rest.0, one.1 ++ rest.1)
