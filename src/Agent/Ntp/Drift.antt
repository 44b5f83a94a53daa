-- ===== src/Agent/Ntp/Drift.antt =====
-- agent/infrared_agent/ntp_monitor.py: which drift is reported.
use infra_red.Prelude.All.{any}
use infra_red.Prelude.{
  str_eq, Bool, length, if◌then◌else◌, leb, ℕ, ◌+◌, ◌≤◌, ◌≡◌, refl, String, false, Option, some,
  ltb, arith,
}
use infra_red.Prelude.Int.{ℤ}
use infra_red.Agent.Ntp.{Monitor, Alarm, abs_drift, first_answer, drift_events, check_due, check}

abbrev pub is_high : Alarm → Bool
is_high e = str_eq e.severity "high"

-- A check that is due and gets an answer ends the streak of failures, and it reports one event exactly
-- from the warning threshold of the drift on, in either direction, and of a high severity exactly from
-- the alert threshold on, where the warning threshold is not above the alert.
pub check_answered :
    (query : String → Option ℤ) (now : ℕ) (m : Monitor) (server : String) (drift : ℤ)
    → m.warn ≤ m.alert
    → m.last_check + m.check_interval ≤ now
    → first_answer query m.servers ≡ some (server, drift)
    → (length (check query now m).0 ≡ (if leb m.warn (abs_drift drift) then 1 else 0))
      × (any is_high (check query now m).0 ≡ leb m.alert (abs_drift drift))
      × ((check query now m).1.consecutive_failures ≡ 0)
unfolding check check_due drift_events
check_answered query now m server drift w due e =
    let d : ltb now (m.last_check + m.check_interval) ≡ false = ground arith in
    rw (d, e, check) (ground arith, ground arith, refl)
