-- ===== src/Tests/Agent.antt =====
-- Runs of agent/infrared_agent/ntp_monitor.py.
use infra_red.Prelude.{ℕ, ◌≡◌, refl, String, Option, none, some, List, [], ◌∷◌, arith}
use infra_red.Prelude.Int.{ℤ, negsuc}
use infra_red.Agent.Ntp.{Monitor, monitor, make_event, first_answer, check}
use infra_red.Agent.Ntp.Streak.{Probe, run, silence_reported}

abbrev fresh : Monitor
fresh = record {
  servers = "pool.ntp.org" ∷ [];
  warn = 30000;
  alert = 60000;
  check_interval = 300000;
  last_check = 0;
  consecutive_failures = 0;
}

abbrev silent : String → Option ℤ
silent server = none

abbrev slow : String → Option ℤ
slow server = some (negsuc 74999)

-- the constructor fills in the servers
constructed : monitor ("pool.ntp.org" ∷ []) 30000 60000 300000 ≡ fresh
unfolding monitor
constructed = refl

abbrev probe : ℕ → Probe
probe time = record { time = time; query = silent }

abbrev earlier : List Probe
earlier = probe 600000 ∷ probe 300000 ∷ []

silence_reported_example :
    ((run (probe 900000 ∷ earlier) fresh).consecutive_failures ≡ 3)
    × ((check silent 900000 (run earlier fresh)).0
        ≡ make_event "TAMPER-NTP-002" "medium" none none ∷ [])
unfolding first_answer
silence_reported_example =
    silence_reported fresh (probe 900000) earlier refl (omega arith, (omega arith, omega arith))
      refl
