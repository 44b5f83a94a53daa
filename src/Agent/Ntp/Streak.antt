-- ===== src/Agent/Ntp/Streak.antt =====
-- agent/infrared_agent/ntp_monitor.py: the streak of failed checks.
use infra_red.Prelude.{
  ℕ, suc, ◌+◌, ◌≤◌, ◌≡◌, refl, sym, ap, ◌∙◌, String, false, Option, none, some, List, [], ◌∷◌, ltb,
  leb, Option-cases, inl, inr, arith, if◌then◌else◌,
}
use infra_red.Prelude.Int.{ℤ}
use infra_red.Agent.Ntp.{Monitor, make_event, first_answer, failure_events, check_due, check}

-- a check at a time, and what the servers answer then
pub record Probe : Type 0 where
  pub time : ℕ
  pub query : String → Option ℤ

-- the checks that no server answers, back to the last that one did, newest first
abbrev pub streak : List String → List Probe → ℕ
streak servers [] = 0
streak servers (p ∷ rest) = elim (first_answer p.query servers) [
  | none ↦ suc (streak servers rest)
  | some _ ↦ 0
]

-- the monitor after the checks
abbrev pub run : List Probe → Monitor → Monitor
run [] m = m
run (p ∷ rest) m = (check p.query p.time (run rest m)).1

-- each check is due
abbrev pub IsDue : ℕ → ℕ → List Probe → Type 0
IsDue start interval [] = Unit
IsDue start interval (p ∷ []) = start + interval ≤ p.time
IsDue start interval (p ∷ q ∷ rest) = (q.time + interval ≤ p.time) × IsDue start interval (q ∷ rest)

-- The newest check, or the start.
abbrev last_time : ℕ → List Probe → ℕ
last_time start [] = start
last_time start (p ∷ rest) = p.time

abbrev Tracks : Monitor → List Probe → Monitor → Type 0
Tracks m ps n =
    (n.servers ≡ m.servers)
    × (n.check_interval ≡ m.check_interval)
    × (n.last_check ≡ last_time m.last_check ps)
    × (n.consecutive_failures ≡ streak m.servers ps)

IsDue-tail :
    (start interval : ℕ) (p : Probe) (rest : List Probe)
    → IsDue start interval (p ∷ rest)
    → IsDue start interval rest
IsDue-tail start interval p [] d = tt
IsDue-tail start interval p (q ∷ rest) d = d.1

next_due :
    (start interval : ℕ) (p : Probe) (rest : List Probe)
    → IsDue start interval (p ∷ rest)
    → last_time start rest + interval ≤ p.time
next_due start interval p [] d = d
next_due start interval p (q ∷ rest) d = d.0

streak-none :
    (servers : List String) (p : Probe) (rest : List Probe)
    → first_answer p.query servers ≡ none
    → streak servers (p ∷ rest) ≡ suc (streak servers rest)
streak-none servers p rest e = rw (e, streak) refl

streak-some :
    (servers : List String) (p : Probe) (rest : List Probe) (x : String × ℤ)
    → first_answer p.query servers ≡ some x
    → streak servers (p ∷ rest) ≡ 0
streak-some servers p rest x e = rw (e, streak) refl

-- one check that is due
check-Tracks :
    (m n : Monitor) (p : Probe) (rest : List Probe)
    → Tracks m rest n
    → last_time m.last_check rest + m.check_interval ≤ p.time
    → Tracks m (p ∷ rest) (check p.query p.time n).1
      × (first_answer p.query m.servers ≡ none
          → (check p.query p.time n).0 ≡ failure_events (streak m.servers (p ∷ rest)))
unfolding check check_due
check-Tracks m n p rest t d =
    let (servers, interval, last, failures) = t in
    let due : ltb p.time (n.last_check + n.check_interval) ≡ false =
      ground (arith, interval, last, d) in
    elim (Option-cases (first_answer p.query m.servers)) [
      | inl e ↦
          let a : first_answer p.query n.servers ≡ none = ap (first_answer p.query) servers ∙ e in
          let k = ap suc failures ∙ sym (streak-none m.servers p rest e) in
          rw (due, a, check) ((servers, interval, refl, k), λ _. ap failure_events k)
      | inr (x, e) ↦
          let a : first_answer p.query n.servers ≡ some x = ap (first_answer p.query) servers ∙ e in
          rw (due, a, check)
            (
              (servers, interval, refl, sym (streak-some m.servers p rest x e)),
              λ h. absurd (ground (arith, e, h)),
            )
    ]

run-Tracks :
    (m : Monitor) (ps : List Probe)
    → m.consecutive_failures ≡ 0
    → IsDue m.last_check m.check_interval ps
    → Tracks m ps (run ps m)
run-Tracks m [] z d = (refl, refl, refl, z)
run-Tracks m (p ∷ rest) z d =
    (check-Tracks m (run rest m) p rest
      (run-Tracks m rest z (IsDue-tail m.last_check m.check_interval p rest d))
      (next_due m.last_check m.check_interval p rest d)).0

-- A check that is due and gets no answer, after any checks that were due, from a monitor without
-- failures: the counter then holds the number of checks without an answer since the last that got one,
-- and the check reports exactly if it is at least the third in a row.
pub silence_reported :
    (m : Monitor) (p : Probe) (rest : List Probe)
    → m.consecutive_failures ≡ 0
    → IsDue m.last_check m.check_interval (p ∷ rest)
    → first_answer p.query m.servers ≡ none
    → ((run (p ∷ rest) m).consecutive_failures ≡ streak m.servers (p ∷ rest))
      × ((check p.query p.time (run rest m)).0 ≡ (
          if leb 3 (streak m.servers (p ∷ rest))
          then make_event "TAMPER-NTP-002" "medium" none none ∷ []
          else []))
unfolding failure_events
silence_reported m p rest z d silent =
    let (t, e) =
      check-Tracks m (run rest m) p rest
        (run-Tracks m rest z (IsDue-tail m.last_check m.check_interval p rest d))
        (next_due m.last_check m.check_interval p rest d) in
    (t.3, e silent)
