-- ===== src/Agent/Watchdog/Stops.antt =====
-- Reports on the agent's process.
use infra_red.Prelude.{
  ℕ, ◌+◌, ◌-◌, ◌≡◌, refl, ap, suc, String, Bool, true, false, Option, none, some, List, [], ◌∷◌,
  ltb, length, Bool-cases, inl, inr, arith, if◌then◌else◌, map,
}
use infra_red.Prelude.All.{any}
use infra_red.Agent.Watchdog.{Watchdog, grace_period, check_process, watch}

-- looks at a process that is gone
abbrev pub gone : List ℕ → List (ℕ × Bool)
gone = map (λ t. (t, false))

module _ (baseline : List (String × ℕ)) where
  -- the watchdog, with whether it saw the agent running, and since when it waits for it
  abbrev pub state : Bool → Option ℕ → Watchdog
  state running stopped = record {
    agent_was_running = running;
    stopped_at = stopped;
    log_size_baseline = baseline;
  }

  -- who is not waiting for the agent reports nothing while it is gone
  idle_lem :
      (times : List ℕ) (stopped : Option ℕ)
      → length (watch (gone times) (state false stopped)).1 ≡ 0
  unfolding watch check_process
  idle_lem [] stopped = refl
  idle_lem (t ∷ times) stopped = idle_lem times stopped

  -- who waits since a time reports once, at the first look that is too late
  waiting_lem :
      (times : List ℕ) (since : ℕ)
      → length (watch (gone times) (state true (some since))).1
        ≡ (if any (λ t. ltb (since + grace_period) t) times then 1 else 0)
  unfolding watch check_process
  waiting_lem [] since = refl
  waiting_lem (t ∷ times) since = elim (Bool-cases (ltb (since + grace_period) t)) [
    | inl late ↦
        let late' : ltb grace_period (t - since) ≡ true = ground (arith, late) in
        rw (late', late) (ap suc (idle_lem times none))
    | inr early ↦
        let early' : ltb grace_period (t - since) ≡ false = ground (arith, early) in
        rw (early', early) (waiting_lem times since)
  ]

-- An agent that was seen running and is then found gone at every look: the watchdog reports it once if one
-- of the later looks is more than the grace period after the first, and otherwise not at all, however many
-- looks there are.
pub stop_reported_once :
    (baseline : List (String × ℕ)) (first : ℕ) (later : List ℕ)
    → length (watch (gone (first ∷ later)) (state baseline true none)).1
      ≡ (if any (λ t. ltb (first + grace_period) t) later then 1 else 0)
unfolding watch check_process
stop_reported_once baseline first later = waiting_lem baseline later first
