-- ===== src/Detection/Hours/Cycle.antt =====
-- backend/app/workers/detection/rules.py: off-hours that pass midnight.
use infra_red.Prelude.{ℕ, ◌+◌, ◌-◌, ◌%◌, ◌<◌, ◌≡◌, ◌↔◌, ◌⊎◌, true, arith}
use infra_red.Detection.Hours.{in_off_hours, kst_hour}

-- The hours after the start, on the clock.
abbrev pub since : ℕ → ℕ → ℕ
since start hour = (hour + 24 - start) % 24

-- A login is off-hours exactly if fewer hours have passed on the clock since the start of the off-hours
-- than pass from their start to their end, also over midnight; with one hour for both, always.
pub in_off_hours_iff :
    (off_start off_end timestamp : ℕ)
    → off_start < 24
    → off_end < 24
    → (in_off_hours off_start off_end (kst_hour timestamp) ≡ true)
      ↔ ((off_start ≡ off_end) ⊎ (since off_start (kst_hour timestamp) < since off_start off_end))
unfolding in_off_hours kst_hour
in_off_hours_iff off_start off_end timestamp s e = ground arith
