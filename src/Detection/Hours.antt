-- ===== src/Detection/Hours.antt =====
-- backend/app/workers/detection/rules.py: the hours of a login, rule AUTH-006. A timestamp is the seconds
-- since the epoch.
pub mod Cycle
use infra_red.Prelude.{ℕ, ◌+◌, ◌/◌, ◌%◌, Bool, ◌&&◌, ◌||◌, ltb, leb}

-- the hour in Korea
unfoldable pub kst_hour : ℕ → ℕ
kst_hour timestamp = (timestamp / 3600 % 24 + 9) % 24

unfoldable pub in_off_hours : ℕ → ℕ → ℕ → Bool
in_off_hours off_start off_end hour =
    (ltb off_start off_end && (leb off_start hour && ltb hour off_end))
    || (leb off_end off_start && (leb off_start hour || ltb hour off_end))
