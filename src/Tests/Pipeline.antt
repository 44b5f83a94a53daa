-- ===== src/Tests/Pipeline.antt =====
-- Runs of backend/app/workers/dlq.py and backend/app/workers/deadman/switch.py.
use infra_red.Prelude.{
  ℕ, ◌+◌, ◌≤◌, ◌≡◌, refl, String, true, false, Option, none, some, List, [], ◌∷◌, arith,
}
use infra_red.Redis.{Redis}
use infra_red.Redis.Instance.{server, nothing}
use infra_red.Pipeline.Dlq.{
  Fields, Letter, Queue, Handler, trim_oldest, get_retry_count, reclaim_one,
}
use infra_red.Pipeline.Dlq.Retries
use infra_red.Pipeline.Deadman.{Switch, Panel, arm, disarm, get_status, ttl_or_default}
use infra_red.Pipeline.Deadman.Life

abbrev counters : Redis ℕ
counters = server ℕ

abbrev fails : Handler counters ℕ
fails sid fields w = (some "boom", w + 1)

abbrev queue : Queue counters ℕ
queue = record { world = 0; kv = nothing; acked = []; dead = []; trims = λ letters. 0 }

abbrev twice : Queue counters ℕ
twice = Retries.attempts counters ℕ "detection" 3 "1-0" [] fails (100 ∷ 200 ∷ []) queue

DeadLettered-at_limit_example :
    Retries.Below counters ℕ "detection" 3 "1-0" [] fails 300 2 queue twice
    × Retries.DeadLettered counters ℕ "detection" 3 "1-0" [] fails 300 twice
        (reclaim_one counters ℕ fails 300 "detection" 3 "1-0" [] twice)
unfolding get_retry_count
DeadLettered-at_limit_example =
    Retries.DeadLettered-at_limit counters ℕ "detection" 3 "1-0" [] fails (λ w. ("boom", refl)) 100
      300 (200 ∷ []) queue refl refl (omega arith, omega arith, (omega arith, omega arith, tt))

abbrev claimed : Option (List (String × Fields))
claimed = some (("1-0", []) ∷ ("2-0", ("payload", "x") ∷ []) ∷ [])

-- a dead letter of an entry
abbrev letter : String → Letter
letter sid = record {
  stage = "detection";
  stream_id = sid;
  payload = "";
  error = "boom";
  failed_at = 100;
}

-- with room for two letters, the two oldest of four go
trimmed_letters :
    trim_oldest 2 100 (letter "1-0" ∷ letter "2-0" ∷ letter "3-0" ∷ letter "4-0" ∷ [])
    ≡ letter "3-0" ∷ letter "4-0" ∷ []
unfolding trim_oldest
trimmed_letters = refl

abbrev switches : Redis Switch
switches = server Switch

abbrev panel : Panel switches
panel = record { kv = nothing; history = [] }

abbrev armed : Panel switches
armed = (arm switches 100 true "a1b2" "t" "web" none panel).1

armed_until_example :
    (1 ≤ ttl_or_default none)
    × (get_status switches 200 "t" "web" armed
        ≡ some (Life.status switches 100 true "a1b2" "t" "web" none panel 14300))
unfolding ttl_or_default
armed_until_example =
    Life.armed_until switches 100 true "a1b2" "t" "web" none panel 200 (omega arith)

disarm_exact_example :
    ((disarm switches 200 true "t" "web" "ffff" armed).0 ≡ false)
    × (get_status switches 300 "t" "web" (disarm switches 200 true "t" "web" "ffff" armed).1
        ≡ get_status switches 300 "t" "web" armed)
unfolding ttl_or_default
disarm_exact_example =
    Life.disarm_exact switches 100 true "a1b2" "t" "web" none panel 200 300 true "ffff"
      (omega arith) (omega arith)
