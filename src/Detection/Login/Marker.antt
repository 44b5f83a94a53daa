-- ===== src/Detection/Login/Marker.antt =====
-- backend/app/workers/detection/rules.py: the markers that AUTH-001 and AUTH-003 leave for AUTH-004.
use infra_red.Prelude.{Bool, true, false}
use infra_red.Constants.{RuleId}
use infra_red.Redis.{Redis}
use infra_red.Redis.Sorted.{Sorted}
use infra_red.Detection.Login.Signals.{LoginRule}

-- AUTH-001 and AUTH-003, which leave a marker
abbrev pub is_marking : LoginRule → Bool
is_marking LoginRule.brute_force = true
is_marking LoginRule.invalid_user = true
is_marking _ = false

-- the other one of the two
abbrev pub other_rule : LoginRule → RuleId
other_rule LoginRule.brute_force = RuleId.auth_invalid_user
other_rule _ = RuleId.auth_brute_force
