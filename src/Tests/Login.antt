-- ===== src/Tests/Login.antt =====
-- Runs of backend/app/workers/detection/rules.py.
use infra_red.Prelude.{
  ◌≡◌, refl, String, Bool, true, false, Option, none, some, List, [], ◌∷◌, ◌++◌, eq_iff, arith,
}
use infra_red.Redis.{Redis}
use infra_red.Redis.Sorted.{Sorted}
use infra_red.Redis.Instance.{Server, server, nothing}
use infra_red.Redis.Ranks.{sorted}
use infra_red.Constants.{EventType}
use infra_red.Detection.Login.Signals.{Event, RuleSettings, LoginRule, Signal, signal}
use infra_red.Detection.Login.Known.{KnownIp, World, is_known_ip_for_user, resolve_known_ip}
use infra_red.Detection.Login.Keys.{auth_fail_user_ip}
use infra_red.Detection.Login.Rules.{
  slide, count_rule, window_event_ids, login_rule, root_login_rule,
}
use infra_red.Detection.Login.Evaluate.{evaluate_from, evaluate_rules}
use infra_red.Detection.Login.Counts.{count_rule_exact}
use infra_red.Detection.Login.Escalation.{stale_failures_count}
use infra_red.Detection.Login.Shadow.{visit, known_ip_shadowed}
use infra_red.Detection.Login.Sequel.{success_after_failure}

abbrev redis : Redis String
redis = server String

abbrev zsets : Sorted redis
zsets = sorted String

abbrev cfg : RuleSettings
cfg = record {
  auth_brute_force_threshold = 5;
  auth_brute_force_window_seconds = 300;
  auth_invalid_user_threshold = 3;
  auth_invalid_user_window_seconds = 300;
  auth_fail_then_success_threshold = 1;
  auth_fail_then_success_window_seconds = 300;
  off_hours_enabled = false;
  off_hours_start_kst = 22;
  off_hours_end_kst = 6;
  foreign_login_enabled = false;
  allowed_countries = "KR";
}

abbrev failure : Event
failure = record {
  event_id = "e-1";
  tenant_id = "t";
  asset_id = "a";
  timestamp = 1000000;
  event_type = EventType.ssh_login_failed;
  username = some "admin";
  source_ip = some "8.8.8.8";
  result = some "failed";
}

abbrev login : Event
login = record {
  event_id = "e-2";
  tenant_id = "t";
  asset_id = "a";
  timestamp = 2000000;
  event_type = EventType.ssh_login_success;
  username = some "admin";
  source_ip = some "8.8.8.8";
  result = some "success";
}

abbrev world : World redis
world = record { kv = nothing; known_ips = none }

abbrev iso_code : String → Option (Option String)
iso_code ip = none

-- without an address there is nothing to evaluate
no_address :
    (evaluate_rules zsets 1 iso_code cfg (record failure { source_ip = none }) world).1 ≡ []
unfolding evaluate_rules
no_address = refl

count_rule_exact_example :
    (count_rule zsets 1 LoginRule.brute_force "k" 300 1 "n" failure "8.8.8.8" nothing).1
    ≡ signal LoginRule.brute_force failure 1
        (some "n")
        (window_event_ids zsets 1 "k" 300 failure (slide zsets 1 "k" 300 600 failure nothing))
        true
      ∷ []
count_rule_exact_example =
    count_rule_exact zsets 1 LoginRule.brute_force "k" 300 1 "n" failure "8.8.8.8" nothing
      (omega arith) tt

-- one failure, and a success long after it
abbrev old_failure : Server String
old_failure = zsets.zadd 1 (auth_fail_user_ip "t" "a" "admin" "8.8.8.8") "e-1" 1000000 nothing

abbrev late_login : Event
late_login = record login { timestamp = 400000000 }

stale_failures_count_example :
    (note : String) × (rest : List Signal) × ((login_rule zsets 1 cfg late_login "8.8.8.8"
        (record { kv = old_failure; known_ips = none })).1
      ≡ signal LoginRule.failed_then_success late_login 2 (some note) ("e-2" ∷ []) true ∷ rest)
unfolding auth_fail_user_ip
stale_failures_count_example =
    stale_failures_count zsets 1 cfg late_login "admin" "8.8.8.8"
      (record { kv = old_failure; known_ips = none }) refl refl refl (omega arith, tt) (omega arith)
      (omega arith)

abbrev office : KnownIp
office = record { tenant_id = "t"; asset_id = "a"; username = "u"; source_ip = "10.0.0.2" }

known_ip_shadowed_example :
    let w : World redis = record { kv = nothing; known_ips = some (office ∷ []) } in
    let answer =
      resolve_known_ip "t" "a" "u" redis 7 "10.0.0.2" (visit redis "t" "a" "u" 7 "10.0.0.1" w) in
    (answer.1 ≡ 1) × (answer.2 ≡ false)
unfolding is_known_ip_for_user
known_ip_shadowed_example =
    known_ip_shadowed redis "t" "a" "u" 7 "10.0.0.1" "10.0.0.2" nothing (office ∷ [])
      (λ e. ground (arith, eq_iff "10.0.0.1" "10.0.0.2", e)) refl (λ a. refl) refl

success_after_failure_example :
    (note : String) × (triggering : List String) × (escalate : Bool) × (rest : List Signal)
    × ((evaluate_from zsets 2 iso_code cfg login "8.8.8.8"
          (evaluate_from zsets 1 iso_code cfg failure "8.8.8.8" world).0).1
        ≡ root_login_rule login
          ++ (signal LoginRule.failed_then_success login 2 (some note) triggering escalate ∷ rest))
success_after_failure_example =
    success_after_failure zsets 2 1 cfg failure login "admin" "8.8.8.8" iso_code world refl refl
      refl refl (omega arith) tt (omega arith) (omega arith) refl refl refl refl refl
