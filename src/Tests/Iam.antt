-- ===== src/Tests/Iam.antt =====
-- Runs of backend/app/iam.
use infra_red.Prelude.{ℕ, ◌≡◌, refl, String, true, Option, none, some, arith}
use infra_red.Prelude.Int.{pos}
use infra_red.Redis.{Redis}
use infra_red.Redis.Instance.{server, nothing}
use infra_red.Iam.Roles.{has_permission, has_min_role}
use infra_red.Iam.Roles.Hierarchy.{higher_has_permission}
use infra_red.Iam.Tokens.{
  Claims, Refusal, ok, refuse, revoke_jti, revoke_user_tokens, is_jti_revoked, verify_token,
}
use infra_red.Iam.Tokens.Revocation.{revoked_jti_refused, revoked_user_exact}

abbrev redis : Redis ℕ
redis = server ℕ

abbrev token : Claims
token = record { jti = some "j-1"; sub = some "u-1"; iat = 50; role = some "watchdog" }

abbrev decode : String → Option Claims
decode raw = some token

higher_has_permission_example : has_permission "security_manager" "incident:write" ≡ true
unfolding has_permission has_min_role
higher_has_permission_example =
    higher_has_permission "security_manager" "analyst" "incident:write" (pos 1) refl refl refl

revoked_jti_refused_example :
    verify_token redis decode 60 true true
      (some "raw")
      none
      (revoke_jti redis 10 "j-1" 100 nothing).1
    ≡ refuse Refusal.token_revoked
revoked_jti_refused_example =
    revoked_jti_refused redis decode 10 60 100 "j-1" "raw" none token true nothing refl refl refl
      (omega arith) (omega arith)

-- revoked in the second of its issue: the token passes
revoked_user_exact_example :
    verify_token redis decode 60 true true
      (some "raw")
      none
      (revoke_user_tokens redis 50 "u-1" 100 nothing).1
    ≡ ok token
unfolding is_jti_revoked revoke_user_tokens
revoked_user_exact_example =
    revoked_user_exact redis decode 50 60 100 "u-1" "raw" none token nothing refl refl refl refl
      (omega arith) (omega arith)
