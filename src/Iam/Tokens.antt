-- ===== src/Iam/Tokens.antt =====
-- backend/app/iam/token_revocation.py and the verification of backend/app/iam/security.py. Redis holds
-- the number of a revocation entry: 1 for a token, the time of the revocation for a user. `decode` is
-- the library that checks a token's signature, issuer, audience and expiry.
pub mod Revocation
pub mod Gates
use infra_red.Prelude.{
  ℕ, zero, ◌*◌, String, Bool, true, false, not, ◌&&◌, ◌||◌, Option, none, some, ltb, leb, ◌==◌,
  or_else, str_eq, List, [], ◌∷◌, contains, if◌then◌else◌,
}
use infra_red.Prelude.Format.{◌^^◌, truthy, text_or}
use infra_red.Redis.{Redis}

pub record Claims : Type 0 where
  pub jti : Option String
  pub sub : Option String
  pub iat : ℕ
  pub role : Option String

pub data Refusal : Type 0 where
  not_authenticated invalid_or_expired_token token_revoked all_user_tokens_revoked : Refusal
  agent_role_required user_role_required : Refusal

pub data Reply : Type 0 where
  ok : Claims → Reply
  refuse : Refusal → Reply

abbrev pub jti_key : String → String
jti_key jti = "revoked:jti:" ^^ jti

abbrev pub user_key : String → String
user_key user_id = "revoked:user:" ^^ user_id

module _ (R : Redis ℕ) where
  open R use {Db, get, set_ex}

  -- the result, and the server
  unfoldable pub revoke_jti : ℕ → String → ℕ → Db → Bool × Db
  revoke_jti now jti ttl_seconds db =
      if str_eq jti "" || leb ttl_seconds 0
      then (false, db)
      else (true, set_ex now (jti_key jti) 1 ttl_seconds db)

  unfoldable pub is_jti_revoked : ℕ → Option String → Db → Bool
  is_jti_revoked now jti db =
      if truthy jti
      then elim (get now (jti_key (text_or jti "")) db) [ none ↦ false | some _ ↦ true ]
      else false

  unfoldable pub revoke_user_tokens : ℕ → String → ℕ → Db → ℕ × Db
  revoke_user_tokens now user_id max_ttl_seconds db =
      if str_eq user_id ""
      then (0, db)
      else (now, set_ex now (user_key user_id) now max_ttl_seconds db)

  unfoldable pub user_revoked_at : ℕ → Option String → Db → ℕ
  user_revoked_at now user_id db =
      if truthy user_id then or_else (get now (user_key (text_or user_id "")) db) 0 else 0

  -- The second half of the check of `verify_token`: is the user revoked? A command that Redis fails to
  -- answer lets the token pass.
  unfoldable pub check_user : ℕ → Bool → Claims → Db → Reply
  unfolding user_revoked_at
  check_user now user_up claims db =
      if truthy claims.sub && user_up
      then (let revoked_at = user_revoked_at now claims.sub db in
          if not (revoked_at == 0) && (not (claims.iat == 0) && ltb claims.iat revoked_at)
          then refuse Refusal.all_user_tokens_revoked
          else ok claims)
      else ok claims

  -- The revocation check: `jti_up` and `user_up` tell whether Redis answers its two questions.
  unfoldable pub check_revocation : ℕ → Bool → Bool → Claims → Db → Reply
  unfolding is_jti_revoked check_user
  check_revocation now jti_up user_up claims db =
      if truthy claims.jti
      then (if jti_up
          then (if is_jti_revoked now claims.jti db
              then refuse Refusal.token_revoked
              else check_user now user_up claims db)
          else ok claims)
      else check_user now user_up claims db

  unfoldable pub verify_token :
      (String → Option Claims) → ℕ → Bool → Bool → Option String → Option String → Db → Reply
  verify_token decode now jti_up user_up bearer cookie db = elim bearer [
    | some raw ↦ elim (decode raw) [
      | none ↦ refuse Refusal.invalid_or_expired_token
      | some claims ↦ check_revocation now jti_up user_up claims db
    ]
    | none ↦
        if truthy cookie
        then elim (decode (text_or cookie "")) [
          | none ↦ refuse Refusal.invalid_or_expired_token
          | some claims ↦ check_revocation now jti_up user_up claims db
        ]
        else refuse Refusal.not_authenticated
  ]

-- `verify_agent_token` and `verify_user_token`, on the claims of a verified token
unfoldable pub verify_agent_token : Claims → Reply
verify_agent_token claims =
    if contains ("agent" ∷ "watchdog" ∷ []) (or_else claims.role "")
    then ok claims
    else refuse Refusal.agent_role_required

unfoldable pub verify_user_token : Claims → Reply
verify_user_token claims =
    if str_eq (or_else claims.role "") "agent" then refuse Refusal.user_role_required else ok claims
