-- ===== src/Iam/Tokens/Revocation.antt =====
-- backend/app/iam/token_revocation.py: what revocation does to later verifications.
use infra_red.Prelude.{
  ℕ, ◌+◌, ◌≤◌, ◌<◌, ◌≡◌, String, Bool, true, false, Option, some, ltb, ◌==◌, not, ◌&&◌, str_eq,
  str_eq_refl, arith, if◌then◌else◌,
}
use infra_red.Redis.{Redis}
use infra_red.Iam.Tokens.{
  Claims, Refusal, ok, refuse, jti_key, user_key, revoke_jti, revoke_user_tokens, is_jti_revoked,
  check_revocation, verify_token,
}

module _ (R : Redis ℕ) (decode : String → Option Claims) where
  open R use {Db, get, get-set_ex, set_ex}

  -- A token with an id that was revoked is refused as revoked, from a header, as long as the entry
  -- lasts and Redis answers.
  pub revoked_jti_refused :
      (now t ttl : ℕ) (jti raw : String) (cookie : Option String) (claims : Claims) (user_up : Bool)
      (db : Db)
      → str_eq jti "" ≡ false
      → decode raw ≡ some claims
      → claims.jti ≡ some jti
      → now ≤ t
      → t < now + ttl
      → verify_token R decode t true user_up (some raw) cookie (revoke_jti R now jti ttl db).1
        ≡ refuse Refusal.token_revoked
  unfolding verify_token check_revocation revoke_jti
  revoked_jti_refused now t ttl jti raw cookie claims user_up db named dec has l lt =
      ground
        (arith, get-set_ex t now (jti_key jti) (jti_key jti) 1 ttl db l, str_eq_refl (jti_key jti))

  -- After the tokens of a user are revoked, while the entry lasts and Redis answers, a token of that
  -- user whose own id is not revoked is refused exactly if it was issued before the second of the
  -- revocation, and its issue time is not 0.
  pub revoked_user_exact :
      (now t ttl : ℕ) (user raw : String) (cookie : Option String) (claims : Claims) (db : Db)
      → str_eq user "" ≡ false
      → decode raw ≡ some claims
      → claims.sub ≡ some user
      → is_jti_revoked R t claims.jti (revoke_user_tokens R now user ttl db).1 ≡ false
      → now ≤ t
      → t < now + ttl
      → verify_token R decode t true true (some raw) cookie (revoke_user_tokens R now user ttl db).1
        ≡ (if not (claims.iat == 0) && ltb claims.iat now
            then refuse Refusal.all_user_tokens_revoked
            else ok claims)
  unfolding verify_token check_revocation revoke_user_tokens
  revoked_user_exact now t ttl user raw cookie claims db named dec has clear l lt = ground (
    arith,
    get-set_ex t now (user_key user) (user_key user) now ttl db l,
    str_eq_refl (user_key user),
  )
