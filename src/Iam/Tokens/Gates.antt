-- ===== src/Iam/Tokens/Gates.antt =====
-- backend/app/iam/security.py: the gates for agents and for users.
use infra_red.Prelude.{
  ◌≡◌, ◌↔◌, refl, ap, String, true, false, Option, some, none, [], ◌∷◌, contains, or_else, str_eq,
  eq_iff, Bool-cases, inl, inr, arith,
}
use infra_red.Iam.Tokens.{Claims, ok, verify_agent_token, verify_user_token}

-- the two tests on the role
named :
    (r : String)
    → contains ("agent" ∷ "watchdog" ∷ []) r ≡ true
    → str_eq r "agent" ≡ false
    → r ≡ "watchdog"
named r a u = (eq_iff r "watchdog").0 (ground arith)

role_of :
    (role : Option String)
    → contains ("agent" ∷ "watchdog" ∷ []) (or_else role "") ≡ true
    → str_eq (or_else role "") "agent" ≡ false
    → role ≡ some "watchdog"
role_of none a u = absurd (ground arith)
role_of (some r) a u = ap some (named r a u)

agent_test :
    (claims : Claims)
    → verify_agent_token claims ≡ ok claims
    → contains ("agent" ∷ "watchdog" ∷ []) (or_else claims.role "") ≡ true
unfolding verify_agent_token
agent_test claims h =
    elim (Bool-cases (contains ("agent" ∷ "watchdog" ∷ []) (or_else claims.role ""))) [
      | inl e ↦ e
      | inr e ↦ absurd (ground (arith, h, e))
    ]

user_test :
    (claims : Claims)
    → verify_user_token claims ≡ ok claims
    → str_eq (or_else claims.role "") "agent" ≡ false
unfolding verify_user_token
user_test claims h = ground (arith, h)

passes :
    (claims : Claims)
    → claims.role ≡ some "watchdog"
    → (verify_agent_token claims ≡ ok claims) × (verify_user_token claims ≡ ok claims)
unfolding verify_agent_token verify_user_token
passes claims e = (rw e refl, rw e refl)

-- The claims that pass both as an agent's and as a user's are exactly those of the watchdog.
pub both_gates_iff :
    (claims : Claims)
    → ((verify_agent_token claims ≡ ok claims) × (verify_user_token claims ≡ ok claims))
      ↔ (claims.role ≡ some "watchdog")
both_gates_iff claims =
    (λ h. role_of claims.role (agent_test claims h.0) (user_test claims h.1), passes claims)
