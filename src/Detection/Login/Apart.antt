-- ===== src/Detection/Login/Apart.antt =====
-- backend/app/redis_kv/keys.py: the keys of the rules on logins of one tenant are different.
use Prim.Native.Char.{code}
use Prim.Native.String.append
use text.Mathlib.TextLemmas.{append_cancel_left}
use infra_red.Prelude.{
  ℕ, zero, suc, ◌≡◌, ◌≢◌, refl, sym, ap, ◌∙◌, String, Bool, true, false, str_eq, eq_iff, Bool-cases,
  inl, inr, arith,
}
use infra_red.Prelude.Format.{◌^^◌}
use infra_red.Detection.Login.Keys.{
  auth_fail_ip, auth_fail_user_ip, auth_invalid_user, auth_stuffing_user_to_ips,
  auth_stuffing_ip_to_users,
}

-- the character of a text at a place
at : ℕ → String → ℕ
at n String.[] = 0
at zero (String.◌∷◌ c s) = code c
at (suc n) (String.◌∷◌ c s) = at n s

longer : ℕ → String → Bool
longer n String.[] = false
longer zero (String.◌∷◌ c s) = true
longer (suc n) (String.◌∷◌ c s) = longer n s

at-append : (n : ℕ) (s t : String) → longer n s ≡ true → at n (s ^^ t) ≡ at n s
unfolding at longer
at-append n String.[] t h = cc h
at-append zero (String.◌∷◌ c s) t h = ap (at zero) (append.cons c s t)
at-append (suc n) (String.◌∷◌ c s) t h = ap (at (suc n)) (append.cons c s t) ∙ at-append n s t h

-- keys of one tenant whose next texts differ at a place are different
apart :
    (n : ℕ) (tenant s t x y : String)
    → longer n s ≡ true
    → longer n t ≡ true
    → at n s ≢ at n t
    → str_eq (("tenant:" ^^ tenant) ^^ s ^^ x) (("tenant:" ^^ tenant) ^^ t ^^ y) ≡ false
apart n tenant s t x y l m d =
    elim (Bool-cases (str_eq (("tenant:" ^^ tenant) ^^ s ^^ x) (("tenant:" ^^ tenant) ^^ t ^^ y))) [
      | inl e ↦
          let q : s ^^ x ≡ t ^^ y =
            append_cancel_left ("tenant:" ^^ tenant) (s ^^ x) (t ^^ y) ((eq_iff _ _).0 e) in
          absurd (d (sym (at-append n s x l) ∙ ap (at n) q ∙ at-append n t y m))
      | inr e ↦ e
    ]

module _ (tenant asset user ip : String) where
  pub fail_keys_differ :
      str_eq (auth_fail_user_ip tenant asset user ip) (auth_fail_ip tenant asset ip) ≡ false
  unfolding auth_fail_user_ip auth_fail_ip at longer
  fail_keys_differ =
      apart 11 tenant ":auth:fail:user_ip:" ":auth:fail:ip:" _ _ refl refl (λ e. omega (arith, e))

  pub invalid_keys_differ :
      str_eq (auth_fail_user_ip tenant asset user ip) (auth_invalid_user tenant asset ip) ≡ false
  unfolding auth_fail_user_ip auth_invalid_user at longer
  invalid_keys_differ =
      apart 6 tenant ":auth:fail:user_ip:" ":auth:invalid:" _ _ refl refl (λ e. omega (arith, e))

  pub stuffing_keys_differ :
      (str_eq (auth_fail_user_ip tenant asset user ip) (auth_stuffing_user_to_ips tenant asset user)
        ≡ false)
      × (str_eq (auth_fail_user_ip tenant asset user ip) (auth_stuffing_ip_to_users tenant asset ip)
          ≡ false)
  unfolding auth_fail_user_ip auth_stuffing_user_to_ips auth_stuffing_ip_to_users at longer
  stuffing_keys_differ = (
    apart 6 tenant ":auth:fail:user_ip:" ":auth:stuffing:user_to_ips:" _ _ refl refl
        (λ e. omega (arith, e)),
    apart 6 tenant ":auth:fail:user_ip:" ":auth:stuffing:ip_to_users:" _ _ refl refl
        (λ e. omega (arith, e)),
  )
