-- ===== src/Agent/Commander/Life.antt =====
-- The life of a block: its rule, its time and its end.
use infra_red.Prelude.{
  ℕ, ◌≡◌, String, Bool, true, false, ◌&&◌, ◌||◌, List, [], ◌∷◌, str_eq, eq_iff, Bool-cases, inl,
  inr, subst, arith, if◌then◌else◌,
}
use infra_red.Prelude.Dict.{put, pop}
use infra_red.Agent.Commander.{Host, Rule, commented, delete_rule, unblock_ip, unblock_all}

-- Is there a rule of a block of the address, that is, one with a comment?
abbrev pub has_block : List Rule → String → Bool
has_block [] ip = false
has_block (r ∷ rules) ip = (str_eq r.source ip && commented r.comment) || has_block rules ip

-- every tracked address has the rule of its block
abbrev pub Ruled : List Rule → List (String × ℕ) → Type 0
Ruled rules [] = Unit
Ruled rules ((ip, exp) ∷ d) = (has_block rules ip ≡ true) × Ruled rules d

-- each address is tracked once
abbrev pub Absent : String → List (String × ℕ) → Type 0
Absent ip [] = Unit
Absent ip ((j, exp) ∷ d) = (str_eq j ip ≡ false) × Absent ip d

abbrev pub Once : List (String × ℕ) → Type 0
Once [] = Unit
Once ((ip, exp) ∷ d) = Absent ip d × Once d

pub record Backed (h : Host) : Type 0 where
  pub ruled : Ruled h.drop_rules h.blocked_ips
  pub once : Once h.blocked_ips

pub Ruled-more :
    (ip : Rule) (rules : List Rule) (d : List (String × ℕ)) → Ruled rules d → Ruled (ip ∷ rules) d
Ruled-more ip rules [] r = tt
Ruled-more ip rules ((j, exp) ∷ d) r = (ground (arith, r.0), Ruled-more ip rules d r.1)

put-Absent :
    (ip k : String) (exp : ℕ) (d : List (String × ℕ))
    → str_eq k ip ≡ false
    → Absent ip d
    → Absent ip (put k exp d)
put-Absent ip k exp [] n a = (n, tt)
put-Absent ip k exp ((j, e) ∷ d) n a = ground (arith, n, a.0, put-Absent ip k exp d n a.1)

pub put-Once : (k : String) (exp : ℕ) (d : List (String × ℕ)) → Once d → Once (put k exp d)
put-Once k exp [] o = (tt, tt)
put-Once k exp ((j, e) ∷ d) o = elim (Bool-cases (str_eq j k)) [
  | inl same ↦ rw same (subst (λ (x : String). Absent x d) ((eq_iff j k).0 same) o.0, o.1)
  | inr other ↦ rw other (
    put-Absent j k exp d (ground (arith, eq_iff j k, eq_iff k j, other)) o.0,
    put-Once k exp d o.1,
  )
]

pub put-Ruled :
    (k : String) (exp : ℕ) (rules : List Rule) (d : List (String × ℕ))
    → has_block rules k ≡ true
    → Ruled rules d
    → Ruled rules (put k exp d)
put-Ruled k exp rules [] c r = (c, tt)
put-Ruled k exp rules ((j, e) ∷ d) c r = ground (arith, c, r.0, r.1, put-Ruled k exp rules d c r.1)

-- a deletion that names no comment leaves the rules of the blocks
pub has_block-delete_rule :
    (ip j : String) (rules : List Rule)
    → has_block rules j ≡ true
    → has_block (delete_rule ip rules) j ≡ true
has_block-delete_rule ip j [] c = cc c
has_block-delete_rule ip j (r ∷ rules) c = elim (Bool-cases (commented r.comment)) [
  | inl y ↦ rw y (ground (arith, y, c, has_block-delete_rule ip j rules))
  | inr n ↦ ground (arith, n, c, has_block-delete_rule ip j rules)
]

Ruled-delete_rule :
    (ip : String) (rules : List Rule) (d : List (String × ℕ))
    → Ruled rules d
    → Ruled (delete_rule ip rules) d
Ruled-delete_rule ip rules [] r = tt
Ruled-delete_rule ip rules ((j, exp) ∷ d) r =
    (has_block-delete_rule ip j rules r.0, Ruled-delete_rule ip rules d r.1)

pop-Ruled :
    (ip : String) (rules : List Rule) (d : List (String × ℕ))
    → Ruled rules d
    → Ruled rules (pop ip d)
pop-Ruled ip rules [] r = tt
pop-Ruled ip rules ((j, exp) ∷ d) r = ground (arith, r.0, r.1, pop-Ruled ip rules d r.1)

pub pop-Absent_other : (i ip : String) (d : List (String × ℕ)) → Absent i d → Absent i (pop ip d)
pop-Absent_other i ip [] a = tt
pop-Absent_other i ip ((j, exp) ∷ d) a = ground (arith, a.0, a.1, pop-Absent_other i ip d a.1)

pub pop-Once : (ip : String) (d : List (String × ℕ)) → Once d → Once (pop ip d)
pop-Once ip [] o = tt
pop-Once ip ((j, exp) ∷ d) o = ground (arith, o.1, pop-Absent_other j ip d o.0, pop-Once ip d o.1)

-- with each address tracked once, what is popped is gone
pub pop-Absent : (ip : String) (d : List (String × ℕ)) → Once d → Absent ip (pop ip d)
pop-Absent ip [] o = tt
pop-Absent ip ((j, exp) ∷ d) o = elim (Bool-cases (str_eq j ip)) [
  | inl same ↦ rw same (subst (λ (x : String). Absent x d) ((eq_iff j ip).0 same) o.0)
  | inr other ↦ rw other (other, pop-Absent ip d o.1)
]

unblock_ip-Backed :
    (deletes : String → Bool) (ip : String) (h : Host) → Backed h → Backed (unblock_ip deletes ip h)
unfolding unblock_ip
unblock_ip-Backed deletes ip h b = record {
  ruled = either (deletes ip);
  once = pop-Once ip h.blocked_ips b.once;
}
  where
    either :
        (worked : Bool)
        → Ruled
            (if worked then delete_rule ip h.drop_rules else h.drop_rules)
            (pop ip h.blocked_ips)
    either true =
        Ruled-delete_rule ip h.drop_rules (pop ip h.blocked_ips)
          (pop-Ruled ip h.drop_rules h.blocked_ips b.ruled)
    either false = pop-Ruled ip h.drop_rules h.blocked_ips b.ruled

pub unblock_all-Backed :
    (deletes : String → Bool) (ips : List String) (h : Host)
    → Backed h
    → Backed (unblock_all deletes ips h)
unfolding unblock_all
unblock_all-Backed deletes [] h b = b
unblock_all-Backed deletes (ip ∷ ips) h b =
    unblock_all-Backed deletes ips (unblock_ip deletes ip h) (unblock_ip-Backed deletes ip h b)
