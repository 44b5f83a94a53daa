-- ===== src/Agent/Commander/End.antt =====
-- The end of a block: what the sweeps leave of it.
use infra_red.Prelude.{
  ℕ, ◌≤◌, ◌≡◌, String, Bool, true, false, some, List, [], ◌∷◌, str_eq, str_eq_refl, eq_iff,
  contains, Bool-cases, inl, inr, subst, arith, if◌then◌else◌,
}
use infra_red.Prelude.Dict.{pop, entry_of}
use infra_red.Agent.Commander.{Host, delete_rule, unblock_ip, expired, unblock_all, sweep}
use infra_red.Agent.Commander.Life.{
  Absent, Once, Backed, has_block, has_block-delete_rule, pop-Absent, pop-Absent_other, pop-Once,
}
use infra_red.Agent.Commander.Runs.{entry-Ruled}

-- sweeps, each with its answers of iptables and its time
unfoldable pub sweeps : List ((String → Bool) × ℕ) → Host → Host
unfolding sweep
sweeps [] h = h
sweeps ((deletes, t) ∷ later) h = sweeps later (sweep deletes t h)

module _ (ip : String) where
  unblock_all-keeps :
      (deletes : String → Bool) (ips : List String) (h : Host)
      → has_block h.drop_rules ip ≡ true
      → has_block (unblock_all deletes ips h).drop_rules ip ≡ true
  unfolding unblock_all unblock_ip
  unblock_all-keeps deletes [] h c = c
  unblock_all-keeps deletes (j ∷ ips) h c =
      unblock_all-keeps deletes ips (unblock_ip deletes j h) (kept (deletes j))
    where
      kept :
          (works : Bool)
          → has_block (if works then delete_rule j h.drop_rules else h.drop_rules) ip ≡ true
      kept false = c
      kept true = has_block-delete_rule j ip h.drop_rules c

  unblock_all-Absent :
      (deletes : String → Bool) (ips : List String) (h : Host)
      → Absent ip h.blocked_ips
      → Absent ip (unblock_all deletes ips h).blocked_ips
  unfolding unblock_all unblock_ip
  unblock_all-Absent deletes [] h a = a
  unblock_all-Absent deletes (j ∷ ips) h a =
      unblock_all-Absent deletes ips (unblock_ip deletes j h)
        (pop-Absent_other ip j h.blocked_ips a)

  unblock_all-gone :
      (deletes : String → Bool) (ips : List String) (h : Host)
      → Once h.blocked_ips
      → contains ips ip ≡ true
      → Absent ip (unblock_all deletes ips h).blocked_ips
  unfolding unblock_all unblock_ip
  unblock_all-gone deletes [] h o c = cc c
  unblock_all-gone deletes (j ∷ ips) h o c = elim (Bool-cases (str_eq ip j)) [
    | inl same ↦ unblock_all-Absent deletes ips (unblock_ip deletes j h) (
        subst (λ (x : String). Absent ip (pop x h.blocked_ips)) ((eq_iff ip j).0 same)
          (pop-Absent ip h.blocked_ips o))
    | inr other ↦
        unblock_all-gone deletes ips (unblock_ip deletes j h) (pop-Once j h.blocked_ips o)
          (rw other at c)
  ]

  -- an untracked address whose rule is there, after any sweeps
  sweeps-keep :
      (later : List ((String → Bool) × ℕ)) (h : Host)
      → Absent ip h.blocked_ips
      → has_block h.drop_rules ip ≡ true
      → (has_block (sweeps later h).drop_rules ip ≡ true) × Absent ip (sweeps later h).blocked_ips
  unfolding sweeps
  sweeps-keep [] h a c = (c, a)
  sweeps-keep ((deletes, t) ∷ later) h a c =
      sweeps-keep later (sweep deletes t h)
        (unblock_all-Absent deletes (expired t h.blocked_ips) h a)
        (unblock_all-keeps deletes (expired t h.blocked_ips) h c)

  expired-entry :
      (t exp : ℕ) (d : List (String × ℕ))
      → entry_of ip d ≡ some exp
      → exp ≤ t
      → contains (expired t d) ip ≡ true
  expired-entry t exp [] e h = cc e
  expired-entry t exp ((j, x) ∷ d) e h =
      ground (arith, str_eq_refl ip, eq_iff j ip, eq_iff ip j, e, h, expired-entry t exp d)

  -- Where a sweep comes at the end of a block or later, the rule of the block is there after it and after
  -- any number of later sweeps, whether iptables carries out the deletions or not, since they do not name
  -- the comment of the rule; and the address is no longer tracked, so that no later sweep asks for it.
  pub leaked_rule_stays :
      (deletes : String → Bool) (t exp : ℕ) (h : Host) (later : List ((String → Bool) × ℕ))
      → Backed h
      → entry_of ip h.blocked_ips ≡ some exp
      → exp ≤ t
      → (has_block (sweeps ((deletes, t) ∷ later) h).drop_rules ip ≡ true)
        × Absent ip (sweeps ((deletes, t) ∷ later) h).blocked_ips
  unfolding sweeps
  leaked_rule_stays deletes t exp h later b e l =
      sweeps-keep later (sweep deletes t h)
        (unblock_all-gone deletes (expired t h.blocked_ips) h b.once
          (expired-entry t exp h.blocked_ips e l))
        (unblock_all-keeps deletes (expired t h.blocked_ips) h
          (entry-Ruled ip exp h.drop_rules h.blocked_ips b.ruled e))
