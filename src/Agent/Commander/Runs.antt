-- ===== src/Agent/Commander/Runs.antt =====
-- The host under any sequence of commands and sweeps.
use infra_red.Prelude.{
  ℕ, ◌+◌, ◌≡◌, refl, String, Bool, true, false, not, ◌&&◌, Option, none, some, List, [], ◌∷◌,
  str_eq, str_eq_refl, eq_iff, Bool-cases, inl, inr, subst, arith, if◌then◌else◌,
}
use infra_red.Prelude.Dict.{entry_of}
use infra_red.Response.Address.{Addr, Network, is_loopback, in_any}
use infra_red.Agent.Commander.{
  Host, Rule, Reply, block_rule, block_from, block_addr, block_ip, effective_ttl, expired, sweep,
  private_networks,
}
use infra_red.Agent.Commander.Life.{
  Ruled, Backed, has_block, Ruled-more, put-Ruled, put-Once, unblock_all-Backed,
}

-- a tracked address has a rule
pub entry-Ruled :
    (ip : String) (exp : ℕ) (rules : List Rule) (d : List (String × ℕ))
    → Ruled rules d
    → entry_of ip d ≡ some exp
    → has_block rules ip ≡ true
entry-Ruled ip exp rules [] r e = cc e
entry-Ruled ip exp rules ((j, x) ∷ d) r e = elim (Bool-cases (str_eq j ip)) [
  | inl same ↦ subst (λ (y : String). has_block rules y ≡ true) ((eq_iff j ip).0 same) r.0
  | inr other ↦ entry-Ruled ip exp rules d r.1 (rw other at e)
]

module _ (h : Host) (b : Backed h) where
  from-Backed :
      (tracked : Option ℕ) (accepts : Bool) (now ttl : ℕ) (ip : String)
      → entry_of ip h.blocked_ips ≡ tracked
      → Backed (block_from tracked accepts now ttl ip h).0
  unfolding block_from block_rule
  from-Backed (some exp) accepts now ttl ip e = record {
    ruled =
        put-Ruled ip (now + ttl) h.drop_rules h.blocked_ips
          (entry-Ruled ip exp h.drop_rules h.blocked_ips b.ruled e) b.ruled;
    once = put-Once ip (now + ttl) h.blocked_ips b.once;
  }
  from-Backed none true now ttl ip e = record {
    ruled =
        put-Ruled ip (now + ttl) (block_rule ip ttl ∷ h.drop_rules) h.blocked_ips
          (ground (arith, str_eq_refl ip))
          (Ruled-more (block_rule ip ttl) h.drop_rules h.blocked_ips b.ruled);
    once = put-Once ip (now + ttl) h.blocked_ips b.once;
  }
  from-Backed none false now ttl ip e = b

  addr-Backed :
      (parsed : Option Addr) (demo_cidrs : List Network) (accepts : Bool) (now : ℕ) (ip : String)
      (ttl_seconds : Option ℕ)
      → Backed (block_addr parsed demo_cidrs accepts now ip ttl_seconds h).0
  unfolding block_addr
  addr-Backed none demo_cidrs accepts now ip ttl_seconds = b
  addr-Backed (some addr) demo_cidrs accepts now ip ttl_seconds =
      guarded (is_loopback addr) (in_any addr private_networks && not (in_any addr demo_cidrs)) _ _
        (block_from (entry_of ip h.blocked_ips) accepts now (effective_ttl ttl_seconds) ip h)
        (from-Backed (entry_of ip h.blocked_ips) accepts now (effective_ttl ttl_seconds) ip refl)
    where
      guarded :
          (x y : Bool) (p q : Reply) (r : Host × Reply)
          → Backed r.0
          → (let out : Host × Reply = if x then (h, p) else if y then (h, q) else r in Backed out.0)
      guarded true y p q r k = b
      guarded false true p q r k = b
      guarded false false p q r k = k

-- the agent's two loops, in any order, with any answers of iptables
pub data Step (ip_address : String → Option Addr) (demo_cidrs : List Network)
    : Host → Host → Type 0 where
  command :
      (h : Host) (accepts : Bool) (now : ℕ) (ip : String) (ttl_seconds : Option ℕ)
      → Step ip_address demo_cidrs h (block_ip ip_address demo_cidrs accepts now ip ttl_seconds h).0
  expiry :
      (h : Host) (deletes : String → Bool) (now : ℕ)
      → Step ip_address demo_cidrs h (sweep deletes now h)

pub data Reach (ip_address : String → Option Addr) (demo_cidrs : List Network) (start : Host)
    : Host → Type 0 where
  here : Reach ip_address demo_cidrs start start
  next :
      {h k : Host}
      → Reach ip_address demo_cidrs start h
      → Step ip_address demo_cidrs h k
      → Reach ip_address demo_cidrs start k

-- the agent when it starts: nothing is tracked, whatever rules there are
abbrev pub fresh_agent : List Rule → Host
fresh_agent rules = record { blocked_ips = []; drop_rules = rules }

Step-Backed :
    {ip_address : String → Option Addr} {demo_cidrs : List Network} {h k : Host}
    → Step ip_address demo_cidrs h k
    → Backed h
    → Backed k
unfolding sweep block_ip
Step-Backed {ip_address} {demo_cidrs} (command h accepts now ip ttl_seconds) b =
    addr-Backed h b (ip_address ip) demo_cidrs accepts now ip ttl_seconds
Step-Backed (expiry h deletes now) b = unblock_all-Backed deletes (expired now h.blocked_ips) h b

-- However commands and sweeps follow one another from the start of the agent, and however iptables
-- answers, every address that is tracked has the rule of a block, and each is tracked once.
pub Reach-Backed :
    (ip_address : String → Option Addr) (demo_cidrs : List Network) (rules : List Rule) (h : Host)
    → Reach ip_address demo_cidrs (fresh_agent rules) h
    → Backed h
Reach-Backed ip_address demo_cidrs rules h here = record { ruled = tt; once = tt }
Reach-Backed ip_address demo_cidrs rules h (next r s) =
    Step-Backed s (Reach-Backed ip_address demo_cidrs rules _ r)
