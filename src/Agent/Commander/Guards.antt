-- ===== src/Agent/Commander/Guards.antt =====
-- Which addresses the agent blocks.
use infra_red.Prelude.{
  ℕ, ◌+◌, ◌≡◌, ◌⊎◌, refl, String, Bool, true, false, not, ◌&&◌, Option, none, some, List, ◌∷◌, inl,
  inr, if◌then◌else◌,
}
use infra_red.Prelude.Dict.{put, entry_of}
use infra_red.Response.Address.{Addr, Network, is_loopback, in_any}
use infra_red.Agent.Commander.{
  Host, Reply, blocked, block_rule, block_from, block_addr, block_ip, effective_ttl,
  private_networks,
}

abbrev pub is_blocked : Reply → Bool
is_blocked (blocked ttl) = true
is_blocked _ = false

-- an address that the agent may block
abbrev pub Blockable : List Network → Addr → Type 0
Blockable demo_cidrs addr =
    (is_loopback addr ≡ false)
    × ((in_any addr private_networks ≡ false) ⊎ (in_any addr demo_cidrs ≡ true))

module _ (ip_address : String → Option Addr) (demo_cidrs : List Network) (accepts : Bool) (now : ℕ)
    (ip : String) (ttl_seconds : Option ℕ) (h : Host) where
  abbrev OnlyBlockable : Host × Reply → Type 0
  OnlyBlockable out =
      ((out.0.drop_rules ≡ h.drop_rules) × (is_blocked out.1 ≡ false))
      ⊎ ((addr : Addr) × (ip_address ip ≡ some addr)
          × Blockable demo_cidrs addr
          × (entry_of ip h.blocked_ips ≡ none)
          × (out.1 ≡ blocked (effective_ttl ttl_seconds))
          × (out.0 ≡ record {
            blocked_ips = put ip (now + effective_ttl ttl_seconds) h.blocked_ips;
            drop_rules = block_rule ip (effective_ttl ttl_seconds) ∷ h.drop_rules;
          }))

  from_lem :
      (addr : Addr) (tracked : Option ℕ)
      → ip_address ip ≡ some addr
      → Blockable demo_cidrs addr
      → entry_of ip h.blocked_ips ≡ tracked
      → OnlyBlockable (block_from tracked accepts now (effective_ttl ttl_seconds) ip h)
  unfolding block_from
  from_lem addr (some exp) p b e = inl (refl, refl)
  from_lem addr none p b e = made accepts
    where
      made :
          (worked : Bool)
          → OnlyBlockable (
              if worked
              then (
                record {
                  blocked_ips = put ip (now + effective_ttl ttl_seconds) h.blocked_ips;
                  drop_rules = block_rule ip (effective_ttl ttl_seconds) ∷ h.drop_rules;
                },
                blocked (effective_ttl ttl_seconds),
              )
              else (h, Reply.iptables_failed))
      made true = inr (addr, p, b, e, refl, refl)
      made false = inl (refl, refl)

  guarded :
      (own private demo : Bool) (out : Host × Reply)
      → (own ≡ false → (private ≡ false) ⊎ (demo ≡ true) → OnlyBlockable out)
      → OnlyBlockable (
          if own
          then (h, Reply.refused_loopback)
          else if private && not demo
          then (h, Reply.refused_private)
          else out)
  guarded true private demo out k = inl (refl, refl)
  guarded false true false out k = inl (refl, refl)
  guarded false true true out k = k refl (inr refl)
  guarded false false demo out k = k refl (inl refl)

  addr_lem :
      (parsed : Option Addr)
      → ip_address ip ≡ parsed
      → OnlyBlockable (block_addr parsed demo_cidrs accepts now ip ttl_seconds h)
  unfolding block_addr
  addr_lem none p = inl (refl, refl)
  addr_lem (some addr) p =
      guarded (is_loopback addr) (in_any addr private_networks) (in_any addr demo_cidrs) _
        (λ own open_. from_lem addr (entry_of ip h.blocked_ips) p (own, open_) refl)

-- A call either leaves the rules and does not answer that it blocked, or it makes one rule, with the time as
-- its comment, and answers so.
-- It does that only for the text of an address that is not of the host itself, that is not private unless
-- it is in a network of the demonstration, and that was not tracked; the address is then tracked to the
-- end of its time, 1800 seconds where none or 0 are given.
pub block_ip-Blockable :
    (ip_address : String → Option Addr) (demo_cidrs : List Network) (accepts : Bool) (now : ℕ)
    (ip : String) (ttl_seconds : Option ℕ) (h : Host)
    → let out = block_ip ip_address demo_cidrs accepts now ip ttl_seconds h in
      ((out.0.drop_rules ≡ h.drop_rules) × (is_blocked out.1 ≡ false))
      ⊎ ((addr : Addr) × (ip_address ip ≡ some addr)
          × Blockable demo_cidrs addr
          × (entry_of ip h.blocked_ips ≡ none)
          × (out.1 ≡ blocked (effective_ttl ttl_seconds))
          × (out.0 ≡ record {
            blocked_ips = put ip (now + effective_ttl ttl_seconds) h.blocked_ips;
            drop_rules = block_rule ip (effective_ttl ttl_seconds) ∷ h.drop_rules;
          }))
unfolding block_ip
block_ip-Blockable ip_address demo_cidrs accepts now ip ttl_seconds h =
    addr_lem ip_address demo_cidrs accepts now ip ttl_seconds h (ip_address ip) refl
