-- ===== src/Agent/Commander.antt =====
-- agent/infrared_agent/commander.py: the commands of the backend on the firewall of the host. Times are
-- seconds. `ip_address` reads a text. `accepts` and `deletes` say whether iptables carries out a command; a
-- deletion also fails where no rule is the one that it names, its comment included.
pub mod Guards
pub mod Life
pub mod Runs
pub mod End
use infra_red.Prelude.{
  ℕ, ◌+◌, ◌*◌, ◌^◌, String, Bool, true, false, not, ◌&&◌, Option, none, some, List, [], ◌∷◌, leb,
  ◌==◌, str_eq, contains, if◌then◌else◌,
}
use infra_red.Prelude.Format.{◌^^◌, show}
use infra_red.Prelude.Dict.{put, pop, entry_of}
use infra_red.Response.Address.{Addr, Network, net4, net6, is_loopback, in_any}

-- The networks of `addr.is_private`.
abbrev octets : ℕ → ℕ → ℕ → ℕ → ℕ
octets a b c d = ((a * 256 + b) * 256 + c) * 256 + d

abbrev pub private_networks : List Network
private_networks =
    net4 0 24
    ∷ net4 (octets 10 0 0 0) 24
    ∷ net4 (octets 127 0 0 0) 24
    ∷ net4 (octets 169 254 0 0) 16
    ∷ net4 (octets 172 16 0 0) 20
    ∷ net4 (octets 192 0 0 0) 3
    ∷ net4 (octets 192 0 0 170) 1
    ∷ net4 (octets 192 0 2 0) 8
    ∷ net4 (octets 192 168 0 0) 16
    ∷ net4 (octets 198 18 0 0) 17
    ∷ net4 (octets 198 51 100 0) 8
    ∷ net4 (octets 203 0 113 0) 8
    ∷ net4 (octets 240 0 0 0) 28
    ∷ net4 (octets 255 255 255 255) 0
    ∷ net6 1 0
    ∷ net6 0 0
    ∷ net6 (0xffff * 2 ^ 32) 32
    ∷ net6 (0x0100 * 2 ^ 112) 64
    ∷ net6 (0x2001 * 2 ^ 112) 105
    ∷ net6 (0x2001_0002 * 2 ^ 96) 80
    ∷ net6 (0x2001_0db8 * 2 ^ 96) 96
    ∷ net6 (0x2001_0010 * 2 ^ 96) 100
    ∷ net6 (0xfc00 * 2 ^ 112) 121
    ∷ net6 (0xfe80 * 2 ^ 112) 118
    ∷ []

-- a DROP rule of the chain INPUT: its source, and the text of its match on a comment, if it has one
pub record Rule : Type 0 where
  pub source : String
  pub comment : Option String

-- BLOCKED_IPS, and the DROP rules of the chain INPUT, the first one first
pub record Host : Type 0 where
  pub blocked_ips : List (String × ℕ)
  pub drop_rules : List Rule

-- the answers of `_block_ip`, with the seconds that they name
pub data Reply : Type 0 where
  invalid_address refused_loopback refused_private iptables_failed : Reply
  ttl_refreshed blocked : ℕ → Reply

-- the rule of `iptables -I INPUT 1 -s ip -j DROP -m comment --comment infrared-block-ttl=..`
unfoldable pub block_rule : String → ℕ → Rule
block_rule ip ttl = record { source = ip; comment = some ("infrared-block-ttl=" ^^ show ttl) }

-- `_block_ip`, where the address may be blocked: from the end of its time, if it is tracked
unfoldable pub block_from : Option ℕ → Bool → ℕ → ℕ → String → Host → Host × Reply
block_from (some old) accepts now ttl ip h =
    (record h { blocked_ips = put ip (now + ttl) h.blocked_ips }, ttl_refreshed ttl)
block_from none accepts now ttl ip h =
    if accepts
    then (
      record {
        blocked_ips = put ip (now + ttl) h.blocked_ips;
        drop_rules = block_rule ip ttl ∷ h.drop_rules;
      },
      blocked ttl,
    )
    else (h, iptables_failed)

abbrev pub effective_ttl : Option ℕ → ℕ
effective_ttl none = 1800
effective_ttl (some s) = if s == 0 then 1800 else s

-- `_block_ip`, from what its text is read as
unfoldable pub block_addr :
    Option Addr → List Network → Bool → ℕ → String → Option ℕ → Host → Host × Reply
unfolding block_from is_loopback
block_addr none demo_cidrs accepts now ip ttl_seconds h = (h, invalid_address)
block_addr (some addr) demo_cidrs accepts now ip ttl_seconds h =
    if is_loopback addr
    then (h, refused_loopback)
    else if in_any addr private_networks && not (in_any addr demo_cidrs)
    then (h, refused_private)
    else block_from (entry_of ip h.blocked_ips) accepts now (effective_ttl ttl_seconds) ip h

-- `_block_ip`
unfoldable pub block_ip :
    (String → Option Addr) → List Network → Bool → ℕ → String → Option ℕ → Host → Host × Reply
unfolding block_addr
block_ip ip_address demo_cidrs accepts now ip ttl_seconds h =
    block_addr (ip_address ip) demo_cidrs accepts now ip ttl_seconds h

-- Does the rule have a match on a comment?
abbrev pub commented : Option String → Bool
commented none = false
commented (some text) = true

-- `iptables -D INPUT -s ip -j DROP`: the first rule that is the one named, which has no comment
abbrev pub delete_rule : String → List Rule → List Rule
delete_rule ip [] = []
delete_rule ip (r ∷ rules) =
    if str_eq r.source ip && not (commented r.comment) then rules else r ∷ delete_rule ip rules

-- `_unblock_ip`: the entry goes whether or not iptables deletes the rule
unfoldable pub unblock_ip : (String → Bool) → String → Host → Host
unblock_ip deletes ip h = record {
  blocked_ips = pop ip h.blocked_ips;
  drop_rules = if deletes ip then delete_rule ip h.drop_rules else h.drop_rules;
}

abbrev pub expired : ℕ → List (String × ℕ) → List String
expired now [] = []
expired now ((ip, exp) ∷ d) = let rest = expired now d in if leb exp now then ip ∷ rest else rest

unfoldable pub unblock_all : (String → Bool) → List String → Host → Host
unfolding unblock_ip
unblock_all deletes [] h = h
unblock_all deletes (ip ∷ ips) h = unblock_all deletes ips (unblock_ip deletes ip h)

-- one round of `ttl_expiry_loop`
unfoldable pub sweep : (String → Bool) → ℕ → Host → Host
unfolding unblock_all
sweep deletes now h = unblock_all deletes (expired now h.blocked_ips) h
