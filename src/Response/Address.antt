-- ===== src/Response/Address.antt =====
-- `_is_safe_ip` of backend/app/autoresponse/engine.py. An address is its number; a network is a
-- first address and the number of host bits. `ip_address` reads a text, and fails with `none`.
use infra_red.Prelude.{
  ℕ, ◌+◌, ◌*◌, ◌/◌, ◌^◌, ◌≤◌, ◌<◌, ◌≡◌, ◌↔◌, ◌⊎◌, String, Bool, true, false, Option, none, some,
  List, [], ◌∷◌, ◌==◌, arith, if◌then◌else◌,
}
use infra_red.Prelude.All.{any}
use infra_red.Prelude.Format.{truthy, text_or}

pub data Addr : Type 0 where
  v4 v6 : ℕ → Addr

pub data Network : Type 0 where
  net4 net6 : ℕ → ℕ → Network

-- `addr in net`
unfoldable pub in_network : Addr → Network → Bool
in_network (v4 n) (net4 base host) = n / 2 ^ host == base / 2 ^ host
in_network (v6 n) (net6 base host) = n / 2 ^ host == base / 2 ^ host
in_network _ _ = false

-- _SAFE_NETWORKS
abbrev pub safe_networks : List Network
safe_networks =
    net4 (10 * 2 ^ 24) 24
    ∷ net4 ((172 * 256 + 16) * 2 ^ 16) 20
    ∷ net4 ((192 * 256 + 168) * 2 ^ 16) 16
    ∷ net4 (127 * 2 ^ 24) 24
    ∷ net6 1 0
    ∷ []

-- `addr.is_loopback`
unfoldable pub is_loopback : Addr → Bool
is_loopback (v4 n) = n / 2 ^ 24 == 127
is_loopback (v6 n) = n == 1

abbrev pub in_any : Addr → List Network → Bool
in_any addr nets = any (in_network addr) nets

-- The part of `_is_safe_ip` after the parse.
unfoldable pub is_safe_addr : List Network → Addr → Bool
is_safe_addr demo_nets addr =
    if is_loopback addr
    then true
    else if in_any addr demo_nets
    then false
    else in_any addr safe_networks

unfoldable pub is_safe_ip : (String → Option Addr) → List Network → Option String → Bool
is_safe_ip ip_address demo_nets ip =
    if truthy ip
    then elim (ip_address (text_or ip "")) [ none ↦ true | some addr ↦ is_safe_addr demo_nets addr ]
    else true

-- In a block of `size` addresses from `first` on.
abbrev pub InBlock : ℕ → ℕ → ℕ → Type 0
InBlock first size n = (first ≤ n) × (n < first + size)

-- With no demonstration networks, exactly the addresses of 10/8, 172.16/12, 192.168/16 and 127/8 are
-- safe from a block among those of IPv4.
pub safe_v4_iff :
    (n : ℕ)
    → (is_safe_addr [] (v4 n) ≡ true) ↔ (
        InBlock 167772160 16777216 n
        ⊎ InBlock 2886729728 1048576 n
        ⊎ InBlock 3232235520 65536 n
        ⊎ InBlock 2130706432 16777216 n)
unfolding is_safe_addr is_loopback in_network
safe_v4_iff n = ground arith

-- A loopback address is safe whatever the demonstration networks are.
pub loopback_safe :
    (nets : List Network) (n : ℕ) → InBlock 2130706432 16777216 n → is_safe_addr nets (v4 n) ≡ true
unfolding is_safe_addr is_loopback
loopback_safe nets n h = ground arith
