-- ===== src/Tests/Host.antt =====
-- Runs of agent/infrared_agent/jit_ssh.py and commander.py.
use infra_red.Prelude.{
  ℕ, ◌+◌, ◌≡◌, ◌⊎◌, refl, String, Bool, true, false, Option, none, some, [], ◌∷◌, arith, str_eq,
  if◌then◌else◌,
}
use infra_red.Prelude.Case.{is_in}
use infra_red.Prelude.Dict.{put, entry_of}
use infra_red.Response.Address.{Addr, v4, in_network}
use infra_red.Agent.JitSsh.{
  Entry, Manager, InjectCommand, revoked, marker, read_text, split_lines, inject_temp_key,
  do_revoke, revoke_temp_key, is_valid_pubkey, expire_round,
}
use infra_red.Agent.JitSsh.Revoke.{revoke-inject}
use infra_red.Agent.Commander.{
  Host, blocked, block_rule, block_ip, sweep, refused_loopback, refused_private, ttl_refreshed,
  effective_ttl,
}
use infra_red.Agent.Commander.Guards.{is_blocked, Blockable, block_ip-Blockable}
use infra_red.Agent.Commander.Life.{Absent, Backed, has_block}
use infra_red.Agent.Commander.Runs.{command, expiry, here, next, fresh_agent, Reach-Backed}
use infra_red.Agent.Commander.End.{sweeps, leaked_rule_stays}

abbrev b64 : String → Bool
b64 text = true

abbrev iso : ℕ → String
iso at = "2026-05-01T00:00:00"

abbrev empty_manager : Manager
empty_manager = record { entries = []; files = λ user. "ssh-rsa OWNER\n" ∷ [] }

-- a key of two lines
abbrev inject : InjectCommand
inject = record {
  id = some "cmd-1";
  public_key = some "ssh-ed25519 AAAA\nssh-rsa BBBB";
  ttl_minutes = some 90;
  user = none;
}

valid_key : is_valid_pubkey b64 "ssh-ed25519 AAAA" ≡ true
unfolding is_valid_pubkey
valid_key = refl

invalid_key : is_valid_pubkey b64 "ssh-dss AAAA" ≡ false
unfolding is_valid_pubkey
invalid_key = refl

-- the time is capped to an hour, and then ends
capped :
    (expire_round 3600 (inject_temp_key b64 iso 0 inject empty_manager).0).files "deploy"
    ≡ "ssh-rsa OWNER\n" ∷ "\n" ∷ "ssh-rsa BBBB\n" ∷ []
unfolding expire_round inject_temp_key marker read_text split_lines
capped = refl

-- a carriage return ends a line too: the second one of this key stays
carriage_return :
    (revoke_temp_key
        (some "cmd-1")
        (inject_temp_key b64 iso 5
          (record inject { public_key = some "ssh-rsa AAAA\rssh-rsa BBBB" })
          empty_manager).0).0.files
      "deploy"
    ≡ "ssh-rsa OWNER\n" ∷ "\n" ∷ "ssh-rsa BBBB\n" ∷ []
unfolding revoke_temp_key inject_temp_key marker read_text split_lines
carriage_return = refl

revoke-inject_example :
    let out = revoke_temp_key (some "cmd-1") (inject_temp_key b64 iso 5 inject empty_manager).0 in
    (out.1 ≡ revoked)
    × (out.0.files "deploy" ≡ "ssh-rsa OWNER\n" ∷ "\n" ∷ "ssh-rsa BBBB\n" ∷ [])
    × (out.0.files "root" ≡ "ssh-rsa OWNER\n" ∷ [])
unfolding is_valid_pubkey marker read_text split_lines is_in
revoke-inject_example =
    revoke-inject b64 iso 5 inject "cmd-1" "ssh-ed25519 AAAA\n" ("ssh-rsa BBBB\n" ∷ [])
      empty_manager "root" refl refl refl refl (refl, tt) (refl, tt) refl

abbrev first_entry : Entry
first_entry = record {
  command_id = "cmd-1";
  target_user = "deploy";
  public_key = "ssh-rsa A";
  expires_at = 9;
}

abbrev crowded : Manager
crowded = record {
  entries = [];
  files = λ user. "ssh-rsa OWNER\n" ∷ marker iso 9 "cmd-12" ∷ "ssh-rsa B\n" ∷ [];
}

part_of_id : (do_revoke first_entry crowded).files "deploy" ≡ "ssh-rsa OWNER\n" ∷ []
unfolding do_revoke is_in marker
part_of_id = refl

abbrev ip_address : String → Option Addr
ip_address text =
    if str_eq text "8.8.8.8"
    then some (v4 0x08080808)
    else if str_eq text "10.0.0.7"
    then some (v4 0x0a000007)
    else some (v4 0x7f000001)

abbrev host : Host
host = fresh_agent []

loopback : (block_ip ip_address [] true 0 "127.0.0.1" none host).1 ≡ refused_loopback
unfolding block_ip
loopback = refl

private_address : (block_ip ip_address [] true 0 "10.0.0.7" none host).1 ≡ refused_private
unfolding block_ip in_network
private_address = refl

abbrev one_block : Host
one_block = record {
  blocked_ips = ("8.8.8.8", 1800) ∷ [];
  drop_rules = block_rule "8.8.8.8" 1800 ∷ [];
}

again : (block_ip ip_address [] true 5 "8.8.8.8" (some 60) one_block).1 ≡ ttl_refreshed 60
unfolding block_ip in_network
again = refl

block_ip-Blockable_example :
    let out = block_ip ip_address [] true 0 "8.8.8.8" none host in
    ((out.0.drop_rules ≡ []) × (is_blocked out.1 ≡ false))
    ⊎ ((addr : Addr) × (ip_address "8.8.8.8" ≡ some addr)
        × Blockable [] addr
        × (entry_of "8.8.8.8" host.blocked_ips ≡ none)
        × (out.1 ≡ blocked 1800)
        × (out.0 ≡ record {
          blocked_ips = put "8.8.8.8" (0 + effective_ttl none) [];
          drop_rules = block_rule "8.8.8.8" 1800 ∷ [];
        }))
block_ip-Blockable_example = block_ip-Blockable ip_address [] true 0 "8.8.8.8" none host

Reach-Backed_example :
    Backed (sweep (λ ip. false) 1800 (block_ip ip_address [] true 0 "8.8.8.8" none host).0)
Reach-Backed_example =
    Reach-Backed ip_address [] []
      (sweep (λ ip. false) 1800 (block_ip ip_address [] true 0 "8.8.8.8" none host).0)
      (next (next here (command host true 0 "8.8.8.8" none))
        (expiry (block_ip ip_address [] true 0 "8.8.8.8" none host).0 (λ ip. false) 1800))

-- the answer says that the deletions work, and the rule stays
leaked_rule_stays_example :
    let after = sweeps ((λ ip. true, 1800) ∷ (λ ip. true, 1860) ∷ []) one_block in
    (has_block after.drop_rules "8.8.8.8" ≡ true) × Absent "8.8.8.8" after.blocked_ips
unfolding block_rule
leaked_rule_stays_example =
    leaked_rule_stays "8.8.8.8" (λ ip. true) 1800 1800 one_block ((λ ip. true, 1860) ∷ [])
      (record { ruled = (refl, tt); once = (tt, tt) }) refl (omega arith)

-- a rule without a comment, which something else made, is the one that is deleted
other_rule_deleted :
    (sweep
      (λ ip. true)
      1800
      (record one_block {
        drop_rules = block_rule "8.8.8.8" 1800 ∷ record { source = "8.8.8.8"; comment = none } ∷ [];
      })).drop_rules
    ≡ block_rule "8.8.8.8" 1800 ∷ []
unfolding sweep block_rule
other_rule_deleted = refl
