-- ===== src/Detection/Intake/Lost.antt =====
-- The web requests of the agent: agent/infrared_agent/nginx_tailer.py sends them with the type
-- WEB_REQUEST and the source nginx.log.
use infra_red.Prelude.{◌+◌, ◌≤◌, ◌<◌, ◌≡◌, refl, ◌∙◌, String, false, none, some, str_eq_refl, arith}
use infra_red.Prelude.Format.{or_empty}
use infra_red.Prelude.Case.{lower}
use infra_red.Redis.{Redis}
use infra_red.Redis.Sorted.{Sorted}
use infra_red.Detection.Intake.{
  Envelope, Patterns, value_error, parse_auth_log, by_message, by_type, is_agent_event,
  is_nginx_source, event_type_of, event_type_value,
}
use infra_red.Detection.Intake.Process.{
  Env, Parts, Board, duplicate, raised, event_dedup, process_new, process_parsed, process_payload,
}

-- what `nginx_tailer.py` writes into an envelope
pub record FromTailer (e : Envelope) : Type 0 where
  pub kind : e.event_type ≡ some "WEB_REQUEST"
  pub source : e.raw_source ≡ some "nginx.log"

-- a line in which no message of sshd is found
pub record NoMessage (p : Patterns) (line : String) : Type 0 where
  pub prefix : p.auth_prefix line ≡ none
  pub accepted : p.accepted_password line ≡ none
  pub failed_invalid : p.failed_invalid line ≡ none
  pub failed : p.failed_password line ≡ none
  pub invalid : p.invalid_user line ≡ none

no_agent : (e : Envelope) → FromTailer e → is_agent_event e ≡ false
unfolding is_agent_event lower
no_agent e t = rw t.source refl

no_nginx : (e : Envelope) → FromTailer e → is_nginx_source e ≡ false
unfolding is_nginx_source lower
no_nginx e t = rw (t.kind, t.source) refl

no_type :
    (p : Patterns) (asset : String) (e : Envelope)
    → FromTailer e
    → NoMessage p (or_empty e.raw_line)
    → parse_auth_log p asset e ≡ value_error
unfolding parse_auth_log by_message by_type event_type_of event_type_value
no_type p asset e t n =
    rw
      (
        parse_auth_log, n.prefix, by_message, n.accepted, n.failed_invalid, n.failed, n.invalid,
        by_type, t.kind,
      )
      refl

module _ {R : Redis String} (Z : Sorted R) (p : Parts) (env again : Env) (e : Envelope) where
  abbrev noted : Board R → Board R
  noted b = record b {
    kv = R.set_ex env.now (event_dedup Z p e.tenant_id e.event_id) "1" env.dedup_ttl_seconds b.kv;
  }

  first_lem :
      (b : Board R)
      → FromTailer e
      → NoMessage p.patterns (or_empty e.raw_line)
      → R.get env.now (event_dedup Z p e.tenant_id e.event_id) b.kv ≡ none
      → process_payload Z p env e b ≡ (noted b, raised)
  unfolding process_payload process_new process_parsed
  first_lem b t n new =
      rw
        (
          process_payload,
          new,
          process_new,
          no_agent e t,
          no_nginx e t,
          no_type p.patterns p.default_asset e t n,
        )
        refl

  again_lem :
      (b : Board R)
      → R.get again.now (event_dedup Z p e.tenant_id e.event_id) b.kv ≡ some "1"
      → process_payload Z p again e b ≡ (b, duplicate)
  unfolding process_payload
  again_lem b seen = rw (process_payload, seen) refl

  -- An envelope as the tailer of nginx writes it, with a line in which no message of sshd is found, that is
  -- not taken for a duplicate: the call raises, saves no event and hands on no signal. A later call within
  -- the life of the deduplication key takes it for a duplicate and returns, with everything as the first
  -- call left it.
  pub nginx_request_lost :
      (b : Board R)
      → FromTailer e
      → NoMessage p.patterns (or_empty e.raw_line)
      → R.get env.now (event_dedup Z p e.tenant_id e.event_id) b.kv ≡ none
      → env.now ≤ again.now
      → again.now < env.now + env.dedup_ttl_seconds
      → let first = process_payload Z p env e b in
        (first.1 ≡ raised)
        × (first.0.events ≡ b.events)
        × (first.0.matched ≡ b.matched)
        × (process_payload Z p again e first.0 ≡ (first.0, duplicate))
  nginx_request_lost b t n new l h =
      let q = first_lem b t n new in
      let key = event_dedup Z p e.tenant_id e.event_id in
      let seen : R.get again.now key (noted b).kv ≡ some "1" =
        R.get-set_ex again.now env.now key key "1" env.dedup_ttl_seconds b.kv l
        ∙ ground (arith, str_eq_refl key, h) in
      rw q (refl, refl, refl, again_lem (noted b) seen)
