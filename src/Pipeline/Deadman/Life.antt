-- ===== src/Pipeline/Deadman/Life.antt =====
-- backend/app/workers/deadman/switch.py: a switch from arming to its end.
use infra_red.Prelude.{
  ℕ, ◌-◌, ◌∙◌, ◌+◌, ◌≤◌, ◌<◌, ◌≡◌, refl, String, Bool, true, Option, none, some, ltb, str_eq,
  str_eq_refl, Bool-cases, inl, inr, arith, if◌then◌else◌,
}
use infra_red.Redis.{Redis}
use infra_red.Pipeline.Deadman.{
  Switch, SwitchStatus, Panel, switch_key, ttl_or_default, arm, disarm, get_status,
}

module _ (R : Redis Switch) (now : ℕ) (db_up : Bool) (id tenant asset : String)
    (ttl_seconds : Option ℕ) (p : Panel R) where
  open R use {get, set_ex, delete, get-set_ex, get-delete, ttl, ttl-set_ex}

  abbrev pub armed : Panel R
  armed = (arm R now db_up id tenant asset ttl_seconds p).1

  abbrev pub seconds : ℕ
  seconds = ttl_or_default ttl_seconds

  seconds_pos : 1 ≤ seconds
  unfolding ttl_or_default
  seconds_pos = ground arith

  stored : Switch
  stored = record {
    switch_id = id;
    tenant_id = tenant;
    asset_id = asset;
    armed_at = now;
    ttl = seconds;
  }

  -- the status of the switch with so many seconds left
  abbrev pub status : ℕ → SwitchStatus
  status r = record {
    switch_id = id;
    tenant_id = tenant;
    asset_id = asset;
    armed_at = now;
    ttl_seconds = seconds;
    remaining_seconds = some r;
    is_armed = true;
  }

  held :
      (t : ℕ)
      → now ≤ t
      → get t (switch_key tenant asset) armed.kv
        ≡ (if ltb t (now + seconds) then some stored else none)
  unfolding arm stored
  held t l = ground (
    arith,
    get-set_ex t now (switch_key tenant asset) (switch_key tenant asset) stored seconds p.kv l,
    str_eq_refl (switch_key tenant asset),
  )

  -- A switch that was armed has at least one second. Its status is armed, with its id and the seconds that
  -- are left, until the second of its arming plus its seconds, and from then on there is no switch.
  pub armed_until :
      (t : ℕ)
      → now ≤ t
      → (1 ≤ seconds)
        × (get_status R t tenant asset armed
            ≡ (if ltb t (now + seconds) then some (status (now + seconds - t)) else none))
  unfolding get_status arm stored
  armed_until t l =
      let k = switch_key tenant asset in
      elim (Bool-cases (ltb t (now + seconds))) [
        | inl y ↦
            let m : t < now + seconds = ground arith in
            let (r, e, n) = ttl-set_ex t now k stored seconds p.kv l m in
            let g : get t k armed.kv ≡ some stored = held t l ∙ rw y refl in
            let x : r ≡ now + seconds - t = omega arith in
            (seconds_pos, rw (y, g, get_status, e, x) refl)
        | inr o ↦
            let g : get t k armed.kv ≡ none = held t l ∙ rw o refl in
            (seconds_pos, rw (o, g, get_status) refl)
      ]

  gone :
      (u : ℕ) (q : Panel R)
      → get_status R u tenant asset (record q { kv = delete (switch_key tenant asset) q.kv }) ≡ none
  unfolding get_status
  gone u q =
      let k = switch_key tenant asset in
      let z : get u k (delete k q.kv) ≡ none =
        ground (arith, get-delete u k k q.kv, str_eq_refl k) in
      rw (z, get_status) refl

  -- A call to disarm an armed switch before its end succeeds exactly with its id. Then there is no switch
  -- left, and otherwise its status is what it would have been.
  pub disarm_exact :
      (t u : ℕ) (up : Bool) (other : String)
      → now ≤ t
      → t < now + seconds
      → let r = disarm R t up tenant asset other armed in
        (r.0 ≡ str_eq id other)
        × (get_status R u tenant asset r.1
            ≡ (if str_eq id other then none else get_status R u tenant asset armed))
  unfolding disarm stored
  disarm_exact t u up other l m =
      let g : get t (switch_key tenant asset) armed.kv ≡ some stored =
        ground (arith, held t l, m) in
      elim (Bool-cases (str_eq id other)) [
        | inl y ↦ rw (g, y, disarm) (refl, gone u (record armed { history = _ }))
        | inr n ↦ rw (g, n, disarm) (refl, refl)
      ]
