-- ===== src/Pipeline/Deadman.antt =====
-- backend/app/workers/deadman/switch.py: the switch that ends the isolation of a server. The random id of
-- a switch is an argument; `db_up` tells whether the database takes the history.
pub mod Life
use infra_red.Prelude.{
  ℕ, ◌*◌, String, Bool, true, false, not, ◌&&◌, Option, none, some, List, [], ◌∷◌, ◌++◌, ltb, leb,
  ◌==◌, str_eq, if◌then◌else◌,
}
use infra_red.Prelude.All.{any}
use infra_red.Prelude.Format.{◌^^◌}
use infra_red.Redis.{Redis}

-- what is stored as JSON
pub record Switch : Type 0 where
  pub switch_id : String
  pub tenant_id : String
  pub asset_id : String
  pub armed_at : ℕ
  pub ttl : ℕ

pub record SwitchStatus : Type 0 where
  pub switch_id : String
  pub tenant_id : String
  pub asset_id : String
  pub armed_at : ℕ
  pub ttl_seconds : ℕ
  pub remaining_seconds : Option ℕ
  pub is_armed : Bool

-- a row of the table deadman_switches
pub record Entry : Type 0 where
  pub tenant_id : String
  pub asset_id : String
  pub switch_id : String
  pub ttl_seconds : ℕ
  pub status : String

abbrev pub default_ttl_seconds : ℕ
default_ttl_seconds = 4 * 3600

unfoldable pub switch_key : String → String → String
switch_key tenant_id asset_id = "deadman:" ^^ tenant_id ^^ ":" ^^ asset_id

-- `ttl_seconds or DEFAULT_TTL_SECONDS`
unfoldable pub ttl_or_default : Option ℕ → ℕ
ttl_or_default none = default_ttl_seconds
ttl_or_default (some n) = if n == 0 then default_ttl_seconds else n

unfoldable pub record_armed : String → String → String → ℕ → List Entry → List Entry
record_armed tenant_id asset_id switch_id ttl_seconds history =
    history
    ++ (record {
      tenant_id = tenant_id;
      asset_id = asset_id;
      switch_id = switch_id;
      ttl_seconds = ttl_seconds;
      status = "armed";
    })
      ∷ []

unfoldable pub record_disarmed : String → String → String → List Entry → List Entry
record_disarmed tenant_id asset_id switch_id [] = []
record_disarmed tenant_id asset_id switch_id (e ∷ rest) =
    (if str_eq e.tenant_id tenant_id
        && (str_eq e.asset_id asset_id && (str_eq e.switch_id switch_id && str_eq e.status "armed"))
      then record e { status = "disarmed" }
      else e)
    ∷ record_disarmed tenant_id asset_id switch_id rest

pub record Panel (R : Redis Switch) : Type 0 where
  pub kv : R.Db
  pub history : List Entry

module _ (R : Redis Switch) where
  open R use {Db, get, set_ex, delete, ttl}

  -- the id, and the panel
  unfoldable pub arm : ℕ → Bool → String → String → String → Option ℕ → Panel R → String × Panel R
  arm now db_up switch_id tenant_id asset_id ttl_seconds p =
      let seconds = ttl_or_default ttl_seconds in
      let switch : Switch = record {
        switch_id = switch_id;
        tenant_id = tenant_id;
        asset_id = asset_id;
        armed_at = now;
        ttl = seconds;
      } in
      (
        switch_id,
        record {
          kv = set_ex now (switch_key tenant_id asset_id) switch seconds p.kv;
          history =
              if db_up
              then record_armed tenant_id asset_id switch_id seconds p.history
              else p.history;
        },
      )

  unfoldable pub disarm : ℕ → Bool → String → String → String → Panel R → Bool × Panel R
  disarm now db_up tenant_id asset_id switch_id p =
      elim (get now (switch_key tenant_id asset_id) p.kv) [
        | none ↦ (false, p)
        | some switch ↦
            if str_eq switch.switch_id switch_id
            then (
              true,
              record {
                kv = delete (switch_key tenant_id asset_id) p.kv;
                history =
                    if db_up
                    then record_disarmed tenant_id asset_id switch_id p.history
                    else p.history;
              },
            )
            else (false, p)
      ]

  abbrev pub is_left : Option ℕ → Bool
  is_left none = false
  is_left (some n) = true

  unfoldable pub get_status : ℕ → String → String → Panel R → Option SwitchStatus
  get_status now tenant_id asset_id p = elim (get now (switch_key tenant_id asset_id) p.kv) [
    | none ↦ none
    | some switch ↦
        let remaining = ttl now (switch_key tenant_id asset_id) p.kv in
        some (record {
          switch_id = switch.switch_id;
          tenant_id = tenant_id;
          asset_id = asset_id;
          armed_at = switch.armed_at;
          ttl_seconds = switch.ttl;
          remaining_seconds = remaining;
          is_armed = is_left remaining;
        })
  ]

  -- the keys that the scan finds, of which the life is about to end or has none
  unfoldable pub check_expired_switches : ℕ → List String → Panel R → List String
  check_expired_switches now [] p = []
  check_expired_switches now (key ∷ rest) p =
      let later = check_expired_switches now rest p in
      elim (ttl now key p.kv) [
        | none ↦ key ∷ later
        | some n ↦ if leb n 60 then key ∷ later else later
      ]
