-- ===== src/Detection/Login/Known.antt =====
-- backend/app/workers/detection/rules.py and backend/app/db/repositories.py: the addresses from which a
-- user is known to log in. They stand in a set of Redis, and in a table that outlives it.
use infra_red.Prelude.{
  ℕ, ◌+◌, String, Bool, false, ◌&&◌, ◌||◌, Option, none, some, List, [], ◌∷◌, ltb, ◌==◌, str_eq,
  if◌then◌else◌,
}
use infra_red.Redis.{Redis}
use infra_red.Detection.Login.Keys.{auth_known_ip}

-- a row of known_ips; the times of the row are left out
pub record KnownIp : Type 0 where
  pub tenant_id : String
  pub asset_id : String
  pub username : String
  pub source_ip : String

-- The server, and the table, none where the database fails. The cast of an address to INET is the
-- identity.
pub record World (R : Redis String) : Type 0 where
  pub kv : R.Db
  pub known_ips : Option (List KnownIp)

module _ (tenant_id asset_id username : String) where
  abbrev pub of_user : KnownIp → Bool
  of_user r =
      str_eq r.tenant_id tenant_id && str_eq r.asset_id asset_id && str_eq r.username username

  unfoldable pub get_known_ip_count : List KnownIp → ℕ
  get_known_ip_count [] = 0
  get_known_ip_count (r ∷ rows) = (if of_user r then 1 else 0) + get_known_ip_count rows

  unfoldable pub is_known_ip_for_user : String → List KnownIp → Bool
  is_known_ip_for_user source_ip [] = false
  is_known_ip_for_user source_ip (r ∷ rows) =
      (of_user r && str_eq r.source_ip source_ip) || is_known_ip_for_user source_ip rows

  -- the conflict only sets last_seen
  unfoldable pub upsert_known_ip : String → List KnownIp → List KnownIp
  unfolding is_known_ip_for_user
  upsert_known_ip source_ip rows =
      if is_known_ip_for_user source_ip rows
      then rows
      else record {
        tenant_id = tenant_id;
        asset_id = asset_id;
        username = username;
        source_ip = source_ip;
      }
        ∷ rows

  module _ (R : Redis String) (now : ℕ) (source_ip : String) where
    abbrev pub remember : R.Db → R.Db
    remember db =
        let key = auth_known_ip tenant_id asset_id username in
        R.expire now key 86400 (R.sadd now key source_ip db)

    -- what `_resolve_known_ip` reads of the table when the set is empty
    unfoldable pub restore : List KnownIp → R.Db → Bool → R.Db × ℕ × Bool
    unfolding get_known_ip_count is_known_ip_for_user
    restore rows db is_known =
        let db_count = get_known_ip_count rows in
        if ltb 0 db_count
        then (remember db, db_count, is_known_ip_for_user source_ip rows)
        else (db, 0, is_known)

    -- `_resolve_known_ip`: (seen_before, is_known)
    unfoldable pub resolve_known_ip : World R → World R × ℕ × Bool
    unfolding restore
    resolve_known_ip w =
        let key = auth_known_ip tenant_id asset_id username in
        let seen_before = R.scard now key w.kv in
        let is_known = R.sismember now key source_ip w.kv in
        if seen_before == 0
        then elim w.known_ips [
          | none ↦ (w, seen_before, is_known)
          | some rows ↦
              let (db, seen, known) = restore rows w.kv is_known in
              (record w { kv = db }, seen, known)
        ]
        else (w, seen_before, is_known)

    -- `_persist_known_ip`
    unfoldable pub persist_known_ip : World R → World R
    unfolding upsert_known_ip
    persist_known_ip w = record {
      kv = remember w.kv;
      known_ips = elim w.known_ips [
        | none ↦ none
        | some rows ↦ some (upsert_known_ip source_ip rows)
      ];
    }
