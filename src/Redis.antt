-- ===== src/Redis.antt =====
-- The Redis commands that the backend uses, as an interface: Redis is not part of the repository, so
-- every definition that talks to it takes this record. `V` is the type of the JSON values that the
-- component stores. Times are seconds on the clock of the server.
pub mod Instance
pub mod Sorted
pub mod Ranks
pub mod Hash
use infra_red.Prelude.{
  ℕ, ◌+◌, ◌≤◌, ◌<◌, ◌≡◌, String, Bool, true, false, ◌&&◌, Option, none, some, ltb, str_eq,
  if◌then◌else◌,
}

-- GET, SET EX / SETEX, DEL and TTL on values; SADD, SREM, SISMEMBER, SCARD and EXPIRE on sets. The
-- laws are those of the Redis documentation.
pub record Redis (V : Type 0) : Type 1 where
  pub Db : Type 0
  pub get : ℕ → String → Db → Option V
  pub set_ex : ℕ → String → V → ℕ → Db → Db
  pub delete : String → Db → Db
  pub ttl : ℕ → String → Db → Option ℕ
  pub sismember : ℕ → String → String → Db → Bool
  pub scard : ℕ → String → Db → ℕ
  pub sadd : ℕ → String → String → Db → Db
  pub srem : ℕ → String → String → Db → Db
  pub expire : ℕ → String → ℕ → Db → Db
  -- a value is there until its time is over
  pub get-set_ex :
      (t now : ℕ) (j k : String) (v : V) (ex : ℕ) (db : Db)
      → now ≤ t
      → get t j (set_ex now k v ex db)
        ≡ (if str_eq j k then (if ltb t (now + ex) then some v else none) else get t j db)
  pub get-delete :
      (t : ℕ) (j k : String) (db : Db)
      → get t j (delete k db) ≡ (if str_eq j k then none else get t j db)
  -- the seconds that are left, if there are any
  pub ttl-set_ex :
      (t now : ℕ) (k : String) (v : V) (ex : ℕ) (db : Db)
      → now ≤ t
      → t < now + ex
      → (r : ℕ) × (ttl t k (set_ex now k v ex db) ≡ some r) × (t + r ≡ now + ex)
  -- commands on sets and commands on values work on different keys
  pub get-sadd : (t now : ℕ) (j k m : String) (db : Db) → get t j (sadd now k m db) ≡ get t j db
  pub get-srem : (t now : ℕ) (j k m : String) (db : Db) → get t j (srem now k m db) ≡ get t j db
  pub sismember-sadd :
      (now : ℕ) (j k m n : String) (db : Db)
      → sismember now j n (sadd now k m db)
        ≡ (if str_eq j k && str_eq n m then true else sismember now j n db)
  pub sismember-srem :
      (now : ℕ) (j k m n : String) (db : Db)
      → sismember now j n (srem now k m db)
        ≡ (if str_eq j k && str_eq n m then false else sismember now j n db)
  pub scard-sadd :
      (now : ℕ) (k m : String) (db : Db)
      → scard now k (sadd now k m db)
        ≡ (if sismember now k m db then scard now k db else scard now k db + 1)
  -- EXPIRE gives the key an end, and the set stays as it is until then
  pub sismember-expire :
      (t now : ℕ) (k m : String) (ex : ℕ) (db : Db)
      → now ≤ t
      → sismember t k m (expire now k ex db)
        ≡ (if ltb t (now + ex) then sismember now k m db else false)
  pub scard-expire :
      (t now : ℕ) (k : String) (ex : ℕ) (db : Db)
      → now ≤ t
      → scard t k (expire now k ex db) ≡ (if ltb t (now + ex) then scard now k db else 0)
  pub get-expire :
      (t now : ℕ) (j k : String) (ex : ℕ) (db : Db)
      → str_eq j k ≡ false
      → get t j (expire now k ex db) ≡ get t j db
