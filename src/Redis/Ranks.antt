-- ===== src/Redis/Ranks.antt =====
-- The sorted sets of the server of `Redis.Instance`.
use infra_red.Prelude.{
  ℕ, ◌+◌, ◌≤◌, ◌≡◌, refl, String, Bool, false, List, [], ltb, length, str_eq, str_eq_refl, arith,
  if◌then◌else◌,
}
use infra_red.Prelude.Int.{ℤ}
use infra_red.Redis.Instance.{Server, server, update, ranked, expire}
use infra_red.Redis.Sorted.{Sorted, drop_member, place_scored, outside, inside}

-- members of one score stay in the order of their arrival
abbrev pub later : String → String → Bool
later m n = false

module _ {V : Type 0} where
  abbrev pub zrange : ℕ → String → Server V → List (String × ℕ)
  zrange t k db = (ranked t k db).entries

  abbrev pub zcard : ℕ → String → Server V → ℕ
  zcard t k db = length (zrange t k db)

  abbrev pub zrangebyscore : ℕ → String → ℤ → ℤ → Server V → List String
  zrangebyscore t k lo hi db = inside lo hi (zrange t k db)

  abbrev pub zadd : ℕ → String → String → ℕ → Server V → Server V
  zadd now k m s db =
      let z = ranked now k db in
      record db {
        sorted =
            update db.sorted k
              (record z { entries = place_scored later m s (drop_member m z.entries) });
      }

  abbrev pub zremrangebyscore : ℕ → String → ℤ → ℤ → Server V → Server V
  zremrangebyscore now k lo hi db =
      let z = ranked now k db in
      record db { sorted = update db.sorted k (record z { entries = outside lo hi z.entries }) }

  pub zrange-zadd :
      (now : ℕ) (k m : String) (s : ℕ) (db : Server V)
      → zrange now k (zadd now k m s db) ≡ place_scored later m s (drop_member m (zrange now k db))
  zrange-zadd now k m s db = ground (arith, str_eq_refl k)

  pub zrange-zremrangebyscore :
      (t now : ℕ) (k : String) (lo hi : ℤ) (db : Server V)
      → now ≤ t
      → zrange t k (zremrangebyscore now k lo hi db) ≡ outside lo hi (zrange t k db)
  zrange-zremrangebyscore t now k lo hi db h = ground (arith, str_eq_refl k)

  pub zrange-expire :
      (t now : ℕ) (k : String) (ex : ℕ) (db : Server V)
      → now ≤ t
      → zrange t k (expire now k ex db) ≡ (if ltb t (now + ex) then zrange now k db else [])
  zrange-expire t now k ex db h = ground (arith, str_eq_refl k)

  pub zrange-zadd_other :
      (t now : ℕ) (j k m : String) (s : ℕ) (db : Server V)
      → str_eq j k ≡ false
      → zrange t j (zadd now k m s db) ≡ zrange t j db
  zrange-zadd_other t now j k m s db h = ground arith

  pub zrange-zremrangebyscore_other :
      (t now : ℕ) (j k : String) (lo hi : ℤ) (db : Server V)
      → str_eq j k ≡ false
      → zrange t j (zremrangebyscore now k lo hi db) ≡ zrange t j db
  zrange-zremrangebyscore_other t now j k lo hi db h = ground arith

  pub zrange-expire_other :
      (t now : ℕ) (j k : String) (ex : ℕ) (db : Server V)
      → str_eq j k ≡ false
      → zrange t j (expire now k ex db) ≡ zrange t j db
  zrange-expire_other t now j k ex db h = ground arith

abbrev pub sorted : (V : Type 0) → Sorted (server V)
sorted V = record {
  before = later;
  zrange = zrange;
  zcard = zcard;
  zrangebyscore = zrangebyscore;
  zadd = zadd;
  zremrangebyscore = zremrangebyscore;
  zcard_lem = λ t k db. refl;
  zrangebyscore_lem = λ t k lo hi db. refl;
  zrange-zadd = zrange-zadd;
  zrange-zremrangebyscore = zrange-zremrangebyscore;
  zrange-expire = zrange-expire;
  zrange-zadd_other = zrange-zadd_other;
  zrange-zremrangebyscore_other = zrange-zremrangebyscore_other;
  zrange-expire_other = zrange-expire_other;
  zrange-set_ex = λ t now j k v ex db. refl;
  zrange-sadd = λ t now j k m db. refl;
  get-zadd = λ t now j k m s db. refl;
  get-zremrangebyscore = λ t now j k lo hi db. refl;
  sismember-zadd = λ t now j n k m s db. refl;
  sismember-zremrangebyscore = λ t now j n k lo hi db. refl;
}
