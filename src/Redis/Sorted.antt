-- ===== src/Redis/Sorted.antt =====
-- The commands on sorted sets, as an interface beside those of `Redis`: members with their scores, kept
-- in the order of the scores. `before` is the order of Redis between members of one score.
use infra_red.Prelude.{
  ℕ, ◌+◌, ◌≤◌, ◌≡◌, String, Bool, false, ◌&&◌, List, [], ◌∷◌, ltb, ◌==◌, length, str_eq,
  if◌then◌else◌,
}
use infra_red.Prelude.Int.{ℤ, pos, leb_ℤ}
use infra_red.Redis.{Redis}

-- a score between two bounds, both included
abbrev pub in_range : ℤ → ℤ → ℕ → Bool
in_range lo hi s = leb_ℤ lo (pos s) && leb_ℤ (pos s) hi

abbrev pub drop_member : String → List (String × ℕ) → List (String × ℕ)
drop_member m [] = []
drop_member m ((n, s) ∷ xs) =
    let rest = drop_member m xs in if str_eq n m then rest else (n, s) ∷ rest

abbrev pub place_scored :
    (String → String → Bool) → String → ℕ → List (String × ℕ) → List (String × ℕ)
place_scored before m s [] = (m, s) ∷ []
place_scored before m s ((n, r) ∷ xs) =
    let rest = place_scored before m s xs in
    if ltb s r
    then (m, s) ∷ (n, r) ∷ xs
    else if (s == r) && before m n
    then (m, s) ∷ (n, r) ∷ xs
    else (n, r) ∷ rest

-- what ZREMRANGEBYSCORE leaves
abbrev pub outside : ℤ → ℤ → List (String × ℕ) → List (String × ℕ)
outside lo hi [] = []
outside lo hi ((n, s) ∷ xs) =
    let rest = outside lo hi xs in if in_range lo hi s then rest else (n, s) ∷ rest

-- what ZRANGEBYSCORE answers
abbrev pub inside : ℤ → ℤ → List (String × ℕ) → List String
inside lo hi [] = []
inside lo hi ((n, s) ∷ xs) =
    let rest = inside lo hi xs in if in_range lo hi s then n ∷ rest else rest

-- `zrange` is ZRANGE key 0 -1 WITHSCORES. The laws are those of the Redis documentation.
pub record Sorted {V : Type 0} (R : Redis V) : Type 1 where
  pub before : String → String → Bool
  pub zrange : ℕ → String → R.Db → List (String × ℕ)
  pub zcard : ℕ → String → R.Db → ℕ
  pub zrangebyscore : ℕ → String → ℤ → ℤ → R.Db → List String
  pub zadd : ℕ → String → String → ℕ → R.Db → R.Db
  pub zremrangebyscore : ℕ → String → ℤ → ℤ → R.Db → R.Db
  pub zcard_lem : (t : ℕ) (k : String) (db : R.Db) → zcard t k db ≡ length (zrange t k db)
  pub zrangebyscore_lem :
      (t : ℕ) (k : String) (lo hi : ℤ) (db : R.Db)
      → zrangebyscore t k lo hi db ≡ inside lo hi (zrange t k db)
  pub zrange-zadd :
      (now : ℕ) (k m : String) (s : ℕ) (db : R.Db)
      → zrange now k (zadd now k m s db) ≡ place_scored before m s (drop_member m (zrange now k db))
  pub zrange-zremrangebyscore :
      (t now : ℕ) (k : String) (lo hi : ℤ) (db : R.Db)
      → now ≤ t
      → zrange t k (zremrangebyscore now k lo hi db) ≡ outside lo hi (zrange t k db)
  -- EXPIRE gives the key an end
  pub zrange-expire :
      (t now : ℕ) (k : String) (ex : ℕ) (db : R.Db)
      → now ≤ t
      → zrange t k (R.expire now k ex db) ≡ (if ltb t (now + ex) then zrange now k db else [])
  -- a command leaves the other keys as they are
  pub zrange-zadd_other :
      (t now : ℕ) (j k m : String) (s : ℕ) (db : R.Db)
      → str_eq j k ≡ false
      → zrange t j (zadd now k m s db) ≡ zrange t j db
  pub zrange-zremrangebyscore_other :
      (t now : ℕ) (j k : String) (lo hi : ℤ) (db : R.Db)
      → str_eq j k ≡ false
      → zrange t j (zremrangebyscore now k lo hi db) ≡ zrange t j db
  pub zrange-expire_other :
      (t now : ℕ) (j k : String) (ex : ℕ) (db : R.Db)
      → str_eq j k ≡ false
      → zrange t j (R.expire now k ex db) ≡ zrange t j db
  -- commands on values, on sets and on sorted sets work on different keys
  pub zrange-set_ex :
      (t now : ℕ) (j k : String) (v : V) (ex : ℕ) (db : R.Db)
      → zrange t j (R.set_ex now k v ex db) ≡ zrange t j db
  pub zrange-sadd :
      (t now : ℕ) (j k m : String) (db : R.Db) → zrange t j (R.sadd now k m db) ≡ zrange t j db
  pub get-zadd :
      (t now : ℕ) (j k m : String) (s : ℕ) (db : R.Db)
      → R.get t j (zadd now k m s db) ≡ R.get t j db
  pub get-zremrangebyscore :
      (t now : ℕ) (j k : String) (lo hi : ℤ) (db : R.Db)
      → R.get t j (zremrangebyscore now k lo hi db) ≡ R.get t j db
  pub sismember-zadd :
      (t now : ℕ) (j n k m : String) (s : ℕ) (db : R.Db)
      → R.sismember t j n (zadd now k m s db) ≡ R.sismember t j n db
  pub sismember-zremrangebyscore :
      (t now : ℕ) (j n k : String) (lo hi : ℤ) (db : R.Db)
      → R.sismember t j n (zremrangebyscore now k lo hi db) ≡ R.sismember t j n db
