-- ===== src/Redis/Instance.antt =====
-- A server that meets the interface: a value or a set for each key, with the end of its life.
use infra_red.Prelude.{
  ℕ, ◌+◌, ◌-◌, ◌≤◌, ◌<◌, ◌≡◌, refl, ap, String, Bool, true, false, ◌&&◌, Option, none, some, List,
  [], ◌∷◌, ltb, str_eq, str_eq_refl, eq_iff, contains, length, Bool-cases, inl, inr, arith,
  if◌then◌else◌,
}
use infra_red.Redis.{Redis}

pub record Members : Type 0 where
  pub items : List String
  pub end : Option ℕ

pub record Ranked : Type 0 where
  pub entries : List (String × ℕ)
  pub end : Option ℕ

pub record Server (V : Type 0) : Type 0 where
  pub values : String → Option (V × ℕ)
  pub sets : String → Members
  pub sorted : String → Ranked

abbrev pub no_members : Members
no_members = record { items = []; end = none }

abbrev pub no_entries : Ranked
no_entries = record { entries = []; end = none }

abbrev pub update {ℓ} : {A : Type ℓ} → (String → A) → String → A → String → A
update f k a j = if str_eq j k then a else f j

abbrev pub is_over : ℕ → Option ℕ → Bool
is_over t none = false
is_over t (some e) = if ltb t e then false else true

-- what is left of a set at a time
abbrev pub at_time : ℕ → Members → Members
at_time t s = if is_over t s.end then no_members else s

abbrev pub entries_at : ℕ → Ranked → Ranked
entries_at t s = if is_over t s.end then no_entries else s

abbrev pub without : String → List String → List String
without m [] = []
without m (x ∷ xs) = let rest = without m xs in if str_eq m x then rest else x ∷ rest

abbrev pub place : String → List String → List String
place m xs = if contains xs m then xs else m ∷ xs

module _ (V : Type 0) where
  abbrev pub live_value : ℕ → Option (V × ℕ) → Option V
  live_value t none = none
  live_value t (some (v, e)) = if ltb t e then some v else none

  abbrev pub left : ℕ → Option (V × ℕ) → Option ℕ
  left t none = none
  left t (some (v, e)) = if ltb t e then some (e - t) else none

module _ {V : Type 0} where
  abbrev pub get : ℕ → String → Server V → Option V
  get t k db = live_value V t (db.values k)

  abbrev pub set_ex : ℕ → String → V → ℕ → Server V → Server V
  set_ex now k v ex db = record db { values = update db.values k (some (v, now + ex)) }

  abbrev pub delete : String → Server V → Server V
  delete k db = record db { values = update db.values k none }

  abbrev pub ttl : ℕ → String → Server V → Option ℕ
  ttl t k db = left V t (db.values k)

  abbrev pub members : ℕ → String → Server V → Members
  members t k db = at_time t (db.sets k)

  abbrev pub ranked : ℕ → String → Server V → Ranked
  ranked t k db = entries_at t (db.sorted k)

  abbrev pub sismember : ℕ → String → String → Server V → Bool
  sismember t k m db = contains (members t k db).items m

  abbrev pub scard : ℕ → String → Server V → ℕ
  scard t k db = length (members t k db).items

  abbrev pub sadd : ℕ → String → String → Server V → Server V
  sadd now k m db =
      let s = members now k db in
      record db { sets = update db.sets k (record s { items = place m s.items }) }

  abbrev pub srem : ℕ → String → String → Server V → Server V
  srem now k m db =
      let s = members now k db in
      record db { sets = update db.sets k (record s { items = without m s.items }) }

  abbrev pub expire : ℕ → String → ℕ → Server V → Server V
  expire now k ex db =
      let s = members now k db in
      let z = ranked now k db in
      record db {
        sets = update db.sets k (record s { end = some (now + ex) });
        sorted = update db.sorted k (record z { end = some (now + ex) });
      }

  pub get-set_ex :
      (t now : ℕ) (j k : String) (v : V) (ex : ℕ) (db : Server V)
      → now ≤ t
      → get t j (set_ex now k v ex db)
        ≡ (if str_eq j k then (if ltb t (now + ex) then some v else none) else get t j db)
  get-set_ex t now j k v ex db h = ground arith

  pub get-delete :
      (t : ℕ) (j k : String) (db : Server V)
      → get t j (delete k db) ≡ (if str_eq j k then none else get t j db)
  get-delete t j k db = ground arith

  pub ttl-set_ex :
      (t now : ℕ) (k : String) (v : V) (ex : ℕ) (db : Server V)
      → now ≤ t
      → t < now + ex
      → (r : ℕ) × (ttl t k (set_ex now k v ex db) ≡ some r) × (t + r ≡ now + ex)
  ttl-set_ex t now k v ex db h l = (now + ex - t, ground (arith, eq_iff k k), omega arith)

  pub get-sadd :
      (t now : ℕ) (j k m : String) (db : Server V) → get t j (sadd now k m db) ≡ get t j db
  get-sadd t now j k m db = refl

  pub get-srem :
      (t now : ℕ) (j k m : String) (db : Server V) → get t j (srem now k m db) ≡ get t j db
  get-srem t now j k m db = refl

contains-place :
    (m n : String) (xs : List String)
    → contains (place m xs) n ≡ (if str_eq n m then true else contains xs n)
contains-place m n xs = ground (arith, contains_same xs m n)
  where
    contains_same :
        (ys : List String) (a b : String) → str_eq b a ≡ true → contains ys b ≡ contains ys a
    contains_same ys a b e = ap (contains ys) ((eq_iff b a).0 e)

contains-without :
    (m n : String) (xs : List String)
    → contains (without m xs) n ≡ (if str_eq n m then false else contains xs n)
contains-without m n [] = ground arith
contains-without m n (x ∷ xs) =
    ground (arith, contains-without m n xs, eq_iff m x, eq_iff n x, eq_iff n m)

length-place :
    (m : String) (xs : List String)
    → length (place m xs) ≡ (if contains xs m then length xs else length xs + 1)
length-place m xs = ground arith

module _ {V : Type 0} where
  pub sismember-sadd :
      (now : ℕ) (j k m n : String) (db : Server V)
      → sismember now j n (sadd now k m db)
        ≡ (if str_eq j k && str_eq n m then true else sismember now j n db)
  sismember-sadd now j k m n db = elim (Bool-cases (str_eq j k)) [
    | inl e ↦ ground (arith, contains-place m n (members now k db).items, (eq_iff j k).0 e)
    | inr e ↦ ground arith
  ]

  pub sismember-srem :
      (now : ℕ) (j k m n : String) (db : Server V)
      → sismember now j n (srem now k m db)
        ≡ (if str_eq j k && str_eq n m then false else sismember now j n db)
  sismember-srem now j k m n db = elim (Bool-cases (str_eq j k)) [
    | inl e ↦ ground (arith, contains-without m n (members now k db).items, (eq_iff j k).0 e)
    | inr e ↦ ground arith
  ]

  pub scard-sadd :
      (now : ℕ) (k m : String) (db : Server V)
      → scard now k (sadd now k m db)
        ≡ (if sismember now k m db then scard now k db else scard now k db + 1)
  scard-sadd now k m db = ground (arith, length-place m (members now k db).items, str_eq_refl k)

  pub sismember-expire :
      (t now : ℕ) (k m : String) (ex : ℕ) (db : Server V)
      → now ≤ t
      → sismember t k m (expire now k ex db)
        ≡ (if ltb t (now + ex) then sismember now k m db else false)
  sismember-expire t now k m ex db h = ground (arith, str_eq_refl k)

  pub scard-expire :
      (t now : ℕ) (k : String) (ex : ℕ) (db : Server V)
      → now ≤ t
      → scard t k (expire now k ex db) ≡ (if ltb t (now + ex) then scard now k db else 0)
  scard-expire t now k ex db h = ground (arith, str_eq_refl k)

  pub get-expire :
      (t now : ℕ) (j k : String) (ex : ℕ) (db : Server V)
      → str_eq j k ≡ false
      → get t j (expire now k ex db) ≡ get t j db
  get-expire t now j k ex db h = refl

-- A server with nothing stored.
abbrev pub nothing : {V : Type 0} → Server V
nothing = record { values = λ k. none; sets = λ k. no_members; sorted = λ k. no_entries }

abbrev pub server : (V : Type 0) → Redis V
server V = record {
  Db = Server V;
  get = get;
  set_ex = set_ex;
  delete = delete;
  ttl = ttl;
  sismember = sismember;
  scard = scard;
  sadd = sadd;
  srem = srem;
  expire = expire;
  get-set_ex = get-set_ex;
  get-delete = get-delete;
  ttl-set_ex = ttl-set_ex;
  get-sadd = get-sadd;
  get-srem = get-srem;
  sismember-sadd = sismember-sadd;
  sismember-srem = sismember-srem;
  scard-sadd = scard-sadd;
  sismember-expire = sismember-expire;
  scard-expire = scard-expire;
  get-expire = get-expire;
}
