-- ===== src/Redis/Hash.antt =====
-- The commands on hashes, as an interface of its own: HSET with a mapping, HGETALL and EXPIRE. The laws
-- are those of the Redis documentation.
use infra_red.Prelude.{
  ℕ, ◌+◌, ◌≤◌, ◌≡◌, refl, String, Option, none, some, List, [], ◌∷◌, ltb, str_eq, str_eq_refl,
  if◌then◌else◌,
}
use infra_red.Prelude.Dict.{put}

abbrev pub put_all : List (String × String) → List (String × String) → List (String × String)
put_all [] d = d
put_all ((k, v) ∷ m) d = put_all m (put k v d)

pub record Hashes : Type 1 where
  pub Db : Type 0
  pub hgetall : ℕ → String → Db → List (String × String)
  pub hset : ℕ → String → List (String × String) → Db → Db
  pub expire : ℕ → String → ℕ → Db → Db
  pub hgetall-hset :
      (now : ℕ) (k : String) (m : List (String × String)) (db : Db)
      → hgetall now k (hset now k m db) ≡ put_all m (hgetall now k db)
  pub hgetall-expire :
      (t now : ℕ) (k : String) (ex : ℕ) (db : Db)
      → now ≤ t
      → hgetall t k (expire now k ex db) ≡ (if ltb t (now + ex) then hgetall now k db else [])

-- a server that meets it: a hash for each key, with the end of its life
pub record Hash : Type 0 where
  pub fields : List (String × String)
  pub end : Option ℕ

abbrev fields_at : ℕ → Hash → List (String × String)
fields_at t h = elim h.end [ none ↦ h.fields | some e ↦ if ltb t e then h.fields else [] ]

abbrev pub hashes : Hashes
hashes = record {
  Db = String → Hash;
  hgetall = λ t k db. fields_at t (db k);
  hset = λ now k m db j.
      if str_eq j k then record { fields = put_all m (fields_at now (db k)); end = none } else db j;
  expire = λ now k ex db j.
      if str_eq j k then record { fields = fields_at now (db k); end = some (now + ex) } else db j;
  hgetall-hset = λ now k m db. rw (str_eq_refl k) refl;
  hgetall-expire = λ t now k ex db h. rw (str_eq_refl k) refl;
}
