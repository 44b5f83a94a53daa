-- ===== src/Detection/Settings/Cache.antt =====
-- What the rules read of the settings that a tenant saved.
use infra_red.Prelude.{
  ℕ, ◌≡◌, refl, sym, ap, ◌∙◌, String, Bool, true, false, ◌||◌, Option, none, some, List, [], ◌∷◌,
  contains, or_else, str_eq, eq_iff, Bool-cases, inl, inr, subst, arith, if◌then◌else◌,
}
use infra_red.Prelude.Format.{show}
use infra_red.Prelude.Case.{lower}
use infra_red.Prelude.Dict.{put, entry_of}
use infra_red.Redis.Hash.{put_all}
use infra_red.Detection.Settings.{num, flag, collect, collected, int_value, bool_value}

-- the first of two
abbrev pub first_of : Option String → Option String → Option String
first_of none o = o
first_of (some v) o = some v

entry-put_any :
    (j k v : String) (d : List (String × String))
    → entry_of j (put k v d) ≡ (if str_eq k j then some v else entry_of j d)
entry-put_any j k v [] = refl
entry-put_any j k v ((i, w) ∷ d) = elim (Bool-cases (str_eq i k)) [
  | inl same ↦
      subst
        (λ (x : String).
          entry_of j (put k v ((x, w) ∷ d))
          ≡ (if str_eq k j then some v else entry_of j ((x, w) ∷ d)))
        (sym ((eq_iff i k).0 same)) (ground (arith, eq_iff k k))
  | inr other ↦
      rw other (ground (arith, entry-put_any j k v d, eq_iff i j, eq_iff k j, eq_iff i k, other))
]

chosen :
    (b c : Bool) (o x : Option String)
    → b ≡ true
    → (if b || c then first_of o x else x) ≡ first_of o x
chosen b c o x e = rw e refl

skipped :
    (b c : Bool) (o x : Option String)
    → b ≡ false
    → (if b || c then first_of o x else x) ≡ (if c then first_of o x else x)
skipped b c o x e = rw e refl

either : (c : Bool) (o x : Option String) → o ≡ none → (if c then first_of o x else x) ≡ x
either true o x e = rw e refl
either false o x e = refl

same :
    (c : Bool) (o x : Option String) (v : String)
    → o ≡ some v
    → x ≡ some v
    → (if c then first_of o x else x) ≡ some v
same true o x v e q = rw e refl
same false o x v e q = q

module _ (get : String → Option String) (j : String) where
  -- what a lookup gives, over what the hash had before
  abbrev over : Bool → Option String → Option String
  over c x = if c then first_of (get j) x else x

  collected_lem :
      (o : Option String) (f : String) (c : Bool) (rest d : List (String × String))
      → get f ≡ o
      → ((d' : List (String × String)) → entry_of j (put_all rest d') ≡ over c (entry_of j d'))
      → entry_of j (put_all (collected f o rest) d) ≡ over (str_eq j f || c) (entry_of j d)
  collected_lem none f c rest d e ih = elim (Bool-cases (str_eq j f)) [
    | inl hit ↦
        let g : get j ≡ none = ap get ((eq_iff j f).0 hit) ∙ e in
        ih d
        ∙ either c (get j) (entry_of j d) g
        ∙ sym (either (str_eq j f || c) (get j) (entry_of j d) g)
    | inr miss ↦ ih d ∙ sym (skipped (str_eq j f) c (get j) (entry_of j d) miss)
  ]
  collected_lem (some v) f c rest d e ih = elim (Bool-cases (str_eq j f)) [
    | inl hit ↦
        let g : get j ≡ some v = ap get ((eq_iff j f).0 hit) ∙ e in
        let x : entry_of j (put f v d) ≡ some v =
          entry-put_any j f v d ∙ ground (arith, hit, eq_iff j f, eq_iff f j) in
        ih (put f v d)
        ∙ same c (get j) (entry_of j (put f v d)) v g x
        ∙ sym (
            chosen (str_eq j f) c (get j) (entry_of j d) hit
            ∙ ap (λ o. first_of o (entry_of j d)) g)
    | inr miss ↦
        let x : entry_of j (put f v d) ≡ entry_of j d =
          entry-put_any j f v d ∙ ground (arith, miss, eq_iff j f, eq_iff f j) in
        ih (put f v d) ∙ ap (over c) x ∙ sym (skipped (str_eq j f) c (get j) (entry_of j d) miss)
  ]

  -- the fields that are cached, over what the hash had before
  pub put_all_lem :
      (fields : List String) (d : List (String × String))
      → entry_of j (put_all (collect get fields) d) ≡ over (contains fields j) (entry_of j d)
  unfolding collect
  put_all_lem [] d = refl
  put_all_lem (f ∷ fields) d =
      collected_lem (get f) f (contains fields j) (collect get fields) d refl
        (λ d'. put_all_lem fields d')

pub first_none : (o : Option String) → first_of o none ≡ o
first_none none = refl
first_none (some v) = refl

pub read_num :
    (int_of : String → Option ℕ) (o : Option ℕ) (fallback : ℕ)
    → ((n : ℕ) → int_of (show n) ≡ some n)
    → int_value int_of (num o) fallback ≡ or_else o fallback
read_num int_of none fallback h = refl
read_num int_of (some n) fallback h = rw (h n) refl

pub read_flag :
    (o : Option Bool) (fallback : Bool) → bool_value (flag o) fallback ≡ or_else o fallback
unfolding lower
read_flag none fallback = refl
read_flag (some true) fallback = refl
read_flag (some false) fallback = refl
