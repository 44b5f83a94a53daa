-- ===== src/Prelude/Dict.antt =====
-- The dicts of Python with texts as keys, in the order of insertion.
use Prim.Native.String.{String}
use mathlib.Core.Path.{◌≡◌, refl}
use mathlib.Core.List.{List, [], ◌∷◌}
use mathlib.Core.Option.{Option, none, some}
use text.Mathlib.Text.{◌==◌ as str_eq}
use mathlib.Core.Logic.{inl, inr}
use infra_red.Prelude.{if◌then◌else◌, str_eq_refl, Bool-cases}

module _ {ℓ} {V : Type ℓ} where
  -- `d[k] = v`
  abbrev pub put : String → V → List (String × V) → List (String × V)
  put k v [] = (k, v) ∷ []
  put k v ((j, w) ∷ d) = if str_eq j k then (k, v) ∷ d else (j, w) ∷ put k v d

  -- `d.pop(k, None)`
  abbrev pub pop : String → List (String × V) → List (String × V)
  pop k [] = []
  pop k ((j, w) ∷ d) = if str_eq j k then d else (j, w) ∷ pop k d

  -- `d.get(k)`
  abbrev pub entry_of : String → List (String × V) → Option V
  entry_of k [] = none
  entry_of k ((j, w) ∷ d) = if str_eq j k then some w else entry_of k d

  pub entry-put : (k : String) (v : V) (d : List (String × V)) → entry_of k (put k v d) ≡ some v
  entry-put k v [] = rw (str_eq_refl k) refl
  entry-put k v ((j, w) ∷ d) = elim (Bool-cases (str_eq j k)) [
    | inl e ↦ rw (e, str_eq_refl k) refl
    | inr e ↦ rw (e, e) (entry-put k v d)
  ]
