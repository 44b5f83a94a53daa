-- ===== src/Prelude/Text.antt =====
-- Texts that the program compares whole, and lists and tables of them.
use Prim.Native.String.{String}
use mathlib.Core.Path.{◌≡◌, refl}
use mathlib.Core.Bool.{Bool, true, false, ◌&&◌, ◌||◌}
use mathlib.Core.List.{List, [], ◌∷◌, ◌++◌}
use mathlib.Core.Option.{Option, none, some}
use native.Mathlib.Omega.{arith}
use text.Mathlib.Text.{◌==◌}
use text.Mathlib.TextEquality.{eq_iff}
use Prim.Native.Nat.{ℕ, ◌≤◌}
use infra_red.Prelude.Tests.{leb, if◌then◌else◌}

-- `a in xs`
abbrev pub contains : List String → String → Bool
contains [] a = false
contains (x ∷ xs) a = (a == x) || contains xs a

-- Every text of the first list is in the second.
abbrev pub subset : List String → List String → Bool
subset [] ys = true
subset (x ∷ xs) ys = contains ys x && subset xs ys

-- `dict.get(k)` of a table written in the source.
abbrev pub find {ℓ} : {V : Type ℓ} → String → List (String × V) → Option V
find k [] = none
find k ((j, v) ∷ m) = if k == j then some v else find k m

abbrev pub or_else {ℓ} : {A : Type ℓ} → Option A → A → A
or_else none d = d
or_else (some a) d = a

pub str_eq_refl : (s : String) → (s == s) ≡ true
str_eq_refl s = (eq_iff s s).1 refl

pub contains-append :
    (xs ys : List String) (a : String) → contains (xs ++ ys) a ≡ (contains xs a || contains ys a)
contains-append [] ys a = refl
contains-append (x ∷ xs) ys a = ground (arith, contains-append xs ys a)

contains_eq : (xs : List String) (a b : String) → (a == b) ≡ true → contains xs b ≡ contains xs a
contains_eq [] a b e = refl
contains_eq (x ∷ xs) a b e =
    ground (arith, eq_iff a b, eq_iff a x, eq_iff b x, contains_eq xs a b e)

pub contains_of_subset :
    (xs ys : List String) (a : String)
    → subset xs ys ≡ true
    → contains xs a ≡ true
    → contains ys a ≡ true
contains_of_subset [] ys a s c = ground arith
contains_of_subset (x ∷ xs) ys a s c =
    ground (arith, contains_eq ys a x, contains_of_subset xs ys a)

-- No value of the table passes `n`.
abbrev pub all_le : ℕ → List (String × ℕ) → Bool
all_le n [] = true
all_le n ((j, v) ∷ m) = leb v n && all_le n m

pub find-le :
    (n d : ℕ) (k : String) (m : List (String × ℕ))
    → all_le n m ≡ true
    → d ≤ n
    → or_else (find k m) d ≤ n
find-le n d k [] a h = h
find-le n d k ((j, v) ∷ m) a h = ground (arith, find-le n d k m)
