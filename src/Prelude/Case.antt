-- ===== src/Prelude/Case.antt =====
-- `str.lower`, `str.upper` and `k in text`. The letters that change are those of ASCII: the texts that
-- the program compares this way are English words, or Hangul, which has no case.
use Prim.Native.Char.{Char, code}
use Prim.Native.String.{String}
use Prim.Native.String
use Prim.Native.String.append
use text.Mathlib.TextLemmas.{append-nil}
use infra_red.Prelude.{
  ℕ, zero, suc, ◌-◌, ◌≡◌, Bool, true, false, ◌&&◌, ◌||◌, List, [], ◌∷◌, ◌++◌, leb, ◌==◌, refl, ap,
  ◌∙◌, subst, sym, arith, if◌then◌else◌,
}
use infra_red.Prelude.All.{any}

-- the character at a position, or the given one
nth : String → ℕ → Char → Char
nth String.[] i d = d
nth (String.◌∷◌ c s) zero d = c
nth (String.◌∷◌ c s) (suc i) d = nth s i d

lower_char : Char → Char
unfolding nth
lower_char c =
    if leb b'A' (code c) && leb (code c) b'Z'
    then nth "abcdefghijklmnopqrstuvwxyz" (code c - b'A') c
    else c

upper_char : Char → Char
unfolding nth
upper_char c =
    if leb b'a' (code c) && leb (code c) b'z'
    then nth "ABCDEFGHIJKLMNOPQRSTUVWXYZ" (code c - b'a') c
    else c

unfoldable pub lower : String → String
unfolding lower_char
lower String.[] = ""
lower (String.◌∷◌ c s) = String.◌∷◌ (lower_char c) (lower s)

unfoldable pub upper : String → String
unfolding upper_char
upper String.[] = ""
upper (String.◌∷◌ c s) = String.◌∷◌ (upper_char c) (upper s)

-- The code points of a text. `String` has its own `[]` and `∷`.
abbrev pub codes : String → List ℕ
codes String.[] = []
codes (String.◌∷◌ c s) = code c ∷ codes s

abbrev pub is_prefix : List ℕ → List ℕ → Bool
is_prefix [] t = true
is_prefix (k ∷ ks) [] = false
is_prefix (k ∷ ks) (c ∷ t) = k == c && is_prefix ks t

abbrev pub is_infix : List ℕ → List ℕ → Bool
is_infix ks [] = is_prefix ks []
is_infix ks (c ∷ t) = is_prefix ks (c ∷ t) || is_infix ks t

-- `k in text`
unfoldable pub is_in : String → String → Bool
is_in k text = is_infix (codes k) (codes text)

-- `any(k in text for k in ks)`
abbrev pub any_in : List String → String → Bool
any_in ks text = any (λ k. is_in k text) ks

-- What holds a text holds that text less its first character.
is_infix-tail : (k : ℕ) (ks t : List ℕ) → is_infix (k ∷ ks) t ≡ true → is_infix ks t ≡ true
is_infix-tail k ks [] h = ground arith
is_infix-tail k ks (c ∷ []) h = ground arith
is_infix-tail k ks (c ∷ d ∷ t) h = ground (arith, is_infix-tail k ks (d ∷ t))

pub is_in-block : (text : String) → is_in "block" text ≡ true → is_in "lock" text ≡ true
unfolding is_in
is_in-block text h = is_infix-tail b'b' (codes "lock") (codes text) h

codes-append : (s t : String) → codes (String.◌++◌ s t) ≡ codes s ++ codes t
codes-append String.[] t = ap codes (append.nil t)
codes-append (String.◌∷◌ c s) t =
    ap codes (append.cons c s t) ∙ ap (◌∷◌ (code c)) (codes-append s t)

is_prefix-append : (ks t : List ℕ) → is_prefix ks (ks ++ t) ≡ true
is_prefix-append [] t = refl
is_prefix-append (k ∷ ks) t = ground (arith, is_prefix-append ks t)

is_infix-append : (ks t : List ℕ) → is_infix ks (ks ++ t) ≡ true
is_infix-append [] [] = refl
is_infix-append [] (c ∷ t) = refl
is_infix-append (k ∷ ks) t = ground (arith, is_prefix-append ks t)

is_infix-behind : (ks s t : List ℕ) → is_infix ks t ≡ true → is_infix ks (s ++ t) ≡ true
is_infix-behind ks [] t h = h
is_infix-behind ks (c ∷ s) t h = ground (arith, is_infix-behind ks s t h)

-- A text is in every text that begins with it, and in every text with an end that it is in.
pub is_in-append : (k t : String) → is_in k (String.◌++◌ k t) ≡ true
unfolding is_in
is_in-append k t =
    subst (λ (u : List ℕ). is_infix (codes k) u ≡ true) (sym (codes-append k t))
      (is_infix-append (codes k) (codes t))

pub is_in_self : (k : String) → is_in k k ≡ true
unfolding is_in
is_in_self k = subst (λ (u : String). is_in k u ≡ true) (append-nil k) (is_in-append k "")

pub is_in-behind : (k s t : String) → is_in k t ≡ true → is_in k (String.◌++◌ s t) ≡ true
unfolding is_in
is_in-behind k s t h =
    subst (λ (u : List ℕ). is_infix (codes k) u ≡ true) (sym (codes-append s t))
      (is_infix-behind (codes k) (codes s) (codes t) h)
