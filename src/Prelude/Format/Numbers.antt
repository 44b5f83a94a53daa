-- ===== src/Prelude/Format/Numbers.antt =====
-- The digits of a number tell it, also where two numbers stand with a dash between them.
use Prim.Native.Char.{code}
use Prim.Native.String.{String}
use Prim.Native.String.append
use text.Mathlib.TextLemmas.{append_assoc, append-nil}
use mathlib.Core.Path.{◌≡◌, refl, sym, ap, ◌∙◌}
use mathlib.Core.Bool.{Bool, true, false}
use infra_red.Prelude.{
  ℕ, zero, suc, ◌+◌, ◌-◌, ◌*◌, ◌/◌, ◌%◌, ◌<◌, ◌==◌, ltb, get_or, Bool-cases, inl, inr, arith,
  if◌then◌else◌,
}
use infra_red.Prelude.Format.{◌^^◌, show, decimal, decimal_digits}

-- `int(s)` of a text of digits, with the value read so far
unfoldable pub read : ℕ → String → ℕ
read acc String.[] = acc
read acc (String.◌∷◌ c s) = read (acc * 10 + (code c - b'0')) s

-- two numbers with a dash between them
unfoldable pub read_pair : ℕ → String → ℕ × ℕ
unfolding read
read_pair acc String.[] = (acc, 0)
read_pair acc (String.◌∷◌ c s) =
    let rest = read_pair (acc * 10 + (code c - b'0')) s in
    if code c == b'-' then (acc, read 0 s) else rest

first : String → ℕ
first String.[] = 0
first (String.◌∷◌ c s) = code c

is_one : String → Bool
is_one String.[] = false
is_one (String.◌∷◌ c String.[]) = true
is_one (String.◌∷◌ c (String.◌∷◌ d s)) = false

one-front :
    (s t : String)
    → is_one s ≡ true
    → (acc : ℕ)
    → (read acc (s ^^ t) ≡ read (acc * 10 + (first s - b'0')) t)
      × (read_pair acc (s ^^ t) ≡ (
          if first s == b'-' then (acc, read 0 t) else read_pair (acc * 10 + (first s - b'0')) t))
unfolding is_one first read read_pair
one-front String.[] t h acc = absurd (ground (arith, h))
one-front (String.◌∷◌ c String.[]) t h acc =
    let e : (String.◌∷◌ c "") ^^ t ≡ String.◌∷◌ c t =
      append.cons c "" t ∙ ap (String.◌∷◌ c) (append.nil t) in
    (ap (read acc) e, ap (read_pair acc) e)
one-front (String.◌∷◌ c (String.◌∷◌ d s)) t h acc = absurd (ground (arith, h))

digit_lem :
    (d : ℕ)
    → d < 10
    → (is_one (get_or decimal_digits d "") ≡ true) × (first (get_or decimal_digits d "") ≡ b'0' + d)
unfolding is_one first
digit_lem zero h = (refl, refl)
digit_lem (suc zero) h = (refl, refl)
digit_lem (suc (suc zero)) h = (refl, refl)
digit_lem (suc (suc (suc zero))) h = (refl, refl)
digit_lem (suc (suc (suc (suc zero)))) h = (refl, refl)
digit_lem (suc (suc (suc (suc (suc zero))))) h = (refl, refl)
digit_lem (suc (suc (suc (suc (suc (suc zero)))))) h = (refl, refl)
digit_lem (suc (suc (suc (suc (suc (suc (suc zero))))))) h = (refl, refl)
digit_lem (suc (suc (suc (suc (suc (suc (suc (suc zero)))))))) h = (refl, refl)
digit_lem (suc (suc (suc (suc (suc (suc (suc (suc (suc zero))))))))) h = (refl, refl)
digit_lem (suc (suc (suc (suc (suc (suc (suc (suc (suc (suc n)))))))))) h = absurd (omega arith)

digit-read :
    (d acc : ℕ) (t : String)
    → d < 10
    → (read acc (get_or decimal_digits d "" ^^ t) ≡ read (acc * 10 + d) t)
      × (read_pair acc (get_or decimal_digits d "" ^^ t) ≡ read_pair (acc * 10 + d) t)
digit-read d acc t h =
    let digit = digit_lem d h in
    let e = one-front (get_or decimal_digits d "") t digit.0 acc in
    (ground (arith, e.0, digit.1), ground (arith, e.1, digit.1))

-- the digits of a number, read before another text, leave that number
decimal-read :
    (f n : ℕ) (t : String)
    → n < f
    → (read 0 (decimal f n ^^ t) ≡ read n t) × (read_pair 0 (decimal f n ^^ t) ≡ read_pair n t)
unfolding decimal
decimal-read zero n t h = absurd (omega arith)
decimal-read (suc f) n t h = elim (Bool-cases (ltb n 10)) [
  | inl small ↦
      let e : n % 10 ≡ n = ground (arith, small) in
      let z : 0 * 10 + n ≡ n = omega arith in
      let d = digit-read n 0 t (ground (arith, small)) in
      rw (small, e) (d.0 ∙ ap (λ (k : ℕ). read k t) z, d.1 ∙ ap (λ (k : ℕ). read_pair k t) z)
  | inr large ↦
      let last = get_or decimal_digits (n % 10) "" in
      let ih = decimal-read f (n / 10) (last ^^ t) (ground (arith, large)) in
      let d = digit-read (n % 10) (n / 10) t (omega arith) in
      let e : n / 10 * 10 + n % 10 ≡ n = omega arith in
      rw (large, append_assoc (decimal f (n / 10)) last t)
        (ih.0 ∙ d.0 ∙ ap (λ (k : ℕ). read k t) e, ih.1 ∙ d.1 ∙ ap (λ (k : ℕ). read_pair k t) e)
]

-- `int(str(n))`
pub read-show : (n : ℕ) → read 0 (show n) ≡ n
unfolding show read
read-show n = rw (← append-nil (decimal (suc n) n)) (decimal-read (suc n) n "" (omega arith)).0

dash-read : (acc : ℕ) (t : String) → read_pair acc ("-" ^^ t) ≡ (acc, read 0 t)
unfolding first is_one
dash-read acc t = (one-front "-" t refl acc).1

pub pair_lem : (a b : ℕ) → read_pair 0 (show a ^^ "-" ^^ show b) ≡ (a, b)
unfolding show
pair_lem a b =
    (decimal-read (suc a) a ("-" ^^ show b) (omega arith)).1
    ∙ dash-read a (show b)
    ∙ ap (λ (k : ℕ). (a, k)) (read-show b)

-- Two numbers with a dash between them are told by the text.
pub show-pair-inj :
    (a b c d : ℕ) → show a ^^ "-" ^^ show b ≡ show c ^^ "-" ^^ show d → (a ≡ c) × (b ≡ d)
unfolding show
show-pair-inj a b c d e =
    let left = pair_lem a b in
    let right = pair_lem c d in
    let q = sym left ∙ ap (read_pair 0) e ∙ right in
    (ap (λ (p : ℕ × ℕ). p.0) q, ap (λ (p : ℕ × ℕ). p.1) q)
