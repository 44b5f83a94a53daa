-- ===== src/Prelude/Format.antt =====
-- The texts that f-strings build.
pub mod Numbers
use Prim.Native.String.{String}
use Prim.Native.String
use mathlib.Core.Bool.{Bool, true, false}
use mathlib.Core.List.{List, [], ◌∷◌}
use mathlib.Core.Option.{Option, none, some}
use infra_red.Prelude.{ℕ, zero, suc, ◌/◌, ◌%◌, ltb, get_or, str_eq, if◌then◌else◌}

-- `s + t`
infixr 60 ◌^^◌
abbrev pub ◌^^◌ : String → String → String
s ^^ t = String.◌++◌ s t

abbrev decimal_digits : List String
decimal_digits = "0" ∷ "1" ∷ "2" ∷ "3" ∷ "4" ∷ "5" ∷ "6" ∷ "7" ∷ "8" ∷ "9" ∷ []

-- Every call divides by ten, so `n + 1` calls are enough.
decimal : ℕ → ℕ → String
decimal zero n = ""
decimal (suc fuel) n =
    let front = decimal fuel (n / 10) in
    let last = get_or decimal_digits (n % 10) "" in if ltb n 10 then last else front ^^ last

-- `str(n)`
unfoldable pub show : ℕ → String
unfolding decimal
show n = decimal (suc n) n

-- `sep.join(parts)`
unfoldable pub join : String → List String → String
join sep [] = ""
join sep (s ∷ []) = s
join sep (s ∷ t ∷ r) = s ^^ sep ^^ join sep (t ∷ r)

-- the truth value of an optional text: None and "" are false
abbrev pub truthy : Option String → Bool
truthy none = false
truthy (some s) = if str_eq s "" then false else true

-- `h or ""`
abbrev pub or_empty : Option String → String
or_empty none = ""
or_empty (some s) = s

-- `s or d`
abbrev pub text_or : Option String → String → String
text_or none d = d
text_or (some s) d = if str_eq s "" then d else s

-- `s[:n]`
unfoldable pub slice_to : ℕ → String → String
slice_to zero s = ""
slice_to (suc n) String.[] = ""
slice_to (suc n) (String.◌∷◌ c s) = String.◌∷◌ c (slice_to n s)
