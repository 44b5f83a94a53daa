-- ===== src/Prelude/Strip.antt =====
-- `str.strip` and the first part of `str.split`. The spaces are those of Latin-1, in which headers are
-- read.
use Prim.Native.Char.{Char, code}
use Prim.Native.String.{String}
use infra_red.Prelude.{ℕ, Bool, List, [], ◌∷◌, ◌&&◌, ◌||◌, leb, ◌==◌, str_eq, if◌then◌else◌}

is_space : Char → Bool
is_space c =
    (leb 9 (code c) && leb (code c) 13)
    || (leb 28 (code c) && leb (code c) 32)
    || (code c == 0x85)
    || (code c == 0xa0)

lstrip : String → String
unfolding is_space
lstrip String.[] = ""
lstrip (String.◌∷◌ c s) = let rest = lstrip s in if is_space c then rest else String.◌∷◌ c s

rstrip : String → String
unfolding is_space
rstrip String.[] = ""
rstrip (String.◌∷◌ c s) =
    let rest = rstrip s in if str_eq rest "" && is_space c then "" else String.◌∷◌ c rest

-- `s.strip()`
unfoldable pub strip : String → String
unfolding lstrip rstrip
strip s = rstrip (lstrip s)

-- `s.rstrip(c)`
unfoldable pub rstrip_char : ℕ → String → String
rstrip_char k String.[] = ""
rstrip_char k (String.◌∷◌ c s) =
    let rest = rstrip_char k s in if str_eq rest "" && (code c == k) then "" else String.◌∷◌ c rest

-- `s.split(c)[0]`
unfoldable pub before_char : ℕ → String → String
before_char c String.[] = ""
before_char c (String.◌∷◌ d s) =
    let rest = before_char c s in if code d == c then "" else String.◌∷◌ d rest

-- the first part grows by a character
abbrev pub grow : Char → List String → List String
grow d [] = String.◌∷◌ d "" ∷ []
grow d (p ∷ parts) = String.◌∷◌ d p ∷ parts

-- `s.split(c)`
unfoldable pub split_char : ℕ → String → List String
split_char c String.[] = "" ∷ []
split_char c (String.◌∷◌ d s) =
    let rest = split_char c s in if code d == c then "" ∷ rest else grow d rest

spaced : String → List String
unfolding is_space
spaced String.[] = "" ∷ []
spaced (String.◌∷◌ c s) = let rest = spaced s in if is_space c then "" ∷ rest else grow c rest

nonempty : List String → List String
nonempty [] = []
nonempty (p ∷ parts) = let rest = nonempty parts in if str_eq p "" then rest else p ∷ rest

-- `s.split()`
unfoldable pub words : String → List String
unfolding spaced nonempty
words s = nonempty (spaced s)
