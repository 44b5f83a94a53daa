-- ===== src/Prelude/Split.antt =====
-- `str.split` by a text.
use Prim.Native.Char.{code}
use Prim.Native.String.{String}
use infra_red.Prelude.{Option, none, some, ◌==◌, if◌then◌else◌}

-- the rest of a text that begins with another
abbrev pub drop_prefix : String → String → Option String
drop_prefix String.[] s = some s
drop_prefix (String.◌∷◌ k ks) String.[] = none
drop_prefix (String.◌∷◌ k ks) (String.◌∷◌ c s) = if code k == code c then drop_prefix ks s else none

-- the text behind the first place of another
abbrev pub behind : String → String → Option String
behind k String.[] = drop_prefix k ""
behind k (String.◌∷◌ c s) = elim (drop_prefix k (String.◌∷◌ c s)) [
  | some rest ↦ some rest
  | none ↦ behind k s
]

-- `s.split(k)[0]`
abbrev pub before_text : String → String → String
before_text k String.[] = ""
before_text k (String.◌∷◌ c s) = elim (drop_prefix k (String.◌∷◌ c s)) [
  | some rest ↦ ""
  | none ↦ String.◌∷◌ c (before_text k s)
]
