-- ===== src/Agent/JitSsh/Marker.antt =====
-- The markers of the injected keys, and what removing them leaves.
use infra_red.Prelude.{
  ℕ, ◌≡◌, refl, ap, String, Bool, true, false, ◌&&◌, List, [], ◌∷◌, ◌++◌, arith,
}
use infra_red.Prelude.Format.{◌^^◌}
use infra_red.Prelude.Case.{is_in, is_in-append, is_in-behind}
use infra_red.Agent.JitSsh.{jit_marker_prefix, marker, is_marker, cleaned}

-- no line is a marker of the command
abbrev pub Unmarked : String → List String → Type 0
Unmarked command_id [] = Unit
Unmarked command_id (line ∷ lines) = (is_marker command_id line ≡ false) × Unmarked command_id lines

-- The marker of a command is taken for one of every command whose id is a part of its id and line break.
pub marker-marks :
    (iso : ℕ → String) (at : ℕ) (command_id other : String)
    → is_in command_id (other ^^ "\n") ≡ true
    → is_marker command_id (marker iso at other) ≡ true
unfolding marker
marker-marks iso at command_id other h =
    let front =
      is_in-append jit_marker_prefix (" — expires " ^^ iso at ^^ " command_id=" ^^ other ^^ "\n") in
    let behind =
      is_in-behind command_id jit_marker_prefix
        (" — expires " ^^ iso at ^^ " command_id=" ^^ other ^^ "\n")
        (is_in-behind command_id " — expires " (iso at ^^ " command_id=" ^^ other ^^ "\n") (
          is_in-behind command_id (iso at) (" command_id=" ^^ other ^^ "\n")
            (is_in-behind command_id " command_id=" (other ^^ "\n") h))) in
    both _ _ front behind
  where
    both : (a b : Bool) → a ≡ true → b ≡ true → (a && b) ≡ true
    both a b p q = ground (arith, p, q)

pub cleaned-Unmarked :
    (command_id : String) (lines : List String)
    → Unmarked command_id lines
    → cleaned command_id false lines ≡ lines
unfolding cleaned
cleaned-Unmarked command_id [] u = refl
cleaned-Unmarked command_id (line ∷ lines) u =
    rw u.0 (ap (◌∷◌ line) (cleaned-Unmarked command_id lines u.1))

pub cleaned-append :
    (command_id : String) (lines more : List String)
    → Unmarked command_id lines
    → cleaned command_id false (lines ++ more) ≡ lines ++ cleaned command_id false more
unfolding cleaned
cleaned-append command_id [] more u = refl
cleaned-append command_id (line ∷ lines) more u =
    rw u.0 (ap (◌∷◌ line) (cleaned-append command_id lines more u.1))

-- a marker goes, with the one line behind it
pub cleaned-marker :
    (command_id line key : String) (rest : List String)
    → is_marker command_id line ≡ true
    → cleaned command_id false (line ∷ key ∷ rest) ≡ cleaned command_id false rest
unfolding cleaned
cleaned-marker command_id line key rest h = rw h refl
