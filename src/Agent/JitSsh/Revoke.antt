-- ===== src/Agent/JitSsh/Revoke.antt =====
-- A key that is put in and taken out again.
use infra_red.Prelude.{
  ℕ, ◌+◌, ◌*◌, min, ◌≡◌, refl, ap, ◌∙◌, String, Bool, true, false, some, List, ◌∷◌, ◌++◌, or_else,
  str_eq, str_eq_refl, if◌then◌else◌,
}
use infra_red.Prelude.Format.{◌^^◌, truthy, or_empty}
use infra_red.Prelude.Case.{is_in, is_in-append}
use infra_red.Prelude.Dict.{put, pop, entry_of, entry-put}
use infra_red.Prelude.Strip.{strip}
use infra_red.Agent.JitSsh.{
  default_ttl_minutes, max_ttl_minutes, Entry, Manager, InjectCommand, revoked, is_valid_pubkey,
  marker, appended, write_file, cleaned, inject_temp_key, do_revoke, revoke_temp_key,
}
use infra_red.Agent.JitSsh.Marker.{
  Unmarked, marker-marks, cleaned-Unmarked, cleaned-append, cleaned-marker,
}

-- the line break that an injection begins with is no marker
blank_lem :
    (command_id : String) (lines : List String)
    → cleaned command_id false ("\n" ∷ lines) ≡ "\n" ∷ cleaned command_id false lines
unfolding cleaned is_in
blank_lem command_id lines = refl

own : {b : Bool} (x y : List String) → b ≡ true → (if b then x else y) ≡ x
own x y e = rw e refl

others : {b : Bool} (x y : List String) → b ≡ false → (if b then x else y) ≡ y
others x y e = rw e refl

-- Taking out a command whose id is a part of the id of another command takes out that one's marker too,
-- and the line of its key, with no regard to its time.
pub part_of_id_revokes :
    (iso : ℕ → String) (at : ℕ) (entry : Entry) (other key : String) (before rest : List String)
    (m : Manager)
    → is_in entry.command_id (other ^^ "\n") ≡ true
    → Unmarked entry.command_id before
    → Unmarked entry.command_id rest
    → m.files entry.target_user ≡ before ++ (marker iso at other ∷ key ∷ rest)
    → (do_revoke entry m).files entry.target_user ≡ before ++ rest
unfolding do_revoke
part_of_id_revokes iso at entry other key before rest m part before_ rest_ e =
    own _ _ (str_eq_refl entry.target_user)
    ∙ ap (cleaned entry.command_id false) e
    ∙ cleaned-append entry.command_id before (marker iso at other ∷ key ∷ rest) before_
    ∙ ap (λ (ls : List String). before ++ ls)
        (cleaned-marker entry.command_id (marker iso at other) key rest
            (marker-marks iso at entry.command_id other part)
          ∙ cleaned-Unmarked entry.command_id rest rest_)

written :
    (user : String) (lines : List String) (files : String → List String)
    → write_file user lines files user ≡ lines
written user lines files = own lines (files user) (str_eq_refl user)

unwritten :
    (user u : String) (lines : List String) (files : String → List String)
    → str_eq u user ≡ false
    → write_file user lines files u ≡ files u
unwritten user u lines files e = others lines (files u) e

revoke_lem :
    (command_id : String) (entry : Entry) (m : Manager)
    → truthy (some command_id) ≡ true
    → entry_of command_id m.entries ≡ some entry
    → revoke_temp_key (some command_id) m
      ≡ (do_revoke entry (record m { entries = pop command_id m.entries }), revoked)
unfolding revoke_temp_key
revoke_lem command_id entry m nonempty e = rw (nonempty, e) refl

module _ (b64 : String → Bool) (iso : ℕ → String) (now : ℕ) (command : InjectCommand)
    (command_id key_line : String) (rest : List String) (m : Manager) where
  abbrev user : String
  user = or_else command.user "deploy"

  abbrev ends : ℕ
  ends = now + min (or_else command.ttl_minutes default_ttl_minutes) max_ttl_minutes * 60

  abbrev entry : Entry
  entry = record {
    command_id = command_id;
    target_user = user;
    public_key = strip (or_empty command.public_key);
    expires_at = ends;
  }

  inject_lem :
      command.id ≡ some command_id
      → is_valid_pubkey b64 (strip (or_empty command.public_key)) ≡ true
      → appended iso ends command_id (strip (or_empty command.public_key))
        ≡ "\n" ∷ marker iso ends command_id ∷ key_line ∷ rest
      → (inject_temp_key b64 iso now command m).0 ≡ record {
        entries = put command_id entry m.entries;
        files =
            write_file user
              (m.files user ++ ("\n" ∷ marker iso ends command_id ∷ key_line ∷ rest))
              m.files;
      }
  unfolding inject_temp_key
  inject_lem named valid split = rw (named, valid, split) refl

  -- A command with an id and a valid key, whose marker is read back as a line of its own, in a file none of
  -- whose lines, and in no line of the key behind its first, is a marker of the command: taking it out after
  -- putting it in succeeds, gives the lines of the file back with an empty line and the lines of the key
  -- behind its first, and leaves the file of each other user. So only a key that is read back as one line
  -- is gone from the file.
  pub revoke-inject :
      (u : String)
      → command.id ≡ some command_id
      → truthy (some command_id) ≡ true
      → is_valid_pubkey b64 (strip (or_empty command.public_key)) ≡ true
      → appended iso ends command_id (strip (or_empty command.public_key))
        ≡ "\n" ∷ marker iso ends command_id ∷ key_line ∷ rest
      → Unmarked command_id (m.files user)
      → Unmarked command_id rest
      → str_eq u user ≡ false
      → let out = revoke_temp_key (some command_id) (inject_temp_key b64 iso now command m).0 in
        (out.1 ≡ revoked)
        × (out.0.files user ≡ m.files user ++ "\n" ∷ rest)
        × (out.0.files u ≡ m.files u)
  unfolding do_revoke
  revoke-inject u named nonempty valid split before_ rest_ other =
      let lines = m.files user ++ ("\n" ∷ marker iso ends command_id ∷ key_line ∷ rest) in
      let after : Manager = record {
        entries = put command_id entry m.entries;
        files = write_file user lines m.files;
      } in
      let gone = cleaned command_id false (after.files user) in
      rw
        (
          inject_lem named valid split,
          revoke_lem command_id entry after nonempty (entry-put command_id entry m.entries),
        )
        (
          refl,
          written user gone after.files
              ∙ ap (cleaned command_id false) (written user lines m.files)
              ∙ cleaned-append command_id (m.files user) _ before_
              ∙ ap (λ (ls : List String). m.files user ++ ls)
                  (blank_lem command_id (marker iso ends command_id ∷ key_line ∷ rest)
                    ∙ ap (◌∷◌ "\n") (
                        cleaned-marker command_id (marker iso ends command_id) key_line rest (
                          marker-marks iso ends command_id command_id
                            (is_in-append command_id "\n"))
                        ∙ cleaned-Unmarked command_id rest rest_)),
          unwritten user u gone after.files other ∙ unwritten user u lines m.files other,
        )
