-- ===== src/Agent/JitSsh.antt =====
-- agent/infrared_agent/jit_ssh.py: the keys of SSH that are put into authorized_keys for a time. A file is
-- its lines as they are read, each with its end; one that does not exist has none. What is appended comes
-- behind a last line that is ended, and not by a carriage return alone. Times are seconds. `b64` stands for the
-- validation of base64, `iso` for the text of a time. The reports to the backend are left out.
pub mod Marker
pub mod Revoke
use Prim.Native.Char.{code}
use infra_red.Prelude.All.{any}
use infra_red.Prelude.{
  ℕ, ◌+◌, ◌*◌, String, Bool, true, false, ◌&&◌, Option, none, some, List, [], ◌∷◌, ◌++◌, leb, ◌==◌,
  min, contains, or_else, str_eq, if◌then◌else◌,
}
use infra_red.Prelude.Format.{◌^^◌, truthy, or_empty}
use infra_red.Prelude.Case.{is_in}
use infra_red.Prelude.Dict.{put, pop, entry_of}
use infra_red.Prelude.Strip.{strip, words, grow}

abbrev pub default_ttl_minutes : ℕ
default_ttl_minutes = 10

abbrev pub max_ttl_minutes : ℕ
max_ttl_minutes = 60

abbrev pub valid_key_types : List String
valid_key_types = "ssh-rsa" ∷ "ssh-ed25519" ∷ "ecdsa-sha2-nistp256" ∷ []

abbrev pub jit_marker_prefix : String
jit_marker_prefix = "# InfraRed JIT SSH"

-- JITKeyEntry, less the copy of the file that nothing reads
pub record Entry : Type 0 where
  pub command_id : String
  pub target_user : String
  pub public_key : String
  pub expires_at : ℕ

-- The entries of the manager by command, and the authorized_keys of each user.
pub record Manager : Type 0 where
  pub entries : List (String × Entry)
  pub files : String → List String

-- the command `inject_temp_ssh_key`, as far as it is read
pub record InjectCommand : Type 0 where
  pub id : Option String
  pub public_key : Option String
  pub ttl_minutes : Option ℕ
  pub user : Option String

pub data Result : Type 0 where
  injected revoked : Result
  invalid_public_key_format command_id_not_found : Result

-- `_is_valid_pubkey`, on the parts of a key
abbrev pub valid_parts : (String → Bool) → List String → Bool
valid_parts b64 [] = false
valid_parts b64 (kind ∷ []) = false
valid_parts b64 (kind ∷ body ∷ rest) = contains valid_key_types kind && b64 body

unfoldable pub is_valid_pubkey : (String → Bool) → String → Bool
unfolding strip words
is_valid_pubkey b64 key = valid_parts b64 (words (strip key))

unfoldable pub marker : (ℕ → String) → ℕ → String → String
marker iso expires_at command_id =
    jit_marker_prefix ^^ " — expires " ^^ iso expires_at ^^ " command_id=" ^^ command_id ^^ "\n"

-- `read_text`, with its universal newlines; the flag says that a carriage return came before
unfoldable pub read_text : Bool → String → String
read_text after String.[] = ""
read_text after (String.◌∷◌ c s) =
    let rest = read_text (code c == 13) s in
    if code c == 13
    then "\n" ^^ rest
    else if after && (code c == 10)
    then rest
    else String.◌∷◌ c rest

-- the ends of lines, for a text that was read
abbrev pub line_breaks : List ℕ
line_breaks = 10 ∷ 11 ∷ 12 ∷ 28 ∷ 29 ∷ 30 ∷ 0x85 ∷ 0x2028 ∷ 0x2029 ∷ []

-- `splitlines(keepends=True)`
unfoldable pub split_lines : String → List String
split_lines String.[] = []
split_lines (String.◌∷◌ c s) =
    let rest = split_lines s in
    if any (λ b. code c == b) line_breaks then String.◌∷◌ c "" ∷ rest else grow c rest

abbrev pub write_file : String → List String → (String → List String) → String → List String
write_file user lines files u = if str_eq u user then lines else files u

-- the lines of what `inject_temp_key` appends: a line break, the marker and the text of the key
abbrev pub appended : (ℕ → String) → ℕ → String → String → List String
appended iso expires_at command_id public_key =
    split_lines (read_text false ("\n" ^^ marker iso expires_at command_id ^^ public_key ^^ "\n"))

module _ (b64 : String → Bool) (iso : ℕ → String) where
  unfoldable pub inject_temp_key : ℕ → InjectCommand → Manager → Manager × Result
  unfolding is_valid_pubkey strip
  inject_temp_key now command m =
      let public_key = strip (or_empty command.public_key) in
      let ttl_minutes = min (or_else command.ttl_minutes default_ttl_minutes) max_ttl_minutes in
      let target_user = or_else command.user "deploy" in
      let command_id = or_else command.id "unknown" in
      let expires_at = now + ttl_minutes * 60 in
      if is_valid_pubkey b64 public_key
      then (
        record {
          entries =
              put command_id
                (record {
                  command_id = command_id;
                  target_user = target_user;
                  public_key = public_key;
                  expires_at = expires_at;
                })
                m.entries;
          files =
              write_file target_user
                (m.files target_user ++ appended iso expires_at command_id public_key) m.files;
        },
        injected,
      )
      else (m, invalid_public_key_format)

-- the lines that `_do_revoke` writes back; the flag is `skip_next`
abbrev pub is_marker : String → String → Bool
is_marker command_id line = is_in jit_marker_prefix line && is_in command_id line

unfoldable pub cleaned : String → Bool → List String → List String
unfolding is_in
cleaned command_id skip_next [] = []
cleaned command_id true (line ∷ lines) = cleaned command_id false lines
cleaned command_id false (line ∷ lines) =
    let marked = is_marker command_id line in
    let rest = cleaned command_id marked lines in if marked then rest else line ∷ rest

-- `_do_revoke`
unfoldable pub do_revoke : Entry → Manager → Manager
unfolding cleaned
do_revoke entry m = record m {
  files =
      write_file entry.target_user (cleaned entry.command_id false (m.files entry.target_user))
        m.files;
}

-- `revoke_temp_key`
unfoldable pub revoke_temp_key : Option String → Manager → Manager × Result
unfolding do_revoke
revoke_temp_key target_command_id m =
    if truthy target_command_id
    then elim (entry_of (or_empty target_command_id) m.entries) [
      | none ↦ (m, command_id_not_found)
      | some entry ↦ (
        do_revoke entry (record m { entries = pop (or_empty target_command_id) m.entries }),
        revoked,
      )
    ]
    else (m, command_id_not_found)

abbrev pub expired : ℕ → List (String × Entry) → List Entry
expired now [] = []
expired now ((j, e) ∷ d) =
    let rest = expired now d in if leb e.expires_at now then e ∷ rest else rest

unfoldable pub revoke_all : List Entry → Manager → Manager
unfolding do_revoke
revoke_all [] m = m
revoke_all (e ∷ es) m =
    revoke_all es (do_revoke e (record m { entries = pop e.command_id m.entries }))

-- one round of `_ttl_expiry_worker`
unfoldable pub expire_round : ℕ → Manager → Manager
unfolding revoke_all
expire_round now m = revoke_all (expired now m.entries) m
