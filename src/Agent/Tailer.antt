-- ===== src/Agent/Tailer.antt =====
-- agent/infrared_agent/tailer.py, offset_store.py and `_send_log_events` of main.py: a log file is read from
-- the stored offset, and each line is sent and then its end is stored. A file is its bytes; lines end at a
-- newline. What an event says beside its place and its line is left out.
pub mod Text
pub mod Once
use infra_red.Prelude.{
  ℕ, zero, suc, ◌+◌, String, Bool, true, false, ◌&&◌, Option, none, some, List, [], ◌∷◌, ◌++◌, leb,
  ◌==◌, length, str_eq, if◌then◌else◌,
}

-- OffsetState
pub record OffsetState : Type 0 where
  pub inode : String
  pub offset : ℕ

pub record LogFile : Type 0 where
  pub inode : String
  pub content : List ℕ

-- the stored offset of the file, and the lines that the backend has taken, with their places
pub record Tail : Type 0 where
  pub state : Option OffsetState
  pub sent : List (ℕ × List ℕ)

-- where reading begins
unfoldable pub start_offset : Option OffsetState → LogFile → ℕ
start_offset none f = 0
start_offset (some s) f =
    if str_eq s.inode f.inode && leb s.offset (length f.content) then s.offset else 0

-- `handle.seek`
abbrev pub drop : ℕ → List ℕ → List ℕ
drop zero s = s
drop (suc n) [] = []
drop (suc n) (c ∷ s) = drop n s

abbrev pub grow_line : ℕ → List (List ℕ) → List (List ℕ)
grow_line c [] = (c ∷ []) ∷ []
grow_line c (l ∷ ls) = (c ∷ l) ∷ ls

-- what `readline` gives until it gives nothing
unfoldable pub lines : List ℕ → List (List ℕ)
lines [] = []
lines (c ∷ s) = let rest = lines s in if c == 10 then (c ∷ []) ∷ rest else grow_line c rest

-- the loop of `_send_log_events`; it ends where the backend does not take an event
unfoldable pub send_events : (ℕ → List ℕ → Bool) → String → ℕ → List (List ℕ) → Tail → Tail
send_events accepts inode offset [] t = t
send_events accepts inode offset (line ∷ rest) t =
    let new_offset = offset + length line in
    let more = send_events accepts inode new_offset rest (record {
      state = some (record { inode = inode; offset = new_offset });
      sent = t.sent ++ (offset, line) ∷ [];
    }) in
    if accepts offset line then more else t

-- `_send_log_events`
unfoldable pub send_log_events : (ℕ → List ℕ → Bool) → LogFile → Tail → Tail
unfolding start_offset lines send_events
send_log_events accepts f t =
    let offset = start_offset t.state f in
    send_events accepts f.inode offset (lines (drop offset f.content)) t

-- a file that grows, and a round after each growth
unfoldable pub follow : List (List ℕ × (ℕ → List ℕ → Bool)) → LogFile × Tail → LogFile × Tail
unfolding send_log_events
follow [] (f, t) = (f, t)
follow ((more, accepts) ∷ later) (f, t) =
    let grown : LogFile = record f { content = f.content ++ more } in
    follow later (grown, send_log_events accepts grown t)
