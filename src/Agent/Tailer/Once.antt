-- ===== src/Agent/Tailer/Once.antt =====
-- What is sent of a file that only grows.
use infra_red.Prelude.{ℕ, ◌+◌, ◌≡◌, ◌⊎◌, String, Bool, none, some, List, [], ◌∷◌, ◌++◌, length}
use infra_red.Agent.Tailer.{LogFile, Tail}
use infra_red.Agent.Tailer.Text.{text}

-- the offset is stored at the end of what was sent
abbrev pub Stored : String → Tail → Type 0
Stored inode t =
    ((t.state ≡ none) × (text t.sent ≡ []))
    ⊎ (t.state ≡ some (record { inode = inode; offset = length (text t.sent) }))

-- what was sent is the file up to the stored offset
pub record Prefix (f : LogFile) (t : Tail) : Type 0 where
  pub left : List ℕ
  pub split : text t.sent ++ left ≡ f.content
  pub stored : Stored f.inode t

module _ (accepts : ℕ → List ℕ → Bool) (inode : String) where
  abbrev next : ℕ → List ℕ → Tail → Tail
  next offset line t = record {
    state = some (record { inode = inode; offset = offset + length line });
    sent = t.sent ++ (offset, line) ∷ [];
  }

abbrev pub new_file : String → LogFile × Tail
new_file inode = (record { inode = inode; content = [] }, record { state = none; sent = [] })
