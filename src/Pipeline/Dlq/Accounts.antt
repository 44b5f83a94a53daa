-- ===== src/Pipeline/Dlq/Accounts.antt =====
-- backend/app/workers/dlq.py: what is acknowledged was handled or dead-lettered.
use infra_red.Prelude.{
  ℕ, ◌≡◌, ◌≤◌, length, ◌⊎◌, String, Bool, true, none, List, [], ◌++◌, contains, str_eq,
}
use infra_red.Prelude.All.{any}
use infra_red.Redis.{Redis}
use infra_red.Pipeline.Dlq.{dlq_maxlen, Fields, Letter, Queue, Handler}

-- Is there a dead letter of the entry?
abbrev pub has_letter : String → List Letter → Bool
has_letter a dead = any (λ (l : Letter). str_eq l.stream_id a) dead

-- Some letters were written behind the others, and some of the oldest ones went, which are none unless at
-- least `dlq_maxlen` letters stayed.
abbrev pub Written : List Letter → List Letter → List Letter → Type 0
Written before pushed after =
    (gone : List Letter) × (before ++ pushed ≡ gone ++ after)
    × ((gone ≡ []) ⊎ (dlq_maxlen ≤ length after))

module _ (R : Redis ℕ) (W : Type 0) (handler : Handler R W) where
  -- The handler returned on the entry.
  abbrev pub Handled : String → Type 0
  Handled a = (fields : Fields) × (w : W) × ((handler a fields w).0 ≡ none)

  -- A newly acknowledged entry was handled or has one of the letters that were written.
  abbrev pub Accounted : Queue R W → Queue R W → Type 0
  Accounted q q' =
      (pushed : List Letter) × Written q.dead pushed q'.dead
      × ((a : String)
          → contains q'.acked a ≡ true
          → (contains q.acked a ≡ true) ⊎ (Handled a ⊎ (has_letter a pushed ≡ true)))
