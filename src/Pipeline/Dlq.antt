-- ===== src/Pipeline/Dlq.antt =====
-- backend/app/workers/dlq.py: retries of failed messages, and the stream of dead letters. The entries that
-- XAUTOCLAIM hands over are an argument. The world `W` is what the handler works on.
pub mod Trim
pub mod Retries
pub mod Accounts
pub mod Lost
use infra_red.Prelude.{
  ℕ, zero, suc, ◌+◌, ◌*◌, String, Bool, true, false, Option, none, some, List, [], ◌∷◌, ◌++◌, leb,
  length, find, or_else, if◌then◌else◌,
}
use infra_red.Prelude.Format.{◌^^◌, text_or, slice_to}
use infra_red.Redis.{Redis}

abbrev pub retry_ttl_seconds : ℕ
retry_ttl_seconds = 86400

unfoldable pub retry_key : String → String
retry_key stream_id = "dlq:retry:" ^^ stream_id

-- the fields of an entry of a stream
abbrev pub Fields : Type 0
Fields = List (String × String)

-- an entry of the stream of dead letters
pub record Letter : Type 0 where
  pub stage : String
  pub stream_id : String
  pub payload : String
  pub error : String
  pub failed_at : ℕ

abbrev pub dlq_maxlen : ℕ
dlq_maxlen = 10000

-- XADD with an approximate MAXLEN: up to `n` of the oldest entries go, while `maxlen` entries stay.
unfoldable pub trim_oldest : ℕ → ℕ → List Letter → List Letter
trim_oldest maxlen n [] = []
trim_oldest maxlen zero (l ∷ letters) = l ∷ letters
trim_oldest maxlen (suc n) (l ∷ letters) =
    let rest = trim_oldest maxlen n letters in
    if leb maxlen (length letters) then rest else l ∷ letters

-- `fields.get("payload") or fields.get("signal") or ""`
unfoldable pub payload_of : Fields → String
payload_of fields = text_or (find "payload" fields) (text_or (find "signal" fields) "")

-- `trims` is the choice of Redis: how many of the oldest letters of a stream it is ready to drop.
pub record Queue (R : Redis ℕ) (W : Type 0) : Type 0 where
  pub world : W
  pub kv : R.Db
  pub acked : List String
  pub dead : List Letter
  pub trims : List Letter → ℕ

module _ (R : Redis ℕ) where
  open R use {Db, get, set_ex, delete}

  unfoldable pub get_retry_count : ℕ → String → Db → ℕ
  get_retry_count now stream_id db = or_else (get now (retry_key stream_id) db) 0

  -- INCR and EXPIRE
  unfoldable pub increment_retry : ℕ → String → Db → ℕ × Db
  unfolding get_retry_count
  increment_retry now stream_id db =
      let count = get_retry_count now stream_id db + 1 in
      (count, set_ex now (retry_key stream_id) count retry_ttl_seconds db)

  unfoldable pub clear_retry : String → Db → Db
  clear_retry stream_id db = delete (retry_key stream_id) db

module _ (R : Redis ℕ) (W : Type 0) where
  unfoldable pub push_to_dlq : ℕ → String → String → String → String → Queue R W → Queue R W
  push_to_dlq now stage stream_id payload error q =
      let letter : Letter = record {
        stage = stage;
        stream_id = stream_id;
        payload = slice_to 4096 payload;
        error = slice_to 1000 error;
        failed_at = now;
      } in
      let letters = q.dead ++ letter ∷ [] in
      record q {
        kv = clear_retry R stream_id q.kv;
        dead = trim_oldest dlq_maxlen (q.trims letters) letters;
      }

  -- XACK
  abbrev pub xack : String → Queue R W → Queue R W
  xack stream_id q = record q { acked = q.acked ++ stream_id ∷ [] }

  -- What `handler` gives: the text of the exception that it raised, if it did, and the world.
  abbrev pub Handler : Type 0
  Handler = String → Fields → W → Option String × W

  -- the branch of the exception
  unfoldable pub handle_failure : ℕ → String → ℕ → String → Fields → String → Queue R W → Queue R W
  handle_failure now stage max_retries sid fields error q =
      let (count, kv) = increment_retry R now sid q.kv in
      if leb max_retries count
      then xack sid (push_to_dlq now stage sid (payload_of fields) error (record q { kv = kv }))
      else record q { kv = kv }

  -- one turn of the loop of `reclaim_pending`
  unfoldable pub reclaim_one : Handler → ℕ → String → ℕ → String → Fields → Queue R W → Queue R W
  reclaim_one handler now stage max_retries sid fields q =
      let (raised, world) = handler sid fields q.world in
      elim raised [
        | none ↦ record q {
          world = world;
          acked = q.acked ++ sid ∷ [];
          kv = clear_retry R sid q.kv;
        }
        | some error ↦
            handle_failure now stage max_retries sid fields error (record q { world = world })
      ]

  unfoldable pub reclaim_all :
      Handler → ℕ → String → ℕ → List (String × Fields) → Queue R W → Queue R W
  reclaim_all handler now stage max_retries [] q = q
  reclaim_all handler now stage max_retries ((sid, fields) ∷ rest) q =
      reclaim_all handler now stage max_retries rest
        (reclaim_one handler now stage max_retries sid fields q)

  -- none claimed: XAUTOCLAIM failed
  unfoldable pub reclaim_pending :
      Handler → ℕ → String → ℕ → Option (List (String × Fields)) → Queue R W → Queue R W
  reclaim_pending handler now stage max_retries none q = q
  reclaim_pending handler now stage max_retries (some claimed) q =
      reclaim_all handler now stage max_retries claimed q
