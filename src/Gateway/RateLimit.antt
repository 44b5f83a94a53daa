-- ===== src/Gateway/RateLimit.antt =====
-- backend/app/middleware/rate_limit.py: the sliding window over a sorted set. Times are milliseconds, and
-- the server of Redis counts whole seconds of the same clock.
pub mod Window
pub mod Member
pub mod Refine
pub mod Bound
pub mod Race
use infra_red.Prelude.{
  ℕ, ◌+◌, ◌-◌, ◌*◌, ◌/◌, String, Bool, true, false, Option, none, some, List, [], ◌∷◌, leb, max,
  str_eq, if◌then◌else◌,
}
use infra_red.Prelude.Int.{ℤ, pos, sub_ℕ}
use infra_red.Prelude.Format.{◌^^◌, show, truthy, or_empty, slice_to}
use infra_red.Prelude.Case.{lower}
use infra_red.Prelude.Strip.{strip, before_char}
use infra_red.Redis.{Redis}
use infra_red.Redis.Sorted.{Sorted}

pub data ByMode : Type 0 where
  ip email_or_ip user token : ByMode

-- what the limiter reads of a request; the texts of headers are none where they are absent
pub record Request : Type 0 where
  pub x_forwarded_for : Option String
  pub host : Option String
  pub body : String
  pub authorization : Option String
  pub path_token : Option String

-- `_client_ip`
unfoldable pub client_ip : Request → String
unfolding before_char strip
client_ip request =
    let fwd = strip (before_char b',' (or_empty request.x_forwarded_for)) in
    if str_eq fwd "" then elim request.host [ none ↦ "unknown" | some host ↦ host ] else fwd

-- `_extract_identifier`. `email_of` is the email of the JSON object in a body, none where that is not
-- JSON, not an object or has no text there; `sha256` is the digest in hexadecimal digits.
module _ (email_of : String → Option String) (sha256 : String → String) where
  unfoldable pub extract_identifier : Request → ByMode → String
  unfolding client_ip lower strip slice_to
  extract_identifier request ByMode.ip = "ip:" ^^ client_ip request
  extract_identifier request ByMode.email_or_ip =
      let email = email_of request.body in
      if truthy email
      then "email:" ^^ strip (lower (or_empty email))
      else "ip:" ^^ client_ip request
  extract_identifier request ByMode.user =
      if truthy request.authorization
      then "user:" ^^ slice_to 16 (sha256 (or_empty request.authorization))
      else "ip:" ^^ client_ip request
  extract_identifier request ByMode.token =
      if truthy request.path_token
      then "token:" ^^ slice_to 16 (or_empty request.path_token)
      else "ip:" ^^ client_ip request

unfoldable pub bucket_key : String → String → String
bucket_key bucket identifier = "rl:" ^^ bucket ^^ ":" ^^ identifier

-- a refusal is 429 with the seconds of Retry-After
pub data Outcome : Type 0 where
  admitted : Outcome
  refused : ℕ → Outcome

-- the score of the oldest entry
abbrev pub retry_after : ℕ → ℕ → List (String × ℕ) → ℕ
retry_after window_seconds now_ms [] = window_seconds
retry_after window_seconds now_ms ((m, s) ∷ rest) =
    max 1 ((s + window_seconds * 1000 - now_ms) / 1000)

unfoldable pub member : ℕ → ℕ → String
member now_ms count = show now_ms ^^ "-" ^^ show count

module _ {R : Redis String} (Z : Sorted R) (max_requests window_seconds : ℕ) (key : String) where
  abbrev pub prune : ℕ → R.Db → R.Db
  prune now_ms db =
      Z.zremrangebyscore (now_ms / 1000) key (pos 0) (sub_ℕ now_ms (window_seconds * 1000)) db

  abbrev pub register : ℕ → ℕ → R.Db → R.Db
  register now_ms count db =
      R.expire (now_ms / 1000) key (window_seconds + 60)
        (Z.zadd (now_ms / 1000) key (member now_ms count) now_ms db)

  -- what follows the count
  unfoldable pub settle : ℕ → ℕ → R.Db → R.Db × Outcome
  settle now_ms count db =
      if leb max_requests count
      then (db, refused (retry_after window_seconds now_ms (Z.zrange (now_ms / 1000) key db)))
      else (register now_ms count db, admitted)

  -- `dependency`, where Redis answers
  unfoldable pub limit : ℕ → R.Db → R.Db × Outcome
  unfolding settle
  limit now_ms db =
      let pruned = prune now_ms db in settle now_ms (Z.zcard (now_ms / 1000) key pruned) pruned

  -- `dependency`: a Redis that fails, none, lets the request pass
  unfoldable pub dependency : ℕ → Option R.Db → Option R.Db × Outcome
  unfolding limit
  dependency now_ms none = (none, admitted)
  dependency now_ms (some db) = let (db', outcome) = limit now_ms db in (some db', outcome)

  -- the requests of one bucket, one after another
  unfoldable pub serve : List ℕ → R.Db → List Outcome
  unfolding limit
  serve [] db = []
  serve (now ∷ later) db = let (db', outcome) = limit now db in outcome ∷ serve later db'

  -- Two requests of one millisecond that both count before one of them registers: the commands of the
  -- two are not one transaction.
  unfoldable pub overlap : ℕ → R.Db → R.Db × Outcome × Outcome
  unfolding settle
  overlap now_ms db =
      let pruned = prune now_ms (prune now_ms db) in
      let count = Z.zcard (now_ms / 1000) key pruned in
      let first = settle now_ms count pruned in
      let second = settle now_ms count first.0 in (second.0, first.1, second.1)
