-- ===== src/Pipeline/Dlq/Retries.antt =====
-- backend/app/workers/dlq.py: an entry whose handler always raises.
use infra_red.Prelude.{
  ℕ, ◌+◌, ◌≤◌, ◌<◌, ◌≡◌, refl, sym, subst, ◌∙◌, String, true, some, List, [], ◌∷◌, ◌++◌, leb,
  length, str_eq_refl, or_else, arith,
}
use infra_red.Redis.{Redis}
use infra_red.Pipeline.Dlq.Trim.{Trimmed, trim_oldest-Trimmed}
use infra_red.Pipeline.Dlq.{
  dlq_maxlen, Fields, Letter, Queue, Handler, retry_key, retry_ttl_seconds, get_retry_count,
  increment_retry, clear_retry, push_to_dlq, handle_failure, reclaim_one,
}

-- Each attempt is no earlier than the one before, and within the life of the counter.
abbrev pub Soon : ℕ → List ℕ → Type 0
Soon t [] = Unit
Soon t (u ∷ us) = (t ≤ u) × (u < t + retry_ttl_seconds) × Soon u us

module _ (R : Redis ℕ) (W : Type 0) (stage : String) (max_retries : ℕ) (sid : String)
    (fields : Fields) where
  open R use {get, set_ex, delete, get-set_ex, get-delete}

  -- the state after a failure, before the limit
  fail_below :
      (now t : ℕ) (error : String) (q : Queue R W)
      → get_retry_count R now sid q.kv + 1 < max_retries
      → now ≤ t
      → t < now + retry_ttl_seconds
      → let q' = handle_failure R W now stage max_retries sid fields error q in
        (q'.acked ≡ q.acked)
        × (q'.dead ≡ q.dead)
        × (get_retry_count R t sid q'.kv ≡ get_retry_count R now sid q.kv + 1)
  unfolding handle_failure increment_retry get_retry_count
  fail_below now t error q h l m =
      let c = or_else (get now (retry_key sid) q.kv) 0 in
      ground (
        arith,
        h,
        m,
        get-set_ex t now (retry_key sid) (retry_key sid) (c + 1) retry_ttl_seconds q.kv l,
        str_eq_refl (retry_key sid),
      )

  -- the state after a failure at the limit
  fail_at :
      (now t : ℕ) (error : String) (q : Queue R W)
      → max_retries ≤ get_retry_count R now sid q.kv + 1
      → let q' = handle_failure R W now stage max_retries sid fields error q in
        (q'.acked ≡ q.acked ++ sid ∷ [])
        × ((l : Letter) × Trimmed dlq_maxlen q.dead l q'.dead
            × (l.stream_id ≡ sid)
            × (l.stage ≡ stage))
        × (get_retry_count R t sid q'.kv ≡ 0)
  unfolding handle_failure increment_retry get_retry_count push_to_dlq clear_retry
  fail_at now t error q h =
      let c = or_else (get now (retry_key sid) q.kv) 0 + 1 in
      let y : leb max_retries c ≡ true = ground (arith, h) in
      let db = set_ex now (retry_key sid) c retry_ttl_seconds q.kv in
      rw y (
        refl,
        (_, trim_oldest-Trimmed dlq_maxlen _ q.dead _ (omega arith), refl, refl),
        ground
            (arith, get-delete t (retry_key sid) (retry_key sid) db, str_eq_refl (retry_key sid)),
      )

  module _ (handler : Handler R W) where
    -- the attempts at one entry, at the given times
    abbrev pub attempts : List ℕ → Queue R W → Queue R W
    attempts [] q = q
    attempts (t ∷ ts) q = attempts ts (reclaim_one R W handler t stage max_retries sid fields q)

    -- The handler raises on the entry, whatever the world.
    abbrev pub Raises : Type 0
    Raises = (w : W) → (error : String) × ((handler sid fields w).0 ≡ some error)

    -- the attempt is its failure
    attempt :
        (now : ℕ) (q : Queue R W) (error : String)
        → (handler sid fields q.world).0 ≡ some error
        → reclaim_one R W handler now stage max_retries sid fields q
          ≡ handle_failure R W now stage max_retries sid fields error
              (record q { world = (handler sid fields q.world).1 })
    unfolding reclaim_one
    attempt now q error e = rw (e, reclaim_one) refl

    -- What stays, and the count, after the failures before the limit.
    abbrev pub Below : ℕ → ℕ → Queue R W → Queue R W → Type 0
    Below t n q q' = (q'.acked ≡ q.acked) × (q'.dead ≡ q.dead) × (get_retry_count R t sid q'.kv ≡ n)

    attempts-Below :
        Raises
        → (now t n : ℕ) (ts : List ℕ) (q : Queue R W) → get_retry_count R now sid q.kv ≡ n
        → n + 1 + length ts < max_retries
        → Soon now (ts ++ t ∷ [])
        → Below t (n + 1 + length ts) q (attempts (now ∷ ts) q)
    attempts-Below f now t n [] q c h s =
        let (error, e) = f q.world in
        let (a, d, k) =
          fail_below now t error (record q { world = (handler sid fields q.world).1 })
            (omega (arith, c, h)) s.0 s.1 in
        rw (attempt now q error e) (a, d, omega (arith, k, c))
    attempts-Below f now t n (u ∷ us) q c h s =
        let (error, e) = f q.world in
        let q1 = record q { world = (handler sid fields q.world).1 } in
        let (a, d, k) = fail_below now u error q1 (omega (arith, c, h)) s.0 s.1 in
        let q2 = handle_failure R W now stage max_retries sid fields error q1 in
        let (a', d', k') =
          attempts-Below f u t (n + 1) us q2 (omega (arith, k, c)) (omega (arith, h)) s.2 in
        subst (λ z. Below t (n + 1 + length (u ∷ us)) q (attempts (u ∷ us) z))
          (sym (attempt now q error e)) (a' ∙ a, d' ∙ d, omega (arith, k'))

    -- the entry is acknowledged and is the last dead letter, and its counter is gone
    abbrev pub DeadLettered : ℕ → Queue R W → Queue R W → Type 0
    DeadLettered t q q' =
        (q'.acked ≡ q.acked ++ sid ∷ [])
        × ((l : Letter) × Trimmed dlq_maxlen q.dead l q'.dead
            × (l.stream_id ≡ sid)
            × (l.stage ≡ stage))
        × (get_retry_count R t sid q'.kv ≡ 0)

    last_attempt :
        Raises
        → (t : ℕ) (q : Queue R W) → max_retries ≤ get_retry_count R t sid q.kv + 1
        → DeadLettered t q (reclaim_one R W handler t stage max_retries sid fields q)
    last_attempt f t q h =
        let (error, e) = f q.world in
        subst (DeadLettered t q) (sym (attempt t q error e))
          (fail_at t t error (record q { world = (handler sid fields q.world).1 }) h)

    -- An entry that has no failures yet and whose handler always raises, with a limit of at least two
    -- attempts, which follow each other within the life of the counter: after one attempt less than the
    -- limit nothing is acknowledged or dead-lettered and the counter holds their number, and the next
    -- attempt acknowledges the entry, makes it the last dead letter, and removes the counter. The dead
    -- letters of before stay, less some of the oldest where at least 10,000 letters are left.
    pub DeadLettered-at_limit :
        Raises
        → (now t : ℕ) (ts : List ℕ) (q : Queue R W) → get_retry_count R now sid q.kv ≡ 0
        → 2 + length ts ≡ max_retries
        → Soon now (ts ++ t ∷ [])
        → Below t (1 + length ts) q (attempts (now ∷ ts) q)
          × DeadLettered t
              (attempts (now ∷ ts) q)
              (reclaim_one R W handler t stage max_retries sid fields (attempts (now ∷ ts) q))
    DeadLettered-at_limit f now t ts q c m s =
        let b = attempts-Below f now t 0 ts q c (omega (arith, m)) s in
        (b, last_attempt f t (attempts (now ∷ ts) q) (omega (arith, m, b.2)))
