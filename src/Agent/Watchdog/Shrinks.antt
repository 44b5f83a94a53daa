-- ===== src/Agent/Watchdog/Shrinks.antt =====
-- Reports on log files that shrink.
use infra_red.Prelude.{
  ℕ, suc, ◌*◌, ◌<◌, ◌≡◌, refl, ap, String, Bool, true, ◌&&◌, some, List, [], ◌∷◌, ◌++◌, ltb, max,
  length, arith,
}
use infra_red.Prelude.All.{All}
use infra_red.Prelude.Dict.{put, entry_of, entry-put}
use infra_red.Agent.Watchdog.{Tamper, check_log}

-- one file, with its size at one look after another
unfoldable pub sizes_seen : String → List ℕ → List (String × ℕ) → List Tamper
unfolding check_log
sizes_seen path [] baseline = []
sizes_seen path (size ∷ sizes) baseline =
    let one = check_log path (some size) baseline in one.1 ++ sizes_seen path sizes one.0

small : ℕ → ℕ → Bool
small prev size = ltb (size * 10) prev && ltb 10240 prev

-- A file of more than 10 KiB that has shrunk below a tenth is reported at every look, for as long as it
-- stays below a tenth of the size that it once had: the size to compare with is never lowered.
pub truncation_repeats :
    (path : String) (prev : ℕ) (sizes : List ℕ) (baseline : List (String × ℕ))
    → entry_of path baseline ≡ some prev
    → 10240 < prev
    → All (λ size. size * 10 < prev) sizes
    → length (sizes_seen path sizes baseline) ≡ length sizes
unfolding sizes_seen check_log
truncation_repeats path prev [] baseline e big all = refl
truncation_repeats path prev (size ∷ sizes) baseline e big all =
    let kept : max size prev ≡ prev = omega (arith, all.0) in
    let found : ltb (size * 10) prev ≡ true = ground (arith, all.0) in
    let large : ltb 10240 prev ≡ true = ground (arith, big) in
    rw (e, kept, found, large)
      (ap suc (
        truncation_repeats path prev sizes (put path prev baseline) (entry-put path prev baseline)
          big all.1))
