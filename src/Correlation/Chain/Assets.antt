-- ===== src/Correlation/Chain/Assets.antt =====
-- backend/app/workers/correlation/attack_chain.py: LATERAL_MOVEMENT counts the distinct assets.
use infra_red.Prelude.{
  ℕ, ◌+◌, ◌≤◌, ◌<◌, ◌≡◌, String, false, some, List, [], ◌∷◌, leb, str_eq_refl, contains, get_elem?,
  arith, if◌then◌else◌,
}
use infra_red.Redis.{Redis}
use infra_red.Correlation.Chain.{
  ScenarioStage, AttackScenario, ScenarioState, lateral_movement_assets, track_asset,
  process_lateral_movement,
}

-- A login on an asset, with the time at which its signal is processed.
pub record Visit : Type 0 where
  pub time : ℕ
  pub asset : String

abbrev pub assets : List Visit → List String
assets [] = []
assets (v ∷ h) = v.asset ∷ assets h

-- `len(set(xs))`
abbrev pub distinct : List String → ℕ
distinct [] = 0
distinct (x ∷ xs) = if contains xs x then distinct xs else distinct xs + 1

-- At this time the newest visit is not a window old.
abbrev pub IsAlive : ℕ → List Visit → ℕ → Type 0
IsAlive window [] t = Unit
IsAlive window (v ∷ h) t = (v.time ≤ t) × (t < v.time + window)

-- Newest first, each less than a window after the one before.
abbrev pub IsChained : ℕ → List Visit → Type 0
IsChained window [] = Unit
IsChained window (v ∷ h) = IsAlive window h v.time × IsChained window h

module _ (R : Redis ScenarioState) (key : String) (window : ℕ) where
  open R use {
    Db, sismember, scard, sadd, expire, sismember-sadd, scard-sadd, sismember-expire, scard-expire,
  }

  unfoldable pub visit_all : List Visit → Db → Db
  visit_all [] db = db
  visit_all (v ∷ h) db = (track_asset R v.time key v.asset window (visit_all h db)).1

  -- While the newest visit lasts, the set holds the assets of the visits.
  record IsCounted (h : List Visit) (db : Db) : Type 0 where
    card : (t : ℕ) → IsAlive window h t → scard t key db ≡ distinct (assets h)
    member :
        (t : ℕ) (m : String) → IsAlive window h t → sismember t key m db ≡ contains (assets h) m

  step :
      (v : Visit) (h : List Visit) (db : Db)
      → IsAlive window h v.time
      → IsCounted h db
      → IsCounted (v ∷ h) (track_asset R v.time key v.asset window db).1
  unfolding track_asset
  step v h db alive c =
      let db1 = sadd v.time key v.asset db in
      record {
        card = λ t a. ground (
          arith,
          scard-expire t v.time key window db1 a.0,
          scard-sadd v.time key v.asset db,
          c.card v.time alive,
          c.member v.time v.asset alive,
        );
        member = λ t m a. ground (
          arith,
          sismember-expire t v.time key m window db1 a.0,
          sismember-sadd v.time key key v.asset m db,
          str_eq_refl key,
          c.member v.time m alive,
        );
      }

  visit_all-IsCounted :
      (h : List Visit) (db : Db)
      → IsChained window h
      → ((t : ℕ) → scard t key db ≡ 0)
      → ((t : ℕ) (m : String) → sismember t key m db ≡ false)
      → IsCounted h (visit_all h db)
  unfolding visit_all
  visit_all-IsCounted [] db ch empty none_in = record {
    card = λ t a. empty t;
    member = λ t m a. none_in t m;
  }
  visit_all-IsCounted (v ∷ h) db ch empty none_in =
      step v h (visit_all h db) ch.0 (visit_all-IsCounted h db ch.1 empty none_in)

  count_lem :
      (v : Visit) (h : List Visit) (db : Db)
      → 0 < window
      → IsChained window (v ∷ h)
      → ((t : ℕ) → scard t key db ≡ 0)
      → ((t : ℕ) (m : String) → sismember t key m db ≡ false)
      → (track_asset R v.time key v.asset window (visit_all h db)).0 ≡ distinct (assets (v ∷ h))
  unfolding track_asset visit_all
  count_lem v h db pos ch empty none_in =
      (visit_all-IsCounted (v ∷ h) db ch empty none_in).card v.time (omega arith)

module _ (R : Redis ScenarioState) (tenant_id source_ip : String) (sc : AttackScenario) where
  open R use {Db, sismember, scard}

  abbrev pub key : String
  key = lateral_movement_assets tenant_id source_ip

  -- Where each login of a source comes less than a window after the one before, and the first finds no
  -- assets stored, the last one completes the scenario exactly if the logins are on as many distinct
  -- assets as its first stage asks for.
  pub lateral_movement_lem :
      (s : ScenarioStage) (v : Visit) (h : List Visit) (db : Db)
      → get_elem? sc.stages 0 ≡ some s
      → 0 < sc.window_seconds
      → IsChained sc.window_seconds (v ∷ h)
      → ((t : ℕ) → scard t key db ≡ 0)
      → ((t : ℕ) (m : String) → sismember t key m db ≡ false)
      → (db' : Db) × (process_lateral_movement R v.time tenant_id source_ip v.asset sc
            (visit_all R key sc.window_seconds h db)
          ≡ some (leb s.min_distinct_assets (distinct (assets (v ∷ h))), db'))
  unfolding process_lateral_movement
  lateral_movement_lem s v h db found pos ch empty none_in =
      let before = visit_all R key sc.window_seconds h db in
      (
        (track_asset R v.time key v.asset sc.window_seconds before).1,
        rw (
          found,
          process_lateral_movement,
          count_lem R key sc.window_seconds v h db pos ch empty none_in,
        ),
      )
