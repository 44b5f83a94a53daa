-- ===== src/Correlation/Chain/Sound.antt =====
-- backend/app/workers/correlation/attack_chain.py: the stages of a scenario over a sequence of signals
-- from one source.
use infra_red.Prelude.{
  ℕ, ◌+◌, ◌≤◌, ◌≡◌, refl, sym, ◌∙◌, String, Bool, true, false, Option, none, some, List, [], ◌∷◌,
  ltb, str_eq, str_eq_refl, get_elem?, Option-cases, inl, inr, arith, if◌then◌else◌,
}
use infra_red.Prelude.All.{All, all}
use infra_red.Redis.{Redis}
use infra_red.Correlation.Chain.{
  ScenarioStage, AttackScenario, ScenarioState, scenario_state, is_complete, advance, progress,
  process_scenario_stage, process_match,
}
use infra_red.Correlation.Chain.Seen.{
  Event, seen, seen_recently, IsOrdered, newest, all-contains, all-append, all_mono, seen_now,
  seen-recent, IsOrdered-tail,
}

-- Every stage that is required has been seen lately.
abbrev pub AllSeen : List ScenarioStage → ℕ → ℕ → List Event → List ScenarioStage → Type 0
AllSeen stages now window h =
    All (λ s. s.required ≡ true → seen_recently stages now window h s.name ≡ true)

-- The progress that is stored is shown by the events.
abbrev IsShown : List ScenarioStage → List Event → Option ScenarioState → Type 0
IsShown stages h none = Unit
IsShown stages h (some s) =
    (all (seen stages s.first_seen_at h) s.completed_stages ≡ true) × (s.first_seen_at ≤ newest h)

shown_if :
    (stages : List ScenarioStage) (h : List Event) (s : ScenarioState) (b : Bool)
    → IsShown stages h (some s)
    → IsShown stages h (if b then some s else none)
shown_if stages h s true g = g
shown_if stages h s false g = tt

progress_lem :
    (stages : List ScenarioStage) (h : List Event) (window now : ℕ) (o : Option ScenarioState)
    → newest h ≤ now
    → IsShown stages h o
    → (all (seen stages (progress window now o).1 h) (progress window now o).0 ≡ true)
      × (now ≤ (progress window now o).1 + window)
      × ((progress window now o).1 ≤ now)
unfolding progress
progress_lem stages h window now none l g = (refl, omega arith, omega arith)
progress_lem stages h window now (some s) l g = ground arith

advance_lem :
    (sc : AttackScenario) (s : ScenarioStage) (idx : ℕ) (p : String → Bool) (c : List String)
    → all p c ≡ true
    → p s.name ≡ true
    → all p (advance sc s idx c) ≡ true
unfolding advance
advance_lem sc s idx p c a h = ground (arith, all-append p c s.name)

is_complete-AllSeen :
    (all_stages : List ScenarioStage) (now window start : ℕ) (h : List Event)
    (stages : List ScenarioStage) (c : List String)
    → all (seen all_stages start h) c ≡ true
    → now ≤ start + window
    → is_complete stages c ≡ true
    → AllSeen all_stages now window h stages
unfolding is_complete
is_complete-AllSeen all_stages now window start h [] c a l e = tt
is_complete-AllSeen all_stages now window start h (s ∷ rest) c a l e = (
  λ r.
      seen-recent all_stages start now window h s.name l
        (all-contains (seen all_stages start h) c s.name a (ground arith)),
  is_complete-AllSeen all_stages now window start h rest c a l (ground arith),
)

-- The progress after a signal of an existing stage.
module _ (sc : AttackScenario) where
  completed_by : Event → ScenarioStage → Option ScenarioState → List String
  completed_by e s o = advance sc s e.stage_idx (progress sc.window_seconds e.time o).0

  -- Earlier events stay shown, and the event shows its own stage.
  shown_next :
      (e : Event) (s : ScenarioStage) (h : List Event) (o : Option ScenarioState)
      → get_elem? sc.stages e.stage_idx ≡ some s
      → newest h ≤ e.time
      → IsShown sc.stages h o
      → all (seen sc.stages (progress sc.window_seconds e.time o).1 (e ∷ h)) (completed_by e s o)
        ≡ true
  unfolding completed_by
  shown_next e s h o found l g =
      let start = (progress sc.window_seconds e.time o).1 in
      let (shown, _, begun) = progress_lem sc.stages h sc.window_seconds e.time o l g in
      advance_lem sc s e.stage_idx (seen sc.stages start (e ∷ h)) _
        (all_mono (seen sc.stages start h) (seen sc.stages start (e ∷ h)) (λ n p. ground arith)
          (progress sc.window_seconds e.time o).0 shown)
        (seen_now sc.stages start e h s found begun)

module _ (R : Redis ScenarioState) (tenant_id source_ip : String) (sc : AttackScenario) where
  open R use {Db, get, set_ex, get-set_ex}

  abbrev key : String
  key = scenario_state sc.id tenant_id source_ip

  abbrev process : Event → Db → Option (Bool × Db)
  process e db = process_match R e.time tenant_id source_ip e.asset_id sc e.stage_idx db

  -- The server after the events, from the newest back.
  unfoldable pub replay : List Event → Db → Option Db
  replay [] db = some db
  replay (e ∷ h) db = elim (replay h db) [
    | none ↦ none
    | some db1 ↦ elim (process e db1) [ none ↦ none | some (_, db2) ↦ some db2 ]
  ]

  -- From now on the stored progress is shown by the events.
  record IsTracked (h : List Event) (db : Db) : Type 0 where
    at : (t : ℕ) → newest h ≤ t → IsShown sc.stages h (get t key db)

  -- the state that is stored after a signal
  state_after : Event → ScenarioStage → Db → ScenarioState
  state_after e s db = record {
    completed_stages = completed_by sc e s (get e.time key db);
    first_seen_at = (progress sc.window_seconds e.time (get e.time key db)).1;
    source_ip = source_ip;
    asset_id = e.asset_id;
  }

  -- neither of the two scenarios whose assets are counted
  module _ (plain : str_eq sc.id "LATERAL_MOVEMENT" ≡ false)
      (single : str_eq sc.id "CRED_SPREAD" ≡ false) where
    process_lem :
        (e : Event) (s : ScenarioStage) (db : Db)
        → get_elem? sc.stages e.stage_idx ≡ some s
        → process e db
          ≡ some (
            is_complete sc.stages (completed_by sc e s (get e.time key db)),
            set_ex e.time key (state_after e s db) sc.window_seconds db,
          )
    unfolding process_match process_scenario_stage state_after completed_by
    process_lem e s db found = rw (plain, single, found, process_scenario_stage)

    process_missing :
        (e : Event) (db : Db) → get_elem? sc.stages e.stage_idx ≡ none → process e db ≡ none
    unfolding process_match process_scenario_stage
    process_missing e db missing = rw (plain, single, missing, process_scenario_stage)

    stored_IsTracked :
        (e : Event) (s : ScenarioStage) (h : List Event) (db : Db)
        → get_elem? sc.stages e.stage_idx ≡ some s
        → newest h ≤ e.time
        → IsTracked h db
        → IsTracked (e ∷ h) (set_ex e.time key (state_after e s db) sc.window_seconds db)
    unfolding state_after
    stored_IsTracked e s h db found l tr = record {
      at = λ t after.
          rw
            (
              get-set_ex t e.time key key (state_after e s db) sc.window_seconds db after,
              str_eq_refl key,
            )
            (shown_if sc.stages (e ∷ h) (state_after e s db) (ltb t (e.time + sc.window_seconds)) (
              shown_next sc e s h (get e.time key db) found l (tr.at e.time l),
              (progress_lem sc.stages h sc.window_seconds e.time (get e.time key db) l
                  (tr.at e.time l)).2,
            ));
    }

    step_found :
        (e : Event) (s : ScenarioStage) (h : List Event) (db db' : Db) (b : Bool)
        → get_elem? sc.stages e.stage_idx ≡ some s
        → newest h ≤ e.time
        → IsTracked h db
        → process e db ≡ some (b, db')
        → IsTracked (e ∷ h) db'
          × (b ≡ true → AllSeen sc.stages e.time sc.window_seconds (e ∷ h) sc.stages)
    step_found e s h db db' b found l tr p =
        let o = get e.time key db in
        let completed = completed_by sc e s o in
        let stored = set_ex e.time key (state_after e s db) sc.window_seconds db in
        let eb : b ≡ is_complete sc.stages completed = ground (arith, process_lem e s db found) in
        let ed : db' ≡ stored = ground (arith, process_lem e s db found) in
        let start = (progress sc.window_seconds e.time o).1 in
        (
          rw ed (stored_IsTracked e s h db found l tr),
          λ t.
              is_complete-AllSeen sc.stages e.time sc.window_seconds start (e ∷ h) sc.stages
                completed (shown_next sc e s h o found l (tr.at e.time l))
                (progress_lem sc.stages h sc.window_seconds e.time o l (tr.at e.time l)).1
                (sym eb ∙ t),
        )

    -- What one signal does to a server whose progress is shown by the earlier ones.
    step :
        (e : Event) (h : List Event) (db db' : Db) (b : Bool)
        → newest h ≤ e.time
        → IsTracked h db
        → process e db ≡ some (b, db')
        → IsTracked (e ∷ h) db'
          × (b ≡ true → AllSeen sc.stages e.time sc.window_seconds (e ∷ h) sc.stages)
    step e h db db' b l tr p = elim (Option-cases (get_elem? sc.stages e.stage_idx)) [
      | inl missing ↦ absurd (ground (arith, process_missing e db missing))
      | inr (s, found) ↦ step_found e s h db db' b found l tr p
    ]

    replay-IsTracked :
        (h : List Event) (db0 db : Db)
        → ((t : ℕ) → get t key db0 ≡ none)
        → IsOrdered h
        → replay h db0 ≡ some db
        → IsTracked h db
    unfolding replay
    replay-IsTracked [] db0 db fresh ord r = record {
      at = λ t l. let same : db0 ≡ db = ground arith in rw (← same, fresh t) tt;
    }
    replay-IsTracked (e ∷ h) db0 db fresh ord r = elim (Option-cases (replay h db0)) [
      | inl lost ↦ absurd (ground arith)
      | inr (db1, before) ↦
          let tr = replay-IsTracked h db0 db1 fresh (IsOrdered-tail e h ord).1 before in
          elim (Option-cases (process e db1)) [
            | inl lost ↦ absurd (ground arith)
            | inr ((b, db2), done) ↦
                let same : db2 ≡ db = ground arith in
                rw (← same) (step e h db1 db2 b (IsOrdered-tail e h ord).0 tr done).0
          ]
    ]

    -- For a scenario other than LATERAL_MOVEMENT and CRED_SPREAD: if its signals from one source, on whatever
    -- assets, go through the matcher in the order of their times, from a server that holds no progress of
    -- the scenario for the source, and the newest one completes it, then for every required stage some
    -- signal of that stage is no older than the scenario's window at that time.
    pub complete_sound :
        (e : Event) (h : List Event) (db0 db db' : Db)
        → ((t : ℕ) → get t key db0 ≡ none)
        → IsOrdered (e ∷ h)
        → replay h db0 ≡ some db
        → process e db ≡ some (true, db')
        → AllSeen sc.stages e.time sc.window_seconds (e ∷ h) sc.stages
    complete_sound e h db0 db db' fresh ord r p =
        let (first, rest) = IsOrdered-tail e h ord in
        (step e h db db' true first (replay-IsTracked h db0 db fresh rest r) p).1 refl
