-- ===== src/Correlation/Chain/Total.antt =====
-- backend/app/workers/correlation/attack_chain.py: `_RULE_TO_STAGES` fits the scenarios, so that the
-- matcher raises no IndexError.
use mathlib.Core.List.{append_assoc}
use infra_red.Prelude.{
  ℕ, suc, ◌≡◌, ◌≢◌, refl, sym, ◌∙◌, String, true, false, none, some, List, [], ◌∷◌, ◌++◌, str_eq,
  contains, get_elem?, length, length-append, Option-cases, Bool-cases, inl, inr, arith,
}
use infra_red.Prelude.All.{All, All-append}
use infra_red.Redis.{Redis}
use infra_red.Correlation.Chain.{
  ScenarioStage, AttackScenario, ScenarioState, process_scenario_stage, process_lateral_movement,
  process_cred_spread, process_match, process_matches,
}
use infra_red.Correlation.Chain.Scenarios.{
  scenarios, rule_entries, stage_entries, scenario_entries, rule_to_stages, process_signal,
}

-- The entry points to a stage of its scenario that lists the rule.
abbrev pub Fits : String → AttackScenario × ℕ → Type 0
Fits rule (sc, idx) =
    (s : ScenarioStage) × (get_elem? sc.stages idx ≡ some s) × (contains s.rule_ids rule ≡ true)

rule_entries-Fits :
    (rule : String) (sc : AttackScenario) (idx : ℕ) (s : ScenarioStage) (rules : List String)
    → get_elem? sc.stages idx ≡ some s
    → ((r : String) → contains rules r ≡ true → contains s.rule_ids r ≡ true)
    → All (Fits rule) (rule_entries rule sc idx rules)
unfolding rule_entries
rule_entries-Fits rule sc idx s [] found sub = tt
rule_entries-Fits rule sc idx s (r ∷ rest) found sub =
    let later = rule_entries-Fits rule sc idx s rest found (λ x h. sub x (ground arith)) in
    elim (Bool-cases (str_eq rule r)) [
      | inl e ↦ rw e ((s, found, sub rule (ground arith)), later)
      | inr e ↦ rw e later
    ]

get_elem?-append {ℓ} :
    {A : Type ℓ} (xs ys : List A) (x : A) → get_elem? (xs ++ x ∷ ys) (length xs) ≡ some x
get_elem?-append [] ys x = refl
get_elem?-append (a ∷ xs) ys x = get_elem?-append xs ys x

stage_entries-Fits :
    (rule : String) (sc : AttackScenario) (before rest : List ScenarioStage) (idx : ℕ)
    → sc.stages ≡ before ++ rest
    → length before ≡ idx
    → All (Fits rule) (stage_entries rule sc idx rest)
unfolding stage_entries
stage_entries-Fits rule sc before [] idx e n = tt
stage_entries-Fits rule sc before (s ∷ rest) idx e n =
    All-append (Fits rule) (rule_entries rule sc idx s.rule_ids)
      (stage_entries rule sc (suc idx) rest)
      (rule_entries-Fits rule sc idx s s.rule_ids (rw (e, ← n) (get_elem?-append before rest s))
        (λ r h. h))
      (stage_entries-Fits rule sc (before ++ s ∷ []) rest (suc idx)
        (e ∙ sym (append_assoc before (s ∷ []) rest))
        (omega (arith, length-append before (s ∷ []))))

scenario_entries-Fits :
    (rule : String) (scs : List AttackScenario) → All (Fits rule) (scenario_entries rule scs)
unfolding scenario_entries
scenario_entries-Fits rule [] = tt
scenario_entries-Fits rule (sc ∷ rest) =
    All-append (Fits rule) (stage_entries rule sc 0 sc.stages) (scenario_entries rule rest)
      (stage_entries-Fits rule sc [] sc.stages 0 refl refl) (scenario_entries-Fits rule rest)

-- Every entry of the table under a rule points to an existing stage of its scenario, and that stage
-- lists the rule.
pub rule_to_stages-Fits : (rule : String) → All (Fits rule) (rule_to_stages rule)
unfolding rule_to_stages
rule_to_stages-Fits rule = scenario_entries-Fits rule scenarios

first_exists {ℓ} :
    {A : Type ℓ} (xs : List A) (i : ℕ) (x : A)
    → get_elem? xs i ≡ some x
    → (y : A) × (get_elem? xs 0 ≡ some y)
first_exists [] i x e = absurd (ground arith)
first_exists (a ∷ xs) i x e = (a, refl)

module _ (R : Redis ScenarioState) (now : ℕ) (tenant_id source_ip asset_id : String) where
  open R use {Db}

  stage_returns :
      (sc : AttackScenario) (idx : ℕ) (s : ScenarioStage) (db : Db)
      → get_elem? sc.stages idx ≡ some s
      → process_scenario_stage R now tenant_id source_ip asset_id sc idx db ≢ none
  unfolding process_scenario_stage
  stage_returns sc idx s db found = rw (found, process_scenario_stage) (λ e. cc)

  lateral_returns :
      (sc : AttackScenario) (idx : ℕ) (s : ScenarioStage) (db : Db)
      → get_elem? sc.stages idx ≡ some s
      → process_lateral_movement R now tenant_id source_ip asset_id sc db ≢ none
  unfolding process_lateral_movement
  lateral_returns sc idx s db found =
      let (first, e) = first_exists sc.stages idx s found in
      rw (e, process_lateral_movement) (λ e. cc)

  cred_spread_returns :
      (sc : AttackScenario) (idx : ℕ) (s : ScenarioStage) (db : Db)
      → get_elem? sc.stages idx ≡ some s
      → process_cred_spread R now tenant_id source_ip asset_id sc idx db ≢ none
  unfolding process_cred_spread
  cred_spread_returns sc idx s db found = ground (arith, stage_returns sc idx s db found)

  match_returns :
      (rule : String) (sc : AttackScenario) (idx : ℕ) (db : Db)
      → Fits rule (sc, idx)
      → process_match R now tenant_id source_ip asset_id sc idx db ≢ none
  unfolding process_match
  match_returns rule sc idx db (s, found, _) = ground (
    arith,
    stage_returns sc idx s db found,
    lateral_returns sc idx s db found,
    cred_spread_returns sc idx s db found,
  )

  matches_return :
      (rule : String) (entries : List (AttackScenario × ℕ)) (db : Db)
      → All (Fits rule) entries
      → process_matches R now tenant_id source_ip asset_id entries db ≢ none
  unfolding process_matches
  matches_return rule [] db fits = λ e. cc
  matches_return rule ((sc, idx) ∷ rest) db fits =
      elim (Option-cases (process_match R now tenant_id source_ip asset_id sc idx db)) [
        | inl lost ↦ absurd (match_returns rule sc idx db fits.0 lost)
        | inr ((true, db'), e) ↦ rw (e, process_matches) (λ x. cc)
        | inr ((false, db'), e) ↦ rw (e, process_matches) (matches_return rule rest db' fits.1)
      ]

  -- The matcher returns for every rule and every server: it never indexes a stage that is not there.
  pub process_signal_returns :
      (rule : String) (db : Db) → process_signal R now tenant_id rule source_ip asset_id db ≢ none
  unfolding process_signal
  process_signal_returns rule db =
      matches_return rule (rule_to_stages rule) db (rule_to_stages-Fits rule)
