-- ===== src/Correlation/Chain/Seen.antt =====
-- backend/app/workers/correlation/attack_chain.py: sequences of signals, and which stages they show.
use infra_red.Prelude.{
  ℕ, ◌+◌, ◌≤◌, ◌≡◌, refl, String, Bool, true, false, ◌&&◌, Option, none, some, List, [], ◌∷◌, ◌++◌,
  leb, str_eq, eq_iff, contains, get_elem?, Bool-cases, inl, inr, arith,
}
use infra_red.Prelude.All.{all, any}
use infra_red.Correlation.Chain.{ScenarioStage}

-- A signal of a stage, with its asset and the time at which it is processed.
pub record Event : Type 0 where
  pub time : ℕ
  pub stage_idx : ℕ
  pub asset_id : String

abbrev pub stage_named : Option ScenarioStage → String → Bool
stage_named none name = false
stage_named (some s) name = str_eq s.name name

-- Some event from `start` on is of the stage with this name.
abbrev pub seen : List ScenarioStage → ℕ → List Event → String → Bool
seen stages start h name =
    any (λ e. stage_named (get_elem? stages e.stage_idx) name && leb start e.time) h

-- Some event that is at most `window` seconds old at `now` is of the stage with this name.
abbrev pub seen_recently : List ScenarioStage → ℕ → ℕ → List Event → String → Bool
seen_recently stages now window h name =
    any (λ e. stage_named (get_elem? stages e.stage_idx) name && leb now (e.time + window)) h

-- Newest first, with times that do not fall.
abbrev pub IsOrdered : List Event → Type 0
IsOrdered [] = Unit
IsOrdered (e ∷ []) = Unit
IsOrdered (e ∷ f ∷ h) = (f.time ≤ e.time) × IsOrdered (f ∷ h)

abbrev pub newest : List Event → ℕ
newest [] = 0
newest (e ∷ h) = e.time

pub all-contains :
    (p : String → Bool) (xs : List String) (n : String)
    → all p xs ≡ true
    → contains xs n ≡ true
    → p n ≡ true
all-contains p [] n a c = ground arith
all-contains p (x ∷ xs) n a c = elim (Bool-cases (str_eq n x)) [
  | inl e ↦ rw ((eq_iff n x).0 e) (ground arith)
  | inr e ↦ all-contains p xs n (ground arith) (ground arith)
]

pub all-append :
    (p : String → Bool) (xs : List String) (n : String)
    → all p xs ≡ true
    → p n ≡ true
    → all p (xs ++ n ∷ []) ≡ true
all-append p [] n a h = ground arith
all-append p (x ∷ xs) n a h = ground (arith, all-append p xs n)

pub all_mono :
    (p q : String → Bool)
    → ((n : String) → p n ≡ true → q n ≡ true)
    → (xs : List String) → all p xs ≡ true
    → all q xs ≡ true
all_mono p q f [] a = refl
all_mono p q f (x ∷ xs) a = ground (arith, f x, all_mono p q f xs)

-- An event is seen from any start up to its time.
pub seen_now :
    (stages : List ScenarioStage) (start : ℕ) (e : Event) (h : List Event) (s : ScenarioStage)
    → get_elem? stages e.stage_idx ≡ some s
    → start ≤ e.time
    → seen stages start (e ∷ h) s.name ≡ true
seen_now stages start x h s e l = rw e (ground (arith, eq_iff s.name s.name))

pub seen-recent :
    (stages : List ScenarioStage) (start now window : ℕ) (h : List Event) (n : String)
    → now ≤ start + window
    → seen stages start h n ≡ true
    → seen_recently stages now window h n ≡ true
seen-recent stages start now window [] n l e = e
seen-recent stages start now window (x ∷ h) n l e =
    ground (arith, seen-recent stages start now window h n l)

pub IsOrdered-tail :
    (e : Event) (h : List Event) → IsOrdered (e ∷ h) → (newest h ≤ e.time) × IsOrdered h
IsOrdered-tail e [] o = (omega arith, tt)
IsOrdered-tail e (f ∷ h) o = o
