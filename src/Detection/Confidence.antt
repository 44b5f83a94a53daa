-- ===== src/Detection/Confidence.antt =====
-- backend/app/workers/detection/confidence.py: the detection confidence of a signal.
-- The source's floats are decimals with at most three places; here they are whole thousandths, so
-- `round(x, 3)` is the identity, and sums are exact.
pub mod Mono
pub mod Bounds
use infra_red.Prelude.{
  ℕ, ◌+◌, ◌≤◌, min, max, String, Bool, false, not, Option, none, some, List, [], ◌∷◌, leb, str_eq,
  find, or_else, if◌then◌else◌,
}
use infra_red.Prelude.Int.{ℤ, pos, negsuc, sub_ℕ}

-- RULE_CONFIDENCE_TABLE
abbrev pub rule_confidence_table : List (String × ℕ)
rule_confidence_table =
    ("AUTH-001", 700)
    ∷ ("AUTH-002", 650)
    ∷ ("AUTH-003", 600)
    ∷ ("AUTH-004", 850)
    ∷ ("AUTH-006A", 750)
    ∷ ("AUTH-006B", 750)
    ∷ ("WEB-HNY-001", 800)
    ∷ ("WEB-001", 700)
    ∷ ("NET-001", 650)
    ∷ ("PERSIST-001", 900)
    ∷ ("FIM-001", 900)
    ∷ ("PERSIST-002", 800)
    ∷ ("FIM-003", 800)
    ∷ ("PERSIST-003", 800)
    ∷ ("FIM-005-SVC", 800)
    ∷ ("ESCALATE-001", 900)
    ∷ ("FIM-005", 900)
    ∷ ("EXEC-001", 850)
    ∷ ("EXEC-002", 950)
    ∷ ("EXEC-003", 800)
    ∷ ("TAMPER-001", 750)
    ∷ ("TAMPER-002", 900)
    ∷ []

-- The arguments of `calculate_detection_confidence`.
pub record Evidence : Type 0 where
  pub rule_id : String
  pub correlation_bonus : ℕ
  pub asset_type : Option String
  pub environment : Option String
  pub exposure : Option String
  pub contains_sensitive_data : Bool
  pub is_known_ip : Bool
  pub cti_abuse_score : ℕ
  pub cti_is_known_malicious : Bool
  pub cti_is_tor_exit : Bool
  pub in_allowlist : Bool
  pub in_maintenance_window : Bool
  pub matches_benign_pattern : Bool

-- `x == "lit"` where `x` may be None
pub is_text : Option String → String → Bool
is_text none t = false
is_text (some s) t = str_eq s t

unfoldable pub rule_confidence : String → ℕ
rule_confidence rule_id = or_else (find rule_id rule_confidence_table) 500

pub environment_bonus : Option String → ℕ
environment_bonus e = if is_text e "prod" then 100 else if is_text e "staging" then 30 else 0

pub asset_type_bonus : Option String → ℕ
asset_type_bonus t =
    if is_text t "db"
    then 150
    else if is_text t "bastion"
    then 150
    else if is_text t "api"
    then 80
    else 0

unfoldable pub asset_bonus : Evidence → ℕ
unfolding environment_bonus asset_type_bonus is_text
asset_bonus c =
    min
      (environment_bonus c.environment
        + asset_type_bonus c.asset_type
        + (if is_text c.exposure "public" then 70 else 0)
        + (if c.contains_sensitive_data then 100 else 0))
      250

unfoldable pub novelty_bonus : Evidence → ℕ
novelty_bonus c = min (if not c.is_known_ip then 80 else 0) 150

unfoldable pub ti_bonus : Evidence → ℕ
ti_bonus c =
    let listed =
      if c.cti_is_known_malicious
      then 200
      else if leb 70 c.cti_abuse_score
      then 150
      else if leb 30 c.cti_abuse_score
      then 80
      else 0 in
    if c.cti_is_tor_exit then max listed 120 else listed

unfoldable pub penalty : Evidence → ℕ
penalty c =
    (if c.in_allowlist then 600 else 0)
    + (if c.in_maintenance_window then 300 else 0)
    + (if c.matches_benign_pattern then 200 else 0)

-- `max(0.0, min(1.0, raw))`
pub clamp_unit : ℤ → ℕ
clamp_unit (pos n) = min 1000 n
clamp_unit (negsuc n) = 0

pub record Breakdown : Type 0 where
  pub rule_confidence : ℕ
  pub correlation_bonus : ℕ
  pub asset_bonus : ℕ
  pub novelty_bonus : ℕ
  pub ti_bonus : ℕ
  pub penalty : ℤ
  pub raw : ℤ
  pub final : ℕ

pub gain : Evidence → ℕ
gain c =
    rule_confidence c.rule_id + c.correlation_bonus + asset_bonus c + novelty_bonus c + ti_bonus c

unfoldable pub calculate_detection_confidence : Evidence → ℕ × Breakdown
unfolding gain clamp_unit
calculate_detection_confidence c =
    let raw = sub_ℕ (gain c) (penalty c) in
    let final = clamp_unit raw in
    (
      final,
      record {
        rule_confidence = rule_confidence c.rule_id;
        correlation_bonus = c.correlation_bonus;
        asset_bonus = asset_bonus c;
        novelty_bonus = novelty_bonus c;
        ti_bonus = ti_bonus c;
        penalty = sub_ℕ 0 (penalty c);
        raw = raw;
        final = final;
      },
    )
