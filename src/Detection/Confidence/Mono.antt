-- ===== src/Detection/Confidence/Mono.antt =====
-- backend/app/workers/detection/confidence.py: bounds and monotonicity of the score.
use infra_red.Prelude.{ℕ, ◌≤◌, ◌≡◌, ap, Bool, true, arith}
use infra_red.Prelude.Int.{sub_ℕ}
use infra_red.Detection.Confidence.{
  Evidence, rule_confidence, asset_bonus, novelty_bonus, ti_bonus, penalty, clamp_unit,
  calculate_detection_confidence,
}

-- A truth value that implies another.
abbrev pub Implies : Bool → Bool → Type 0
Implies a b = a ≡ true → b ≡ true

-- `d` is at least as suspicious as `c`: the same rule on the same asset, with no less
-- correlation or threat intelligence, and with no penalty that `c` does not have.
pub record AtLeast (c d : Evidence) : Type 0 where
  pub rule : c.rule_id ≡ d.rule_id
  pub asset : asset_bonus c ≡ asset_bonus d
  pub correlation : c.correlation_bonus ≤ d.correlation_bonus
  pub known : Implies d.is_known_ip c.is_known_ip
  pub abuse : c.cti_abuse_score ≤ d.cti_abuse_score
  pub malicious : Implies c.cti_is_known_malicious d.cti_is_known_malicious
  pub tor : Implies c.cti_is_tor_exit d.cti_is_tor_exit
  pub allowlist : Implies d.in_allowlist c.in_allowlist
  pub maintenance : Implies d.in_maintenance_window c.in_maintenance_window
  pub benign : Implies d.matches_benign_pattern c.matches_benign_pattern

unfoldable pub score : Evidence → ℕ
score c = (calculate_detection_confidence c).0

ti_bonus_mono : (c d : Evidence) → AtLeast c d → ti_bonus c ≤ ti_bonus d
unfolding ti_bonus
ti_bonus_mono c d h = ground (arith, h.malicious, h.tor)

novelty_bonus_mono : (c d : Evidence) → AtLeast c d → novelty_bonus c ≤ novelty_bonus d
unfolding novelty_bonus
novelty_bonus_mono c d h = ground (arith, h.known)

penalty_anti : (c d : Evidence) → AtLeast c d → penalty d ≤ penalty c
unfolding penalty
penalty_anti c d h = ground (arith, h.allowlist, h.maintenance, h.benign)

clamp_mono : (a b p q : ℕ) → a ≤ b → q ≤ p → clamp_unit (sub_ℕ a p) ≤ clamp_unit (sub_ℕ b q)
unfolding clamp_unit
clamp_mono a b p q h k = ground arith

-- More evidence never lowers the score: if `d` is about the same rule and asset as `c`, with at
-- least its correlation bonus and threat intelligence, with a new address if `c` has one, and
-- only with penalties that `c` has too, then the score of `d` is at least the score of `c`.
pub score_mono : (c d : Evidence) → AtLeast c d → score c ≤ score d
unfolding score calculate_detection_confidence
score_mono c d h =
    clamp_mono _ _ _ _
      (omega (
        arith,
        h.correlation,
        ti_bonus_mono c d h,
        novelty_bonus_mono c d h,
        h.asset,
        ap rule_confidence h.rule,
      ))
      (penalty_anti c d h)
