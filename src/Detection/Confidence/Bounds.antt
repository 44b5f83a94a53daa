-- ===== src/Detection/Confidence/Bounds.antt =====
-- backend/app/workers/detection/confidence.py: the range of the score and of its parts.
use infra_red.Prelude.{ℕ, ◌+◌, ◌≤◌, ◌≡◌, refl, String, true, arith, find-le}
use infra_red.Prelude.Int.{sub_ℕ}
use infra_red.Detection.Confidence.{
  Evidence, rule_confidence_table, rule_confidence, asset_bonus, novelty_bonus, ti_bonus, penalty,
  gain, clamp_unit, calculate_detection_confidence,
}
use infra_red.Detection.Confidence.Mono.{score}

rule_confidence-le : (r : String) → rule_confidence r ≤ 950
unfolding rule_confidence
rule_confidence-le r = find-le 950 500 r rule_confidence_table refl (omega arith)

asset_bonus-le : (c : Evidence) → asset_bonus c ≤ 250
unfolding asset_bonus
asset_bonus-le c = omega arith

novelty_bonus-le : (c : Evidence) → novelty_bonus c ≤ 80
unfolding novelty_bonus
novelty_bonus-le c = ground arith

ti_bonus-le : (c : Evidence) → ti_bonus c ≤ 200
unfolding ti_bonus
ti_bonus-le c = ground arith

clamp_unit-le : (a p : ℕ) → clamp_unit (sub_ℕ a p) ≤ 1000
unfolding clamp_unit
clamp_unit-le a p = ground arith

clamp_unit-sub : (a p k : ℕ) → a ≤ k + p → clamp_unit (sub_ℕ a p) ≤ k
unfolding clamp_unit
clamp_unit-sub a p k h = ground arith

penalty_allowlist : (c : Evidence) → c.in_allowlist ≡ true → 600 ≤ penalty c
unfolding penalty
penalty_allowlist c h = ground arith

-- The score is at most 1, the asset bonus at most 0.25, the novelty bonus at most 0.08, the threat
-- intelligence bonus at most 0.2, and the breakdown reports the score that is returned.
pub score_bounds :
    (c : Evidence)
    → (score c ≤ 1000)
      × (asset_bonus c ≤ 250)
      × (novelty_bonus c ≤ 80)
      × (ti_bonus c ≤ 200)
      × ((calculate_detection_confidence c).1.final ≡ score c)
unfolding score calculate_detection_confidence
score_bounds c = (clamp_unit-le _ _, asset_bonus-le c, novelty_bonus-le c, ti_bonus-le c, refl)

gain-le : (c : Evidence) → gain c ≤ 1480 + c.correlation_bonus
unfolding gain
gain-le c =
    omega (arith, rule_confidence-le c.rule_id, asset_bonus-le c, novelty_bonus-le c, ti_bonus-le c)

-- A source on the allow list scores at most 0.88 above its correlation bonus, whatever the rule, the
-- asset, the novelty and the threat intelligence.
pub score_allowlisted : (c : Evidence) → c.in_allowlist ≡ true → score c ≤ 880 + c.correlation_bonus
unfolding score calculate_detection_confidence
score_allowlisted c h = clamp_unit-sub _ _ _ (omega (arith, gain-le c, penalty_allowlist c h))
