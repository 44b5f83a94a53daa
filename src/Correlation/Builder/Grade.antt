-- ===== src/Correlation/Builder/Grade.antt =====
-- backend/app/workers/correlation/builder.py: how incidents are graded.
use infra_red.Prelude.{ℕ, ◌≤◌, ◌≡◌, ◌⊎◌, ◌↔◌, arith}
use infra_red.Constants.{Severity, Confidence, Priority, RuleId}
use infra_red.Correlation.Builder.{
  Signal, CtiEnrichment, Extras, abuse, severity_of, confidence_of, priority_of, build_incident,
}

abbrev pub severity_rank : Severity → ℕ
severity_rank Severity.critical = 3
severity_rank Severity.high = 2
severity_rank Severity.medium = 1
severity_rank Severity.info = 0

abbrev pub confidence_rank : Confidence → ℕ
confidence_rank Confidence.high = 2
confidence_rank Confidence.medium = 1
confidence_rank Confidence.low = 0

abbrev pub priority_rank : Priority → ℕ
priority_rank Priority.urgent = 3
priority_rank Priority.high = 2
priority_rank Priority.normal = 1
priority_rank Priority.low = 0

critical_iff :
    (r : RuleId) (n a : ℕ)
    → (severity_of r n a ≡ Severity.critical) ↔ (
        ((r ≡ RuleId.auth_failed_then_success) ⊎ ((r ≡ RuleId.auth_root_login) × (1 ≤ n)))
        × (70 ≤ a))
unfolding severity_of
critical_iff r n a = ground arith

priority_urgent_iff :
    (s : Severity) (c : Confidence) → (priority_of s c ≡ Priority.urgent) ↔ (s ≡ Severity.critical)
unfolding priority_of
priority_urgent_iff s c = ground arith

-- An incident is urgent exactly if its abuse score is at least 70 and its rule is AUTH-004, or is
-- AUTH-002 with at least one event.
pub urgent_iff :
    (s : Signal) (cti : CtiEnrichment) (x : Extras)
    → ((build_incident s cti x).priority ≡ Priority.urgent) ↔ (
        ((s.rule_id ≡ RuleId.auth_failed_then_success)
          ⊎ ((s.rule_id ≡ RuleId.auth_root_login) × (1 ≤ s.detected_count)))
        × (70 ≤ abuse cti))
unfolding build_incident
urgent_iff s cti x =
    let sev = severity_of s.rule_id s.detected_count (abuse cti) in
    let u = priority_urgent_iff sev (confidence_of s.detected_count (abuse cti)) in
    let c = critical_iff s.rule_id s.detected_count (abuse cti) in
    (λ p. c.0 (u.0 p), λ q. u.1 (c.1 q))

severity_mono :
    (r : RuleId) (n m a b : ℕ)
    → n ≤ m
    → a ≤ b
    → severity_rank (severity_of r n a) ≤ severity_rank (severity_of r m b)
unfolding severity_of
severity_mono r n m a b h k = ground arith

confidence_mono :
    (n m a b : ℕ)
    → n ≤ m
    → a ≤ b
    → confidence_rank (confidence_of n a) ≤ confidence_rank (confidence_of m b)
unfolding confidence_of
confidence_mono n m a b h k = ground arith

priority_mono :
    (s t : Severity) (c d : Confidence)
    → severity_rank s ≤ severity_rank t
    → confidence_rank c ≤ confidence_rank d
    → priority_rank (priority_of s c) ≤ priority_rank (priority_of t d)
unfolding priority_of
priority_mono s t c d h k = ground arith

-- Of two signals of one rule, the one with no fewer events and no lower abuse score gets an incident
-- of no lower severity, confidence and priority.
pub grade_mono :
    (s t : Signal) (c d : CtiEnrichment) (x y : Extras)
    → s.rule_id ≡ t.rule_id
    → s.detected_count ≤ t.detected_count
    → abuse c ≤ abuse d
    → (severity_rank (build_incident s c x).severity
        ≤ severity_rank (build_incident t d y).severity)
      × (confidence_rank (build_incident s c x).confidence
          ≤ confidence_rank (build_incident t d y).confidence)
      × (priority_rank (build_incident s c x).priority
          ≤ priority_rank (build_incident t d y).priority)
unfolding build_incident
grade_mono s t c d x y e h k =
    let sm : severity_rank (severity_of s.rule_id s.detected_count (abuse c))
        ≤ severity_rank (severity_of t.rule_id t.detected_count (abuse d)) =
      rw e (severity_mono t.rule_id _ _ _ _ h k) in
    let cm = confidence_mono _ _ _ _ h k in (sm, cm, priority_mono _ _ _ _ sm cm)
