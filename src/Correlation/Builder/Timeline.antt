-- ===== src/Correlation/Builder/Timeline.antt =====
-- backend/app/workers/correlation/builder.py: the evidence timeline and the enrichment.
use infra_red.Prelude.{
  ◌≡◌, refl, String, Option, none, some, Bool, true, false, ◌&&◌, length, arith, if◌then◌else◌,
}
use infra_red.Prelude.All.{All}
use infra_red.Prelude.Format.{truthy}
use infra_red.Constants.{rule_value, KillChainStage}
use infra_red.Correlation.Builder.{
  Signal, CtiEnrichment, Extras, EvidenceItem, evidence_item, transition, attach_user_agent,
  build_incident,
}

-- The item is about the signal.
abbrev pub IsAbout : Signal → EvidenceItem → Type 0
IsAbout s e =
    (e.signal_id ≡ some s.signal_id)
    × (e.rule_id ≡ some (rule_value s.rule_id))
    × (e.timestamp ≡ s.detected_at)

abbrev pub is_some {ℓ} : {A : Type ℓ} → Option A → Bool
is_some none = false
is_some (some a) = true

transition-IsAbout :
    (s : Signal) (a : Option String) (k : Option KillChainStage)
    → All (IsAbout s) (transition s a k)
unfolding transition evidence_item
transition-IsAbout s a none = tt
transition-IsAbout s a (some k) = ground arith

length-transition :
    (s : Signal) (a : Option String) (k : Option KillChainStage)
    → length (transition s a k) ≡ (if truthy a && is_some k then 1 else 0)
unfolding transition
length-transition s a k = ground arith

-- Every item of an incident's timeline has the signal's id, rule and time; there are two items if a
-- kill chain transition is reported and the signal has a stage, and one otherwise.
pub timeline_lem :
    (s : Signal) (cti : CtiEnrichment) (x : Extras)
    → All (IsAbout s) (build_incident s cti x).evidence_timeline
      × (length (build_incident s cti x).evidence_timeline
          ≡ (if truthy x.advanced_from && is_some s.kill_chain_stage then 2 else 1))
unfolding build_incident
timeline_lem s cti x = (
  ((refl, refl, refl), transition-IsAbout s x.advanced_from s.kill_chain_stage),
  ground (arith, length-transition s x.advanced_from s.kill_chain_stage),
)

-- The enrichment keeps its score, country, tags and sources, and its user agent unless that is
-- missing or empty; then the signal's is taken, if it has one.
pub enrichment_lem :
    (s : Signal) (cti : CtiEnrichment) (x : Extras)
    → ((build_incident s cti x).cti_enrichment.abuse_score ≡ cti.abuse_score)
      × ((build_incident s cti x).cti_enrichment.country ≡ cti.country)
      × ((build_incident s cti x).cti_enrichment.tags ≡ cti.tags)
      × ((build_incident s cti x).cti_enrichment.sources ≡ cti.sources)
      × ((build_incident s cti x).cti_enrichment.user_agent ≡ (
          if truthy cti.user_agent
          then cti.user_agent
          else if truthy s.user_agent
          then s.user_agent
          else cti.user_agent))
unfolding build_incident attach_user_agent
enrichment_lem s cti x = ground arith
