-- ===== src/Correlation/Store/Evidence.antt =====
-- backend/app/db/repositories.py: `_insert_incident_evidence` on the incidents of the builder.
use infra_red.Prelude.{
  ◌≡◌, refl, sym, ◌∙◌, String, Bool, true, false, ◌||◌, Option, none, some, List, [], ◌∷◌, ◌++◌,
  str_eq, str_eq_refl, Bool-cases, inl, inr, arith, if◌then◌else◌,
}
use infra_red.Prelude.All.{any}
use infra_red.Prelude.Format.{truthy}
use infra_red.Constants.{KillChainStage}
use infra_red.Correlation.Builder.{
  Signal, CtiEnrichment, EvidenceItem, Extras, evidence_item, evidence_description, transition,
  build_incident,
}
use infra_red.Correlation.Tables.{
  Exhibit, same_signal, is_stored, exhibit, insert_items, insert_incident_evidence,
}

any-append :
    (p : Exhibit → Bool) (xs : List Exhibit) (x : Exhibit)
    → any p (xs ++ x ∷ []) ≡ (any p xs || p x)
any-append p [] x = ground arith
any-append p (y ∷ ys) x = ground (arith, any-append p ys x)

-- An item with a signal is stored once it was inserted, and so is every other item of that signal.
stored_after :
    (tenant id sid : String) (a b : EvidenceItem) (evidence : List Exhibit)
    → str_eq sid "" ≡ false
    → a.signal_id ≡ some sid
    → b.signal_id ≡ some sid
    → is_stored id b
        (if is_stored id a evidence then evidence else evidence ++ exhibit tenant id a ∷ [])
      ≡ true
stored_after tenant id sid a b evidence n ea eb = ground (
  arith,
  n,
  ea,
  eb,
  any-append (same_signal id sid) evidence (exhibit tenant id a),
  str_eq_refl id,
  str_eq_refl sid,
)

second_skipped :
    (tenant id sid : String) (a b : EvidenceItem) (evidence : List Exhibit)
    → str_eq sid "" ≡ false
    → a.signal_id ≡ some sid
    → b.signal_id ≡ some sid
    → insert_items tenant id (a ∷ b ∷ []) evidence ≡ insert_items tenant id (a ∷ []) evidence
unfolding insert_items
second_skipped tenant id sid a b evidence n ea eb =
    rw (stored_after tenant id sid a b evidence n ea eb) refl

timeline :
    (s : Signal) (text : String) (from : Option String) (stage : Option KillChainStage)
    (tenant id : String) (evidence : List Exhibit)
    → str_eq s.signal_id "" ≡ false
    → insert_items tenant id (evidence_item s text ∷ transition s from stage) evidence
      ≡ insert_items tenant id (evidence_item s text ∷ []) evidence
unfolding transition evidence_item
timeline s text from none tenant id evidence n = refl
timeline s text from (some stage) tenant id evidence n = elim (Bool-cases (truthy from)) [
  | inl y ↦ rw y (second_skipped tenant id s.signal_id _ _ evidence n refl refl)
  | inr o ↦ rw o refl
]

-- The evidence that is stored of an incident does not depend on whether its signal, which has an id,
-- advanced the kill chain: the item on the transition is never inserted.
pub transition_lost :
    (s : Signal) (cti : CtiEnrichment) (x : Extras) (id : String) (evidence : List Exhibit)
    → str_eq s.signal_id "" ≡ false
    → insert_incident_evidence (build_incident s cti x) id evidence
      ≡ insert_incident_evidence
          (build_incident s cti (record x { advanced_from = none }))
          id
          evidence
unfolding insert_incident_evidence build_incident
transition_lost s cti x id evidence n =
    timeline s (evidence_description s cti) x.advanced_from s.kill_chain_stage s.tenant_id id
      evidence n
    ∙ sym
        (timeline s (evidence_description s cti) none s.kill_chain_stage s.tenant_id id evidence n)
