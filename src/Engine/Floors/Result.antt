-- ===== src/Engine/Floors/Result.antt =====
-- The result of `applySafetyFloors`, in closed form.
use nyst.Base.{
  String, is_empty, some, ◌≡◌, refl, subst, inl, inr, Bool-cases, ==_iff, suc, ℕ, ◌==◌,
  if◌then◌else◌,
}
use nyst.Model.EffectState.{EffectState, effect_state_eq}
use nyst.Model.Control.{ControlDecision}
use nyst.Model.Spec.{EffectSpec, EffectAssessment}
use nyst.Engine.Ledger.{Evidence, active_evidence}
use nyst.Engine.Clamps.Narrows.{Narrows, Narrows-trans}
use nyst.Engine.Clamps.Safe.{Permits, IsSafe}
use nyst.Engine.Sanitize.{sanitize_assessment}
use nyst.Engine.Floors.{FloorResult, floor_pass, reassessment, settled, merged, apply_with_fuel}
use nyst.Engine.Floors.Pass.{rerun-refs, pass-refs, rerun-state, pass-IsSafe, pass-Narrows}

module _ {Json : Type 0} (spec : EffectSpec Json) (es : Evidence Json) where
  -- At most one further run.
  pub floor_result : EffectAssessment → ControlDecision → FloorResult
  floor_result a d =
      let r = floor_pass spec a d es in
      if r.state == a.proposed_state
      then settled r
      else merged d r (settled (floor_pass spec (reassessment a r) r.decision es))

  -- Two calls are always enough fuel: the second call keeps the state that the first settled.
  pub apply-total :
      (n : ℕ) (a : EffectAssessment) (d : ControlDecision)
      → apply_with_fuel (suc (suc n)) spec a d es ≡ some (floor_result a d)
  unfolding apply_with_fuel floor_result reassessment
  apply-total n a d = elim (Bool-cases ((floor_pass spec a d es).state == a.proposed_state)) [
    | inl same ↦ rw same
    | inr other ↦ rw other (rw ((==_iff _ _).1 (rerun-state spec es a d _)) refl)
  ]

-- The texts of a decision do not matter to what it permits.
with_texts : String → String → ControlDecision → ControlDecision
with_texts reason text d = record d { reason_code = reason; explanation = text }

Permits-with_texts :
    {Json : Type 0} (spec : EffectSpec Json) (s : EffectState) (d : ControlDecision)
    (reason text : String)
    → Permits spec s d
    → Permits spec s (with_texts reason text d)
unfolding with_texts
Permits-with_texts spec EffectState.verified d reason text h = h
Permits-with_texts spec EffectState.not_applied d reason text h = h
Permits-with_texts spec EffectState.pending d reason text h = h
Permits-with_texts spec EffectState.compensated d reason text h = h
Permits-with_texts spec EffectState.satisfied_unattributed d reason text h = h
Permits-with_texts spec EffectState.unprovable d reason text h = h

IsSafe-with_texts :
    {Json : Type 0} (spec : EffectSpec Json) (active : Evidence Json) (s : EffectState)
    (d : ControlDecision) (reason text : String)
    → IsSafe spec active s d
    → IsSafe spec active s (with_texts reason text d)
unfolding with_texts
IsSafe-with_texts spec active s d reason text h = record {
  permitted = unfold with_texts in Permits-with_texts spec s d reason text h.permitted;
  not_transport_only = h.not_transport_only;
  compensable = h.compensable;
  retry_consistent = h.retry_consistent;
  continue_consistent = h.continue_consistent;
  no_stale_check = h.no_stale_check;
}

module _ {Json : Type 0} (spec : EffectSpec Json) (active : Evidence Json) (s : EffectState) where
  settled-IsSafe :
      (r : FloorResult)
      → IsSafe spec active s r.decision
      → IsSafe spec active s (settled r).decision
  unfolding settled with_texts
  settled-IsSafe r h = elim (Bool-cases (is_empty r.adjustments)) [
    | inl none_made ↦ rw none_made h
    | inr made ↦ rw made (IsSafe-with_texts spec active s r.decision _ _ h)
  ]

  merged-IsSafe :
      (d : ControlDecision) (r r' : FloorResult)
      → IsSafe spec active s r'.decision
      → IsSafe spec active s (merged d r r').decision
  unfolding merged with_texts
  merged-IsSafe d r r' h = IsSafe-with_texts spec active s r'.decision _ _ h

Narrows-with_texts :
    (d d' : ControlDecision) (reason text : String)
    → Narrows d d'
    → Narrows d (with_texts reason text d')
unfolding with_texts
Narrows-with_texts d d' reason text h = record {
  retry = h.retry;
  continuation = h.continuation;
  primary_retry = h.primary_retry;
  primary_compensate = h.primary_compensate;
  recovery_compensate = h.recovery_compensate;
}

settled-Narrows :
    (d : ControlDecision) (r : FloorResult) → Narrows d r.decision → Narrows d (settled r).decision
unfolding settled with_texts
settled-Narrows d r h = elim (Bool-cases (is_empty r.adjustments)) [
  | inl none_made ↦ rw none_made h
  | inr made ↦ rw made (Narrows-with_texts d r.decision _ _ h)
]

merged-Narrows :
    (d d' : ControlDecision) (r r' : FloorResult)
    → Narrows d r'.decision
    → Narrows d (merged d' r r').decision
unfolding merged with_texts
merged-Narrows d d' r r' h = Narrows-with_texts d r'.decision _ _ h

module _ {Json : Type 0} (spec : EffectSpec Json) (a : EffectAssessment) (d : ControlDecision)
    (es : Evidence Json) where
  -- The state is that of the first pass.
  pub result-state : (floor_result spec es a d).state ≡ (floor_pass spec a d es).state
  unfolding floor_result settled merged
  result-state = elim (Bool-cases ((floor_pass spec a d es).state == a.proposed_state)) [
    | inl same ↦ rw same refl
    | inr other ↦ rw other (rerun-state spec es a d _)
  ]

  pub result-strength :
      (floor_result spec es a d).derived_strength ≡ (floor_pass spec a d es).derived_strength
  unfolding floor_result settled merged
  result-strength = elim (Bool-cases ((floor_pass spec a d es).state == a.proposed_state)) [
    | inl same ↦ rw same refl
    | inr other ↦ rw other refl
  ]

  pub result-IsSafe :
      IsSafe spec
        (active_evidence es)
        (floor_result spec es a d).state
        (floor_result spec es a d).decision
  unfolding floor_result
  result-IsSafe =
      let r = floor_pass spec a d es in
      let b = reassessment a r in
      rw result-state (elim (Bool-cases (r.state == a.proposed_state)) [
        | inl same ↦
            rw (same, floor_result)
              (settled-IsSafe spec (active_evidence es) r.state r (pass-IsSafe spec a d es))
        | inr other ↦
            rw (other, floor_result)
              (merged-IsSafe spec (active_evidence es) r.state d r
                (settled (floor_pass spec b r.decision es))
                (settled-IsSafe spec (active_evidence es) r.state (floor_pass spec b r.decision es)
                  (subst
                    (λ s.
                      IsSafe spec (active_evidence es) s (floor_pass spec b r.decision es).decision)
                    (rerun-state spec es a d r.decision) (pass-IsSafe spec b r.decision es))))
      ])

  pub result-Narrows : Narrows d (floor_result spec es a d).decision
  unfolding floor_result
  result-Narrows =
      let r = floor_pass spec a d es in
      let b = reassessment a r in
      elim (Bool-cases (r.state == a.proposed_state)) [
        | inl same ↦ rw same (settled-Narrows d r (pass-Narrows spec a d es))
        | inr other ↦ rw other (
            merged-Narrows d d r (settled (floor_pass spec b r.decision es)) (
              settled-Narrows d (floor_pass spec b r.decision es)
                (Narrows-trans (pass-Narrows spec a d es) (pass-Narrows spec b r.decision es))))
      ]

  -- The assessment is the sanitized one, with the final state.
  pub result-refs :
      ((floor_result spec es a d).assessment.evidence_refs
        ≡ (sanitize_assessment a es).sanitized.evidence_refs)
      × ((floor_result spec es a d).assessment.verification_methods
          ≡ (sanitize_assessment a es).sanitized.verification_methods)
      × ((floor_result spec es a d).assessment.provider_object_refs
          ≡ (sanitize_assessment a es).sanitized.provider_object_refs)
  unfolding floor_result settled merged
  result-refs = elim (Bool-cases ((floor_pass spec a d es).state == a.proposed_state)) [
    | inl same ↦ rw same (pass-refs spec a d es)
    | inr other ↦ rw other (rerun-refs spec es a d (floor_pass spec a d es).decision)
  ]
