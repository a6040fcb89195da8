-- ===== src/Runtime/Derive.antt =====
-- `deriveAndPersist` of src/runtime/nystRuntime.ts: from the evidence to a signed resolution.
pub mod Safe
use nyst.Base.{
  ℕ, String, Bool, true, false, not, Option, none, some, List, Result, ok, err, ◌==◌, if◌then◌else◌,
}
use nyst.Model.EffectState.{EffectState, effect_state_eq}
use nyst.Model.Control.{ControlDecision}
use nyst.Model.Evidence.{EvidenceRecord, ClockAttestation}
use nyst.Model.Action.{ActionRecord}
use nyst.Model.Resolution.{
  OutcomeResolution, ResolutionBasis, DispatchStatus, RuntimeState, dispatch_status_eq,
}
use nyst.Model.Spec.{EffectSpec, EffectAssessment}
use nyst.Engine.Ledger.{Evidence}
use nyst.Engine.Floors.{FloorResult, apply_safety_floors}
use nyst.Engine.Floors.Boundary.{
  SendCertainty, DispatchBoundaryFacts, apply_dispatch_boundary_floor,
}
use nyst.Store.{Store, StoreError, malformed_record}
use nyst.Store.Evidence.{list_for_action, last_seq}
use nyst.Store.Resolutions.{save}
use nyst.Store.Runtime.{get, next_resolution_sequence}
use nyst.Runtime.Exec.{Failure, Exec, pure, raise, or_fail, guard, ◌>>=◌, ◌>>◌}
use nyst.Runtime.Host.{Host, World, FaultPoint, call, read, ask, hit, ask_clock}

-- The facts of the dispatch boundary that are durably known.
unfoldable pub boundary_facts :
    {Json : Type 0} → EffectSpec Json → RuntimeState → DispatchBoundaryFacts
boundary_facts spec r = record {
  dispatch_status =
      if r.dispatch_status == DispatchStatus.definitely_not_sent
      then SendCertainty.definitely_not_sent
      else SendCertainty.may_have_been_sent;
  provider_idempotency_semantics = spec.provider_idempotency_semantics;
  dispatch_attempts = r.dispatch_attempts;
}

-- A pending effect is looked at again a minute later, and no other is.
unfoldable pub schedule :
    (String → String) → String → EffectState → ControlDecision → ControlDecision
schedule minute_later now state d = record d {
  next_check_at = if state == EffectState.pending then some (minute_later now) else none;
}

unfoldable pub save_result :
    {Json : Type 0}
    → (OutcomeResolution → Bool)
    → OutcomeResolution
    → Store Json
    → Result StoreError (Unit {0} × Store Json)
save_result schema r s = elim (save schema r s) [ err e ↦ err e | ok t ↦ ok (tt, t) ]

module _ {Json : Type 0} (h : Host Json) where
  -- `validateAssessment`: the rest of what it tests is a matter of types here.
  unfoldable pub is_well_formed : EffectAssessment → Bool
  is_well_formed a = elim a.assessment_next_check_at [ none ↦ true | some t ↦ h.is_date t ]

  unfoldable pub unsigned_resolution :
      ActionRecord Json
      → EffectSpec Json
      → FloorResult
      → ControlDecision
      → ResolutionBasis
      → String
      → ClockAttestation
      → OutcomeResolution
  unsigned_resolution action spec floored decision basis id now = record {
    resolution_version = 1;
    resolution_id = id;
    action_id = action.action_id;
    effect_name = action.effect_name;
    business_key = action.business_key;
    input_hash = action.input_hash;
    state = floored.state;
    provider_object_refs = floored.assessment.provider_object_refs;
    evidence_refs = floored.assessment.evidence_refs;
    verification_methods = floored.assessment.verification_methods;
    evidence_strength = floored.derived_strength;
    control = record decision {
      policy_version = "core-floors/1";
      spec_version = spec.schema_version;
    };
    context = action.context;
    basis = some basis;
    created_at = action.created_at;
    resolved_at = now.timestamp;
    clock = now;
    signature = none;
  }

  unfoldable pub signed : OutcomeResolution → OutcomeResolution
  signed r = record r { signature = some (h.sign r) }

  -- The signing and the saving.
  unfoldable pub persist :
      ActionRecord Json → OutcomeResolution → Exec (World Json) OutcomeResolution
  unfolding signed
  persist action unsigned = do
    hit h FaultPoint.before_resolution_signing action
    let r = signed unsigned
    guard (h.resolution_schema r) (Failure.stored malformed_record)
    hit h FaultPoint.after_resolution_signing action
    hit h FaultPoint.before_resolution_persistence action
    call h (λ n s. save_result h.resolution_schema r s)
    hit h FaultPoint.after_resolution_persistence action
    pure r

  -- From the floored proposal on. The evidence is that which was read for the proposal.
  unfoldable pub conclude :
      ActionRecord Json
      → EffectSpec Json
      → Evidence Json
      → FloorResult
      → Exec (World Json) OutcomeResolution
  conclude action spec evidence floored = do
    hit h FaultPoint.after_state_derivation action
    hit h FaultPoint.after_control_derivation action
    found ← read h (λ s. get action.action_id s)
    state ← or_fail Failure.runtime_missing found
    now ← ask_clock h
    let decision =
        schedule h.minute_later now.timestamp floored.state
          (apply_dispatch_boundary_floor floored.decision (boundary_facts spec state))
    sequence ←
        call h
          (λ n s. next_resolution_sequence action.action_id floored.state decision.next_check_at s)
    id ← ask h (λ n. ok (h.new_id n))
    let basis : ResolutionBasis = record {
      resolution_sequence = sequence;
      evidence_sequence = last_seq evidence;
    }
    persist action (unsigned_resolution action spec floored decision basis id now)

  -- `deriveAndPersist`
  unfoldable pub derive_and_persist :
      ActionRecord Json → EffectSpec Json → Exec (World Json) OutcomeResolution
  derive_and_persist action spec = do
    evidence ← read h (λ s. list_for_action action.action_id s)
    let assessment = spec.assess action evidence
    guard (is_well_formed assessment) Failure.malformed_assessment
    let proposed = spec.decide action assessment
    guard (h.decision_schema proposed) Failure.malformed_decision
    floored ← or_fail Failure.no_convergence (apply_safety_floors spec assessment proposed evidence)
    conclude action spec evidence floored
