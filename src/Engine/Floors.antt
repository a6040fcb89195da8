-- ===== src/Engine/Floors.antt =====
-- `applySafetyFloors` and `applyDispatchBoundaryFloor` of src/engine/safetyFloors.ts.
pub mod Boundary
pub mod Pass
pub mod Result
pub mod Claims
pub mod Authorizes
pub mod Tests
use mathlib.Core.Option
use nyst.Base.{
  ℕ, zero, suc, String, Bool, not, Option, none, some, List, [], ◌∷◌, ◌++◌, dedupe, includes, head?,
  is_empty, ◌==◌, option_eq, if◌then◌else◌,
}
use nyst.Model.EffectState.{EffectState, effect_state_eq}
use nyst.Model.Control.{ControlDecision}
use nyst.Model.Evidence.{EvidenceStrength, strength_eq}
use nyst.Model.Spec.{EffectSpec, EffectAssessment}
use nyst.Engine.Adjustment.{
  Adjustment, adjustment_code, adjustment_eq, v4_strength_derived_from_evidence,
}
use nyst.Engine.Ledger.{Evidence, active_evidence, strongest}
use nyst.Engine.Sanitize.{SanitizedAssessment, sanitize_assessment, push_once}
use nyst.Engine.Epistemic.{Claim, epistemic_floors}
use nyst.Engine.Clamps.{control_floors}
use nyst.Engine.Explanation.{explain}

-- `none` as a strength is the source's "none".
pub record FloorResult : Type 0 where
  pub state : EffectState
  pub decision : ControlDecision
  pub assessment : SanitizedAssessment
  pub derived_strength : Option EvidenceStrength
  pub adjustments : List Adjustment

-- `adjustments[0] ?? reason_code`
unfoldable pub first_code : List Adjustment → String → String
unfolding adjustment_code
first_code [] reason = reason
first_code (a ∷ adj) reason = adjustment_code a

-- `{ ...assessment, ...sanitized, proposed_state: state, claimed_strength: derived_strength }`
unfoldable pub reassessment : EffectAssessment → FloorResult → EffectAssessment
reassessment assessment r = record {
  proposed_state = r.state;
  provider_object_refs = r.assessment.provider_object_refs;
  evidence_refs = r.assessment.evidence_refs;
  verification_methods = r.assessment.verification_methods;
  claimed_strength = r.derived_strength;
  attribution_established = r.assessment.attribution_established;
  notes = elim r.assessment.notes [ none ↦ assessment.notes | some n ↦ some n ];
  assessment_next_check_at = assessment.assessment_next_check_at;
}

-- The result when the floors kept the proposed state.
unfoldable pub settled : FloorResult → FloorResult
unfolding first_code explain
settled r =
    let d = r.decision in
    record r {
      decision = if is_empty r.adjustments then d else record d {
        reason_code = first_code r.adjustments d.reason_code;
        explanation = explain d.explanation (dedupe r.adjustments);
      };
      adjustments = dedupe r.adjustments;
    }

-- The result when they changed it, from the result of the second run.
unfoldable pub merged : ControlDecision → FloorResult → FloorResult → FloorResult
unfolding first_code explain
merged proposed r rerun =
    let all = dedupe (r.adjustments ++ rerun.adjustments) in
    let d = rerun.decision in
    record {
      state = rerun.state;
      decision = record d {
        reason_code = first_code r.adjustments d.reason_code;
        explanation = explain proposed.explanation all;
      };
      assessment = record rerun.assessment { proposed_state = r.state };
      derived_strength = r.derived_strength;
      adjustments = all;
    }

module _ {Json : Type 0} where
  -- V4: the adjustments after the strength was derived.
  unfoldable pub strength_adjustments : EffectAssessment → Evidence Json → List Adjustment
  unfolding sanitize_assessment strongest push_once
  strength_adjustments assessment evidence =
      let found = sanitize_assessment assessment evidence in
      if assessment.claimed_strength == strongest found.cited
      then found.adjustments
      else push_once v4_strength_derived_from_evidence found.adjustments

  -- The state that the epistemic floors leave.
  unfoldable pub floor_claim : EffectAssessment → Evidence Json → Claim
  unfolding strength_adjustments epistemic_floors active_evidence sanitize_assessment
  floor_claim assessment evidence =
      epistemic_floors (sanitize_assessment assessment evidence).cited (active_evidence evidence)
        (assessment.proposed_state, strength_adjustments assessment evidence)

  -- The body of `applySafetyFloors` up to its last two `if`s: one pass of all floors. The
  -- adjustments are as pushed, and the texts of the decision are as proposed.
  unfoldable pub floor_pass :
      EffectSpec Json → EffectAssessment → ControlDecision → Evidence Json → FloorResult
  unfolding sanitize_assessment floor_claim control_floors active_evidence strongest
  floor_pass spec assessment proposed evidence =
      let found = sanitize_assessment assessment evidence in
      let (state, adj_state) = floor_claim assessment evidence in
      let (d, adj) = control_floors spec (active_evidence evidence) state (proposed, adj_state) in
      record {
        state = state;
        decision = d;
        assessment = found.sanitized;
        derived_strength = strongest found.cited;
        adjustments = adj;
      }

  -- `applySafetyFloors` calls itself as long as the floors change the state; the fuel bounds the
  -- depth of the calls, and `none` means that it ran out.
  unfoldable pub apply_with_fuel :
      ℕ → EffectSpec Json → EffectAssessment → ControlDecision → Evidence Json → Option FloorResult
  apply_with_fuel zero spec assessment proposed evidence = none
  apply_with_fuel (suc fuel) spec assessment proposed evidence =
      let r = floor_pass spec assessment proposed evidence in
      let rerun =
        Option.map (merged proposed r)
          (apply_with_fuel fuel spec (reassessment assessment r) r.decision evidence) in
      if r.state == assessment.proposed_state then some (settled r) else rerun

  -- `applySafetyFloors`, with room for two calls.
  unfoldable pub apply_safety_floors :
      EffectSpec Json → EffectAssessment → ControlDecision → Evidence Json → Option FloorResult
  unfolding apply_with_fuel floor_pass settled merged reassessment
  apply_safety_floors = apply_with_fuel 2
