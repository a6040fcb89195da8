-- ===== src/Engine/Floors/Tests.antt =====
-- Runs of the floors on small ledgers.
mod Claims
mod Authorizes
use Prim.Native.String
use mathlib.Core.List.{Memᴰ}
use nyst.Base.{
  string_eq, ◌↔◌, ◌<◌, any, filter, includes, present, ℕ, String, Bool, true, false, Option, some,
  none, List, [], ◌∷◌, ◌≡◌, ◌≢◌, refl, ◌⊎◌,
}
use nyst.Model.EffectState.{EffectState}
use nyst.Model.Control.{
  ControlDecision, PrimaryDirective, RetryDisposition, ContinuationDisposition, RecoveryDisposition,
}
use nyst.Model.Evidence.{
  EvidenceRecord, NewEvidence, EvidenceStrength, EvidenceKind, EvidenceDisposition,
  EvidenceAttribution, VerificationMethod, verification_method_eq, ClockAttestation, ClockSource,
  Correlation,
}
use nyst.Model.Action.{ActionRecord, DispatchPlan}
use nyst.Model.Spec.{EffectSpec, EffectAssessment, CompensationInfo}
use nyst.Engine.Ledger.{
  Evidence, active_evidence, is_authoritative_presence, is_authoritative_absence,
  is_attributed_presence, is_unattributed_presence, is_proof_of_effect, is_absence_proof,
  is_substantive_presence, is_compensation_proof, is_original_effect, superseded,
}
use nyst.Engine.Epistemic.{is_contradictory}
use nyst.Engine.Sanitize.{cited_records, keep_backed, ref_reason}
use nyst.Engine.Ledger.Strongest.{IsStrongest}
use nyst.Engine.Sanitize.Kept.{IsFresh}
use nyst.Engine.Epistemic.Support.{Degrades}
use nyst.Engine.Clamps.Narrows.{Narrows}
use nyst.Engine.Clamps.Safe.{IsSafe}
use nyst.Engine.Floors.{FloorResult, floor_pass, apply_with_fuel, apply_safety_floors}
use nyst.Engine.Floors.Pass.{cited_in}
use nyst.Engine.Floors.Result.{floor_result, apply-total, result-state}
use nyst.Engine.Floors.Claims.{
  floors_terminate, IsCited, verified-evidence, not_applied-evidence, satisfied-evidence,
  compensated-evidence, no_contradiction, floors-Degrades,
}
use nyst.Engine.Floors.Authorizes.{
  floors-IsSafe, floors-Narrows, derived-IsStrongest, refs-backed, reports-backed,
}
use nyst.Engine.Floors.Boundary.{
  SendCertainty, DispatchBoundaryFacts, apply_dispatch_boundary_floor,
}
use nyst.Engine.Floors.Boundary.Laws.{HasIdempotency, boundary-retry_iff, boundary-keeps}

abbrev pub noon : ClockAttestation
noon = record {
  source = ClockSource.ntp_disciplined;
  timestamp = "2026-01-05T12:00:00Z";
  trusted = true;
  monotonic_ns = none;
}

-- What a provider reported under the id.
abbrev pub observed :
    String
    → EvidenceKind
    → EvidenceStrength
    → EvidenceDisposition
    → EvidenceAttribution
    → Option String
    → EvidenceRecord Unit
observed id kind strength disposition attribution supersedes = record {
  evidence_id = id;
  seq = 1;
  payload_hash = "sha256:0";
  given = record {
    action_id = "a-1";
    evidence_schema_version = 1;
    source = "payments";
    verification_method = VerificationMethod.provider_read_back;
    kind = kind;
    strength = strength;
    observed_disposition = disposition;
    attribution = attribution;
    provider_object_id = some "pay_7";
    provider_event_id = none;
    observed_at = "2026-01-05T12:00:00Z";
    provider_timestamp = none;
    payload = tt;
    correlation = record { method = "key"; value = none };
    signing = none;
    clock = noon;
    supersedes_evidence_id = supersedes;
  };
}

abbrev pub read_present : EvidenceRecord Unit
read_present =
    observed "e-present" EvidenceKind.provider_read EvidenceStrength.authoritative
      EvidenceDisposition.effect_present EvidenceAttribution.attributed none

abbrev pub probe_absent : EvidenceRecord Unit
probe_absent =
    observed "e-absent" EvidenceKind.absence_probe EvidenceStrength.authoritative
      EvidenceDisposition.effect_absent EvidenceAttribution.indeterminate none

abbrev pub goal_reached : EvidenceRecord Unit
goal_reached =
    observed "e-goal" EvidenceKind.downstream_state EvidenceStrength.corroborative
      EvidenceDisposition.effect_present EvidenceAttribution.unattributed none

abbrev pub refunded : EvidenceRecord Unit
refunded =
    observed "e-refund" EvidenceKind.compensation_confirmation EvidenceStrength.authoritative
      EvidenceDisposition.indeterminate EvidenceAttribution.attributed none

abbrev pub lost_reply : EvidenceRecord Unit
lost_reply =
    observed "e-lost" EvidenceKind.transport_error EvidenceStrength.transport_only
      EvidenceDisposition.indeterminate EvidenceAttribution.indeterminate none

abbrev pub proposal : ControlDecision
proposal = record {
  decision_version = 1;
  primary = PrimaryDirective.retry;
  retry = RetryDisposition.allowed;
  continuation = ContinuationDisposition.allowed;
  recovery = RecoveryDisposition.compensate;
  reason_code = "PAY.DONE";
  explanation = "The payment is done.";
  next_check_at = some "2026-01-05T12:05:00Z";
  policy_version = "1";
  spec_version = "1";
}

-- A specification that proposes the state on the references and claims the most.
abbrev pub proposing : EffectState → List String → EffectAssessment
proposing state refs = record {
  proposed_state = state;
  provider_object_refs = "pay_7" ∷ "pay_8" ∷ [];
  evidence_refs = refs;
  verification_methods = VerificationMethod.provider_read_back ∷ [];
  claimed_strength = some EvidenceStrength.authoritative;
  attribution_established = true;
  notes = none;
  assessment_next_check_at = none;
}

abbrev pub payment : EffectSpec Unit
payment = record {
  effect_name = "payment.send";
  schema_version = "1";
  semantic_fields = "amount" ∷ [];
  provider_idempotency_semantics = none;
  prepare_dispatch = λ a. record {
    correlation_method = "key";
    correlation_value = a.business_key;
    idempotency_key = none;
    description = "send a payment";
    provider = none;
    operation = none;
    api_version = none;
    plan_credential_ref = none;
    target = none;
  };
  assess = λ a es. proposing EffectState.verified ("e-present" ∷ []);
  retry_safe_when_not_applied = true;
  goal_state_sufficient_for_continuation = false;
  decide = λ a x. proposal;
  compensation = record { supported = true; method = some "refund"; confirming_evidence = [] };
}

-- The result of the floors on the ledger.
abbrev pub result : EffectAssessment → Evidence Unit → FloorResult
result a es = floor_result payment es a proposal

pub done :
    (a : EffectAssessment) (es : Evidence Unit)
    → apply_safety_floors payment a proposal es ≡ some (result a es)
unfolding apply_safety_floors
done a es = apply-total payment es 0 a proposal

abbrev pub paid : Evidence Unit
paid = lost_reply ∷ read_present ∷ []

abbrev pub unpaid : Evidence Unit
unpaid = lost_reply ∷ probe_absent ∷ []

abbrev pub reached : Evidence Unit
reached = goal_reached ∷ []

abbrev pub repaid : Evidence Unit
repaid = read_present ∷ refunded ∷ []

abbrev pub says_paid : EffectAssessment
says_paid = proposing EffectState.verified ("e-present" ∷ "e-present" ∷ "e-unknown" ∷ [])

pub says_paid_state : (result says_paid paid).state ≡ EffectState.verified
unfolding floor_pass is_contradictory any filter includes present is_authoritative_presence
    is_authoritative_absence is_attributed_presence is_unattributed_presence cited_records
    keep_backed ref_reason is_proof_of_effect is_absence_proof is_substantive_presence
    is_compensation_proof is_original_effect
says_paid_state = result-state payment says_paid proposal paid

abbrev pub says_unpaid : EffectAssessment
says_unpaid = proposing EffectState.not_applied ("e-absent" ∷ [])

pub says_unpaid_state : (result says_unpaid unpaid).state ≡ EffectState.not_applied
unfolding floor_pass is_contradictory any filter includes present is_authoritative_presence
    is_authoritative_absence is_attributed_presence is_unattributed_presence cited_records
    keep_backed ref_reason is_proof_of_effect is_absence_proof is_substantive_presence
    is_compensation_proof is_original_effect
says_unpaid_state = result-state payment says_unpaid proposal unpaid

abbrev pub says_reached : EffectAssessment
says_reached = proposing EffectState.satisfied_unattributed ("e-goal" ∷ [])

pub says_reached_state : (result says_reached reached).state ≡ EffectState.satisfied_unattributed
unfolding floor_pass is_contradictory any filter includes present is_authoritative_presence
    is_authoritative_absence is_attributed_presence is_unattributed_presence cited_records
    keep_backed ref_reason is_proof_of_effect is_absence_proof is_substantive_presence
    is_compensation_proof is_original_effect
says_reached_state = result-state payment says_reached proposal reached

abbrev pub says_repaid : EffectAssessment
says_repaid = proposing EffectState.compensated ("e-present" ∷ "e-refund" ∷ [])

pub says_repaid_state : (result says_repaid repaid).state ≡ EffectState.compensated
unfolding floor_pass is_contradictory any filter includes present is_authoritative_presence
    is_authoritative_absence is_attributed_presence is_unattributed_presence cited_records
    keep_backed ref_reason is_proof_of_effect is_absence_proof is_substantive_presence
    is_compensation_proof is_original_effect
says_repaid_state = result-state payment says_repaid proposal repaid
