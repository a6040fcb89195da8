-- ===== src/Store/Tests.antt =====
-- A run of the store: a payment is recorded, planned, dispatched and observed.
mod Laws
mod Runs
use nyst.Base.{
  ℕ, ◌+◌, String, Bool, true, false, Option, some, none, List, [], ◌∷◌, ◌++◌, ◌≡◌, refl, put,
  Result, ok, string_eq, option_eq, includes, any, length,
}
use nyst.Model.EffectState.{EffectState}
use nyst.Model.Control.{
  ControlDecision, PrimaryDirective, RetryDisposition, ContinuationDisposition, RecoveryDisposition,
}
use nyst.Model.Internal.{InternalState, internal_state_eq, legal_next_states}
use nyst.Model.Evidence.{
  EvidenceRecord, NewEvidence, EvidenceStrength, EvidenceKind, EvidenceDisposition,
  EvidenceAttribution, VerificationMethod, ClockAttestation, ClockSource, Correlation,
}
use nyst.Model.Action.{ActionRecord, ActionContext, ApprovalMetadata, DispatchPlan}
use nyst.Model.Metadata.{holds_raw_credential}
use nyst.Model.Resolution.{DispatchStatus, OutcomeResolution, RuntimeState, ResolutionBasis}
use nyst.Store.{Store, empty_store}
use nyst.Store.Actions.{
  NewActionIntent, Recorded, identity_key, new_record, record_intent, transition, prepare,
}
use nyst.Store.Evidence.{list_for_action, find_event, append, sealed}
use nyst.Store.Resolutions.{save, resolutions_of}
use nyst.Store.Runtime.{
  DispatchGuard, DispatchClaim, initialize, claim_dispatch, fresh_state, claimed_state, write,
}
use nyst.Store.Trace.{
  Step, did_record, did_prepare, did_transition, did_append, did_initialize, did_claim, Steps,
  start, then_step, Reachable,
}

abbrev pub morning : ClockAttestation
morning = record {
  source = ClockSource.ntp_disciplined;
  timestamp = "2026-01-05T09:00:00Z";
  trusted = true;
  monotonic_ns = none;
}

abbrev pub no_context : ActionContext
no_context = record {
  value_minor_units = some 1200;
  value_currency = some "EUR";
  risk_magnitude = none;
  workload_id = none;
  workload_version = none;
  model_identity = none;
  model_config_hash = none;
  credential_ref = none;
  approval = record { required = false; fired = false; reference = none };
}

abbrev pub pay : NewActionIntent Unit
pay = record {
  effect_name = "payment.send";
  business_key = "order-7";
  input = tt;
  input_hash = "sha256:7";
  spec_version = "1";
  context = no_context;
  clock = morning;
}

-- The same payment with another amount.
abbrev pub pay_more : NewActionIntent Unit
pay_more = record pay { input_hash = "sha256:8" }

abbrev pub plan : DispatchPlan Unit
plan = record {
  correlation_method = "key";
  correlation_value = "order-7";
  idempotency_key = some "order-7";
  description = "send a payment";
  provider = none;
  operation = none;
  api_version = none;
  plan_credential_ref = none;
  target = none;
}

abbrev pub accepted : {A : Type 0} → A → Bool
accepted a = true

abbrev pub text_lt : String → String → Bool
text_lt a b = false

abbrev pub Payload : Type 0
Payload = Unit

abbrev pub hash : Payload → String
hash u = "sha256:0"

abbrev pub recorded : Recorded Unit
recorded = record { action = new_record pay "a-1"; created = true }

abbrev pub s₁ : Store Unit
s₁ = record empty_store {
  by_id = put "a-1" (new_record pay "a-1") (empty_store {Json = Unit}).by_id;
  by_identity =
      put (identity_key "payment.send" "order-7") "a-1" (empty_store {Json = Unit}).by_identity;
}

pub nothing_before : (empty_store {Json = Unit}).by_id "a-1" ≡ none
unfolding empty_store
nothing_before = refl

pub recording : record_intent accepted "a-1" pay empty_store ≡ ok (recorded, s₁)
unfolding record_intent empty_store
recording = refl

abbrev pub prepared : ActionRecord Unit
prepared = record (new_record pay "a-1") {
  internal_state = InternalState.prepared;
  dispatch_plan = some plan;
}

abbrev pub s₂ : Store Unit
s₂ = record s₁ { by_id = put "a-1" prepared s₁.by_id }

pub preparing : prepare accepted "a-1" plan s₁ ≡ ok (prepared, s₂)
unfolding prepare put new_record
preparing = refl

abbrev pub dispatching : ActionRecord Unit
dispatching = record prepared { internal_state = InternalState.dispatching }

abbrev pub s₃ : Store Unit
s₃ = record s₂ { by_id = put "a-1" dispatching s₂.by_id }

pub dispatched :
    transition "a-1" InternalState.prepared InternalState.dispatching s₂ ≡ ok (dispatching, s₃)
unfolding transition put includes new_record
dispatched = refl

abbrev pub reply : NewEvidence Unit
reply = record {
  action_id = "a-1";
  evidence_schema_version = 1;
  source = "payments";
  verification_method = VerificationMethod.event_correlation;
  kind = EvidenceKind.provider_event;
  strength = EvidenceStrength.authoritative;
  observed_disposition = EvidenceDisposition.effect_present;
  attribution = EvidenceAttribution.attributed;
  provider_object_id = some "pay_7";
  provider_event_id = some "evt_1";
  observed_at = "2026-01-05T09:00:01Z";
  provider_timestamp = none;
  payload = tt;
  correlation = record { method = "key"; value = none };
  signing = none;
  clock = morning;
  supersedes_evidence_id = none;
}

abbrev pub replied : EvidenceRecord Unit
replied = sealed hash "e-1" reply []

abbrev pub s₄ : Store Unit
s₄ = record s₃ { evidence = put "a-1" (replied ∷ []) s₃.evidence }

pub appending : append accepted hash "e-1" reply s₃ ≡ ok (replied, s₄)
unfolding append put empty_store find_event any
appending = refl

abbrev pub s₅ : Store Unit
s₅ = write "a-1" (fresh_state "a-1") s₄

pub initializing : initialize "a-1" s₄ ≡ ok (fresh_state "a-1", s₅)
unfolding initialize put empty_store
initializing = refl

abbrev pub s₆ : Store Unit
s₆ = write "a-1" (claimed_state "t-1" (fresh_state "a-1")) s₅

abbrev pub open_statuses : List DispatchStatus
open_statuses = DispatchStatus.not_started ∷ DispatchStatus.definitely_not_sent ∷ []

abbrev pub granted : DispatchClaim
granted = record {
  claimed = true;
  token = some "t-1";
  state = claimed_state "t-1" (fresh_state "a-1");
}

pub claiming : claim_dispatch text_lt "t-1" "a-1" open_statuses none s₅ ≡ ok (granted, s₆)
unfolding claim_dispatch put includes fresh_state
claiming = refl

pub reached₁ : Reachable text_lt hash s₁
reached₁ = then_step start (did_record accepted "a-1" pay recorded nothing_before recording)

pub on_to₆ : Steps text_lt hash s₁ s₆
on_to₆ =
    then_step
      (then_step
        (then_step
          (then_step (then_step start (did_prepare accepted "a-1" plan prepared preparing)) (
            did_transition "a-1" InternalState.prepared InternalState.dispatching dispatching
              dispatched))
          (did_append accepted "e-1" reply replied appending))
        (did_initialize "a-1" (fresh_state "a-1") initializing))
      (did_claim "t-1" "a-1" open_statuses none granted claiming)

pub reached₆ : Reachable text_lt hash s₆
reached₆ =
    then_step
      (then_step
        (then_step
          (then_step (then_step reached₁ (did_prepare accepted "a-1" plan prepared preparing)) (
            did_transition "a-1" InternalState.prepared InternalState.dispatching dispatching
              dispatched))
          (did_append accepted "e-1" reply replied appending))
        (did_initialize "a-1" (fresh_state "a-1") initializing))
      (did_claim "t-1" "a-1" open_statuses none granted claiming)
