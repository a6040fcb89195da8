-- ===== src/Runtime/Evidence.antt =====
-- The evidence that the runtime of src/runtime/nystRuntime.ts appends.
use Prim.Native.String
use nyst.Base.{String, Option, none, some, List, [], ◌∷◌, ◌==◌, string_eq}
use nyst.Model.Evidence.{
  EvidenceRecord, NewEvidence, EvidenceKind, EvidenceStrength, EvidenceDisposition,
  EvidenceAttribution, VerificationMethod, ClockAttestation,
}
use nyst.Model.Action.{ActionRecord}
use nyst.Store.Evidence.{append}
use nyst.Runtime.Exec.{Failure, Exec, pure, guard, ◌>>◌}
use nyst.Runtime.Host.{Host, World, FaultPoint, call, hit}

module _ {Json : Type 0} where
  -- `idempotency_key ?? correlation.value ?? action_id`
  unfoldable pub operation_of : ActionRecord Json → String
  operation_of action = elim action.dispatch_plan [
    | none ↦ action.action_id
    | some plan ↦ elim plan.idempotency_key [ some key ↦ key | none ↦ plan.correlation_value ]
  ]

  -- `idempotency_key ?? action_id`
  unfoldable pub key_or_id : ActionRecord Json → String
  key_or_id action = elim action.dispatch_plan [
    | none ↦ action.action_id
    | some plan ↦ elim plan.idempotency_key [ some key ↦ key | none ↦ action.action_id ]
  ]

  -- What both records of the runtime's own have in common.
  abbrev pub own_evidence :
      ActionRecord Json
      → ClockAttestation
      → String
      → Option String
      → Json
      → String
      → NewEvidence Json
  own_evidence action now source event payload operation = record {
    action_id = action.action_id;
    evidence_schema_version = 1;
    source = source;
    verification_method = VerificationMethod.none;
    kind = EvidenceKind.transport_error;
    strength = EvidenceStrength.transport_only;
    observed_disposition = EvidenceDisposition.indeterminate;
    attribution = EvidenceAttribution.indeterminate;
    provider_object_id = none;
    provider_event_id = event;
    observed_at = now.timestamp;
    provider_timestamp = none;
    payload = payload;
    correlation = record { method = "nyst_operation_id"; value = some operation };
    signing = none;
    clock = now;
    supersedes_evidence_id = none;
  }

module _ {Json : Type 0} (h : Host Json) where
  -- `definitelyNotSentEvidence`
  unfoldable pub definitely_not_sent_evidence :
      ActionRecord Json → ClockAttestation → NewEvidence Json
  unfolding operation_of
  definitely_not_sent_evidence action now =
      own_evidence action now "nyst.dispatch-boundary"
        (some (String.◌++◌ (operation_of action) ":nyst:definitely-not-sent")) h.boundary_payload
        (operation_of action)

  -- `internalTransportEvidence`
  unfoldable pub internal_transport_evidence :
      ActionRecord Json → ClockAttestation → Failure → NewEvidence Json
  unfolding key_or_id
  internal_transport_evidence action now e =
      own_evidence action now "nyst.runtime" none (h.detail_payload e) (key_or_id action)

  unfoldable pub store_evidence : NewEvidence Json → Exec (World Json) (EvidenceRecord Json)
  store_evidence ev = call h (λ n s. append h.evidence_schema h.hash (h.new_id n) ev s)

  -- The loop of `appendEvidence`.
  unfoldable pub append_all : ActionRecord Json → List (NewEvidence Json) → Exec (World Json) Unit
  append_all action [] = pure tt
  append_all action (ev ∷ evs) =
      let rest = append_all action evs in
      do guard (ev.action_id == action.action_id) Failure.foreign_evidence; store_evidence ev; rest

  -- `appendEvidence`
  unfoldable pub append_evidence :
      ActionRecord Json → List (NewEvidence Json) → Exec (World Json) Unit
  unfolding append_all
  append_evidence action [] = pure tt
  append_evidence action (ev ∷ evs) = do
    hit h FaultPoint.before_evidence_persistence action
    append_all action (ev ∷ evs)
    hit h FaultPoint.after_evidence_persistence action
