-- ===== src/Runtime/Tests/Derive.antt =====
-- A resolution of a payment whose reply is on the ledger.
use nyst.Engine.Floors.Boundary.{apply_dispatch_boundary_floor}
use nyst.Engine.Sanitize.{method_reason, cited_records, object_reason, keep_backed}
use nyst.Store.Resolutions.{save}
use nyst.Store.Actions.{new_record}
use nyst.Engine.Epistemic.{is_contradictory}
use nyst.Base.{
  ◌<◌, true, none, some, [], ◌≡◌, refl, ◌⊎◌, ok, dedupe, any, filter, includes, present, put,
}
use nyst.Model.EffectState.{EffectState}
use nyst.Model.Control.{
  ControlDecision, PrimaryDirective, RetryDisposition, ContinuationDisposition, RecoveryDisposition,
}
use nyst.Model.Resolution.{OutcomeResolution, ResolutionBasis, RuntimeState, DispatchStatus}
use nyst.Engine.Ledger.{
  is_non_transport, is_unattributed_presence, is_attributed_presence, is_authoritative_absence,
  is_authoritative_presence, active_evidence,
}
use nyst.Engine.Clamps.Safe.{IsSafe}
use nyst.Engine.Floors.{FloorResult, apply_safety_floors}
use nyst.Engine.Floors.Boundary.Laws.{HasIdempotency}
use nyst.Store.{empty_store}
use nyst.Store.Evidence.{sealed, list_for_action, last_seq}
use nyst.Store.Runtime.{fresh_state, claimed_state, next_resolution_sequence, write, get}
use nyst.Store.Tests.{dispatching, s₆, morning, no_context}
use nyst.Runtime.Exec.{or_fail, pure, guard, ◌>>=◌}
use nyst.Runtime.Host.{call, ask_clock, refusing, ask, hit, read, elapse}
use nyst.Runtime.Derive.{
  boundary_facts, schedule, unsigned_resolution, save_result, persist, conclude, is_well_formed,
  signed, derive_and_persist,
}
use nyst.Runtime.Derive.Safe.{derive-reports, derive-IsSafe}
use nyst.Runtime.Budget.Once.{begin}
use nyst.Runtime.Tests.{shop, payments}

abbrev pub waiting : ControlDecision
waiting = record {
  decision_version = 1;
  primary = PrimaryDirective.hold;
  retry = RetryDisposition.forbidden;
  continuation = ContinuationDisposition.blocked;
  recovery = RecoveryDisposition.compensate;
  reason_code = "CORE.V2_UNSUPPORTED_VERIFICATION_METHOD_DROPPED";
  explanation =
      "The payment is done. [core safety adjusted: CORE.V2_UNSUPPORTED_VERIFICATION_METHOD_DROPPED, CORE.V3_UNBACKED_PROVIDER_REF_DROPPED, CORE.V4_STRENGTH_DERIVED_FROM_EVIDENCE, CORE.C2_PENDING_FORBIDS_RETRY, CORE.C2_PENDING_BLOCKS_CONTINUATION, CORE.C2_PENDING_PRIMARY_HOLD]";
  next_check_at = some "2026-01-05T09:00:00Z";
  policy_version = "core-floors/1";
  spec_version = "1";
}

abbrev pub receipt : OutcomeResolution
receipt = record {
  resolution_version = 1;
  resolution_id = "bbbbbbba";
  action_id = "a-1";
  effect_name = "payment.send";
  business_key = "order-7";
  input_hash = "sha256:7";
  state = EffectState.pending;
  provider_object_refs = [];
  evidence_refs = [];
  verification_methods = [];
  evidence_strength = none;
  control = waiting;
  context = no_context;
  basis = some (record { resolution_sequence = 1; evidence_sequence = 1 });
  created_at = "2026-01-05T09:00:00Z";
  resolved_at = "2026-01-05T09:00:00Z";
  clock = morning;
  signature = some (record { key_id = "k"; signature_b64 = "c2ln" });
}

derived : (derive_and_persist shop dispatching payments (begin 0 s₆)).0 ≡ ok receipt
unfolding derive_and_persist ◌>>=◌ read guard is_well_formed pure or_fail apply_safety_floors
    is_contradictory any filter list_for_action write put new_record includes present sealed
    is_authoritative_presence is_authoritative_absence is_attributed_presence
    is_unattributed_presence conclude hit ask refusing get ask_clock call next_resolution_sequence
    persist save_result save unsigned_resolution empty_store keep_backed object_reason cited_records
    method_reason schedule apply_dispatch_boundary_floor boundary_facts claimed_state fresh_state
    is_non_transport dedupe
derived = refl

derive-reports_example :
    let es = list_for_action dispatching.action_id (elapse shop (begin 0 s₆)).store in
    let x = payments.assess dispatching es in
    (f : FloorResult) × (basis : ResolutionBasis) × (apply_safety_floors payments x
        (payments.decide dispatching x)
        es
      ≡ some f)
    × (receipt.action_id ≡ dispatching.action_id)
    × (receipt.state ≡ f.state)
    × (receipt.evidence_refs ≡ f.assessment.evidence_refs)
    × (receipt.evidence_strength ≡ f.derived_strength)
    × (receipt.basis ≡ some basis)
    × (basis.evidence_sequence ≡ last_seq es)
    × (receipt ≡ signed shop (record receipt { signature = none }))
    × (shop.resolution_schema receipt ≡ true)
derive-reports_example = derive-reports shop dispatching payments (begin 0 s₆) receipt derived

derive-IsSafe_example :
    let es = list_for_action dispatching.action_id (elapse shop (begin 0 s₆)).store in
    let later = elapse shop (elapse shop (elapse shop (elapse shop (begin 0 s₆)))) in
    IsSafe payments (active_evidence es) receipt.state receipt.control
    × (receipt.control.retry ≡ RetryDisposition.allowed
        → (x : RuntimeState) × (get dispatching.action_id later.store ≡ some x)
          × (HasIdempotency payments.provider_idempotency_semantics
              ⊎ (x.dispatch_status ≡ DispatchStatus.definitely_not_sent))
          × (x.dispatch_attempts < 2))
derive-IsSafe_example = derive-IsSafe shop dispatching payments (begin 0 s₆) receipt derived
