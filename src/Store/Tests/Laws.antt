-- ===== src/Store/Tests/Laws.antt =====
-- The laws of the ledgers on that run.
use nyst.Base.{
  false, some, none, [], ◌∷◌, ◌≡◌, ◌↔◌, refl, put, ok, string_eq, option_eq, includes, any,
}
use nyst.Model.EffectState.{EffectState}
use nyst.Model.Control.{
  PrimaryDirective, RetryDisposition, ContinuationDisposition, RecoveryDisposition,
}
use nyst.Model.Internal.{InternalState, internal_state_eq}
use nyst.Model.Resolution.{DispatchStatus, OutcomeResolution}
use nyst.Store.{Store, empty_store}
use nyst.Store.Actions.{transition, prepare}
use nyst.Store.Resolutions.{save}
use nyst.Store.Runtime.{DispatchClaim, claim_dispatch, write}
use nyst.Store.Actions.Exact.{IsTransition, transition_iff, IsPreparation, prepare_iff}
use nyst.Store.Actions.Identity.{Outcome, record_intent-Outcome}
use nyst.Store.Evidence.AppendOnly.{Appended, append-Appended}
use nyst.Store.Resolutions.Distinct.{Saved, save-Saved}
use nyst.Store.Runtime.Claims.{claim-exclusive}
use nyst.Model.Resolution.{dispatch_status_eq}
use nyst.Store.Tests.{
  s₁, s₂, s₃, s₄, s₅, s₆, pay, plan, accepted, text_lt, hash, Payload, recorded, recording,
  prepared, dispatching, reply, replied, appending, open_statuses, granted, claiming, morning,
  no_context,
}

record_intent-Outcome_example : Outcome accepted "a-1" pay empty_store s₁ recorded
record_intent-Outcome_example =
    record_intent-Outcome accepted "a-1" pay empty_store s₁ recorded recording

prepare_iff_example :
    (prepare accepted "a-1" plan s₁ ≡ ok (prepared, s₂))
    ↔ IsPreparation "a-1" s₁ s₂ prepared accepted plan
prepare_iff_example = prepare_iff "a-1" s₁ s₂ prepared accepted plan

transition_iff_example :
    (transition "a-1" InternalState.prepared InternalState.dispatching s₂ ≡ ok (dispatching, s₃))
    ↔ IsTransition "a-1" s₂ s₃ dispatching InternalState.prepared InternalState.dispatching
transition_iff_example =
    transition_iff "a-1" s₂ s₃ dispatching InternalState.prepared InternalState.dispatching

append-Appended_example : Appended hash "e-1" reply s₃ s₄ replied
append-Appended_example = append-Appended accepted hash "e-1" reply s₃ s₄ replied appending

abbrev held : OutcomeResolution
held = record {
  resolution_version = 1;
  resolution_id = "r-1";
  action_id = "a-1";
  effect_name = "payment.send";
  business_key = "order-7";
  input_hash = "sha256:7";
  state = EffectState.pending;
  provider_object_refs = [];
  evidence_refs = [];
  verification_methods = [];
  evidence_strength = none;
  control = record {
    decision_version = 1;
    primary = PrimaryDirective.hold;
    retry = RetryDisposition.forbidden;
    continuation = ContinuationDisposition.blocked;
    recovery = RecoveryDisposition.none;
    reason_code = "PAY.PENDING";
    explanation = "The payment is pending.";
    next_check_at = none;
    policy_version = "1";
    spec_version = "1";
  };
  context = no_context;
  basis = some (record { resolution_sequence = 1; evidence_sequence = 1 });
  created_at = "2026-01-05T09:00:00Z";
  resolved_at = "2026-01-05T09:00:02Z";
  clock = morning;
  signature = none;
}

abbrev s₇ : Store Payload
s₇ = record s₆ { resolutions = put "a-1" (held ∷ []) s₆.resolutions }

saving : save accepted held s₆ ≡ ok s₇
unfolding save put any empty_store write
saving = refl

save-Saved_example : Saved accepted held s₆ s₇
save-Saved_example = save-Saved accepted held s₆ s₇ saving

not_open : includes open_statuses DispatchStatus.claimed ≡ false
unfolding includes
not_open = refl

claim-exclusive_example :
    (c : DispatchClaim) × (claim_dispatch text_lt "t-2" "a-1" open_statuses none s₆ ≡ ok (c, s₆))
    × (c.claimed ≡ false)
    × (c.token ≡ none)
claim-exclusive_example =
    claim-exclusive text_lt "t-1" "t-2" "a-1" open_statuses open_statuses none none s₅ s₆ granted
      claiming refl not_open
