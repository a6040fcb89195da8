-- ===== src/Runtime/Tests/Authorized.antt =====
-- A payment whose current resolution authorizes a retry, and an action that depends on it.
use nyst.Engine.Ledger.{
  is_unattributed_presence, is_attributed_presence, is_authoritative_absence,
  is_authoritative_presence,
}
use nyst.Engine.Epistemic.{is_contradictory}
use nyst.Engine.Floors.{apply_safety_floors}
use nyst.Runtime.Derive.{
  unsigned_resolution, save_result, persist, conclude, is_well_formed, derive_and_persist,
}
use nyst.Runtime.Dispatch.{
  make_plan, ensure_dispatch_plan, record_answer, send_request, dispatch_claimed, dispatch,
}
use nyst.Store.Evidence.{is_text, sealed, list_for_action, last_seq}
use nyst.Runtime.Evidence.{append_evidence}
use nyst.Store.Resolutions.{save, latest}
use nyst.Store.Actions.{prepare, record_intent, find_by_identity, transition, new_record}
use nyst.Base.{present, filter, any, none, some, [], ◌∷◌, ◌≡◌, refl, ◌⊎◌, put, ok}
use nyst.Model.EffectState.{EffectState}
use nyst.Model.Control.{PrimaryDirective, RetryDisposition, ContinuationDisposition}
use nyst.Model.Resolution.{OutcomeResolution, DispatchStatus}
use nyst.Store.{empty_store, Store}
use nyst.Store.Runtime.{
  initialize, next_resolution_sequence, get, finish_dispatch, claim_dispatch, write, fresh_state,
}
use nyst.Store.Tests.{prepared, s₂, s₆}
use nyst.Runtime.Exec.{rescue, guard, pure, or_fail, ◌>>=◌}
use nyst.Runtime.Host.{
  latest_spec, ask_clock, send, call, hit, require_provider, register, get_spec, require_spec,
  refusing, ask, assert_dispatch_eligibility, read, require_action, Call,
}
use nyst.Runtime.Lifecycle.{advance, enter_dispatching, normalize_lifecycle}
use nyst.Runtime.Lifecycle.Converges.{Settled, lifecycle-converges}
use nyst.Runtime.Operations.{require_current_resolution, require_runtime, reconcile, retry}
use nyst.Runtime.Operations.Commit.{ContinuationGuard, commit}
use nyst.Runtime.Granted.{Claimed}
use nyst.Runtime.Authorized.Retry.{
  RetryCase, retry_statuses, basis_guard, IsAuthorized, retry-IsAuthorized,
}
use nyst.Runtime.Authorized.Dependent.{
  DependentCase, source_guard, LetsContinue, dependent-IsAuthorized,
}
use nyst.Runtime.Budget.Once.{begin}
use nyst.Runtime.Tests.{shop}
use nyst.Runtime.Tests.Once.{peaceful}
use nyst.Store.Tests.{no_context}
use nyst.Runtime.Tests.Derive.{receipt, waiting}

abbrev go_again : OutcomeResolution
go_again = record receipt {
  resolution_id = "r-1";
  state = EffectState.not_applied;
  control = record waiting {
    primary = PrimaryDirective.retry;
    retry = RetryDisposition.allowed;
    continuation = ContinuationDisposition.allowed;
    next_check_at = none;
  };
}

-- The first attempt is over, and the retry is on record.
abbrev after_failure : Store Unit
after_failure = record s₆ {
  resolutions = put "a-1" (go_again ∷ []) s₆.resolutions;
  runtime =
      put "a-1"
        (record (fresh_state "a-1") {
          dispatch_status = DispatchStatus.attempted;
          dispatch_attempts = 1;
          resolution_sequence = 1;
        })
        s₆.runtime;
}

retry-IsAuthorized_example :
    ((retry shop "a-1" "r-1" (begin 0 after_failure)).1.calls ≡ [])
    ⊎ ((i : RetryCase Unit) × IsAuthorized shop "a-1" "r-1" (begin 0 after_failure) i
        × Claimed shop after_failure i.action.action_id retry_statuses
            (basis_guard i)
            (retry shop "a-1" "r-1" (begin 0 after_failure)).1.store)
retry-IsAuthorized_example = retry-IsAuthorized shop peaceful "a-1" "r-1" (begin 0 after_failure)

abbrev on_payment : ContinuationGuard
on_payment = record { source_action = "a-1"; source_resolution = "r-1" }

dependent-IsAuthorized_example :
    ((commit shop "payment.send" "order-8" tt no_context
        (some on_payment)
        (begin 0 after_failure)).1.calls
      ≡ [])
    ⊎ ((i : DependentCase Unit) × LetsContinue shop on_payment (begin 0 after_failure) i
        × Claimed shop after_failure i.action.action_id
            (DispatchStatus.not_started ∷ [])
            (source_guard i)
            (commit shop "payment.send" "order-8" tt no_context
              (some on_payment)
              (begin 0 after_failure)).1.store)
dependent-IsAuthorized_example =
    dependent-IsAuthorized shop peaceful on_payment (begin 0 after_failure) "payment.send" "order-8"
      tt no_context

stored : s₂.by_id "a-1" ≡ some prepared
unfolding put
stored = refl

lifecycle-converges_example :
    ((normalize_lifecycle shop "a-1" (begin 0 s₂)).0 ≡ ok tt)
    × Settled shop "a-1" (λ n s. refl) (normalize_lifecycle shop "a-1" (begin 0 s₂)).1
lifecycle-converges_example =
    lifecycle-converges shop "a-1" (λ n s. refl) (begin 0 s₂) prepared stored refl

-- The retry is sent.
retry_sends : (retry shop "a-1" "r-1" (begin 0 after_failure)).1.calls ≡ Call.dispatched "a-1" ∷ []
unfolding retry ◌>>=◌ require_action read or_fail write put pure assert_dispatch_eligibility ask
    refusing require_spec get_spec register new_record latest guard require_provider append_evidence
    last_seq list_for_action sealed is_text dispatch hit call claim_dispatch dispatch_claimed
    finish_dispatch enter_dispatching send_request rescue send record_answer normalize_lifecycle
    advance transition reconcile derive_and_persist is_well_formed apply_safety_floors
    is_contradictory any filter present is_authoritative_presence is_authoritative_absence
    is_attributed_presence is_unattributed_presence conclude get ask_clock next_resolution_sequence
    persist save_result save unsigned_resolution
retry_sends = refl

-- The action that depends on the payment is sent.
commit_sends :
    (commit shop "payment.send" "order-8" tt no_context
      (some on_payment)
      (begin 0 after_failure)).1.calls
    ≡ Call.dispatched "bbba" ∷ []
unfolding commit ◌>>=◌ require_action read or_fail write put pure assert_dispatch_eligibility ask
    refusing require_spec get_spec register new_record latest guard require_provider append_evidence
    last_seq list_for_action sealed is_text dispatch hit call claim_dispatch dispatch_claimed
    finish_dispatch enter_dispatching send_request rescue send record_answer normalize_lifecycle
    advance transition reconcile derive_and_persist is_well_formed apply_safety_floors
    is_contradictory any filter present is_authoritative_presence is_authoritative_absence
    is_attributed_presence is_unattributed_presence conclude get ask_clock next_resolution_sequence
    persist save_result save unsigned_resolution find_by_identity empty_store latest_spec
    record_intent initialize ensure_dispatch_plan make_plan prepare require_runtime
    require_current_resolution
commit_sends = refl
