-- ===== src/Runtime/Dispatch.antt =====
-- `ensureDispatchPlan`, `dispatch` and `dispatchClaimed` of src/runtime/nystRuntime.ts.
use nyst.Base.{String, Bool, true, false, Option, none, some, List, is_some, ◌==◌, if◌then◌else◌}
use nyst.Model.Internal.{InternalState, internal_state_eq}
use nyst.Model.Action.{ActionRecord, DispatchPlan}
use nyst.Model.Resolution.{DispatchStatus}
use nyst.Model.Spec.{EffectSpec}
use nyst.Engine.Floors.Boundary.{SendCertainty, certainty_eq}
use nyst.Store.Evidence.{is_text}
use nyst.Store.Actions.{prepare}
use nyst.Store.Runtime.{
  DispatchGuard, DispatchClaim, claim_dispatch, finish_dispatch, set_dispatch_status,
}
use nyst.Runtime.Exec.{Failure, Exec, pure, raise, or_fail, rescue, is_crash, guard, ◌>>=◌, ◌>>◌}
use nyst.Runtime.Host.{
  Host, World, dispatched, FaultPoint, DispatchResult, call, send, hit, require_action,
  require_provider, ask_clock, await_owner,
}
use nyst.Runtime.Evidence.{
  definitely_not_sent_evidence, internal_transport_evidence, store_evidence, append_evidence,
}
use nyst.Runtime.Lifecycle.{enter_dispatching, normalize_lifecycle}

-- The token of a claim that was granted: `claim.claimed && claim.token`.
unfoldable pub owned_token : DispatchClaim → Option String
unfolding is_text
owned_token claim =
    if claim.claimed then (if is_text claim.token then claim.token else none) else none

module _ {Json : Type 0} (h : Host Json) where
  -- Another request has prepared the action: its plan is used, if it is the same.
  unfoldable pub use_winner :
      String → DispatchPlan Json → Failure → Exec (World Json) (ActionRecord Json)
  use_winner id candidate e = if is_crash e then raise e else do
    winner ← require_action h id
    plan ← or_fail e winner.dispatch_plan
    guard (h.same_plan plan candidate) Failure.unstable_plan
    pure winner

  unfoldable pub make_plan :
      ActionRecord Json → EffectSpec Json → Exec (World Json) (ActionRecord Json)
  unfolding use_winner
  make_plan action spec = do
    guard (action.internal_state == InternalState.intent_recorded) Failure.lacks_dispatch_plan
    let candidate = spec.prepare_dispatch action
    rescue
        (do
          prepared ← call h (λ n s. prepare h.plan_schema action.action_id candidate s)
          hit h FaultPoint.after_dispatch_plan_persistence prepared
          pure prepared)
        (use_winner action.action_id candidate)

  -- `ensureDispatchPlan`
  unfoldable pub ensure_dispatch_plan :
      ActionRecord Json → EffectSpec Json → Exec (World Json) (ActionRecord Json)
  ensure_dispatch_plan action spec =
      if is_some action.dispatch_plan then pure action else make_plan action spec

  -- The provider's answer, and what it makes of the dispatch status.
  unfoldable pub record_answer : ActionRecord Json → DispatchResult Json → Exec (World Json) Unit
  record_answer action result = do
    hit h FaultPoint.before_provider_response_delivery action
    hit h FaultPoint.after_provider_response action
    append_evidence h action result.evidence
    if result.send_certainty == SendCertainty.definitely_not_sent
        then (do
          call h (λ n s.
              set_dispatch_status action.action_id DispatchStatus.attempted
                DispatchStatus.definitely_not_sent s)
          now ← ask_clock h
          store_evidence h (definitely_not_sent_evidence h action now)
          pure tt)
        else pure tt

  -- The `catch` of `dispatchClaimed` and of `reconcile`.
  unfoldable pub record_failure : ActionRecord Json → Failure → Exec (World Json) Unit
  record_failure action e = if is_crash e then raise e else do
    now ← ask_clock h
    store_evidence h (internal_transport_evidence h action now e)
    pure tt

  -- From the consequence boundary on: the claim is finished as attempted, then the request is sent.
  unfoldable pub send_request : ActionRecord Json → DispatchPlan Json → Exec (World Json) Unit
  send_request action plan =
      rescue
        (do
          result ← send h (dispatched action.action_id) (λ n. h.provider_dispatch n action plan)
          record_answer action result)
        (record_failure action)

  -- `dispatchClaimed`
  unfoldable pub dispatch_claimed : ActionRecord Json → String → Exec (World Json) Unit
  dispatch_claimed action token = do
    plan ← or_fail Failure.invalid_claim action.dispatch_plan
    require_provider h action.effect_name
    hit h FaultPoint.after_dispatch_claim action
    call h (λ n s. finish_dispatch action.action_id token DispatchStatus.attempted s)
    enter_dispatching h action.action_id
    send_request action plan
    normalize_lifecycle h action.action_id

  -- What follows the claim: the request waits for a live owner, or dispatches by itself.
  unfoldable pub after_claim : ActionRecord Json → Option String → Exec (World Json) Bool
  after_claim action none = do await_owner h action.action_id; pure false
  after_claim action (some token) = do dispatch_claimed action token; pure true

  -- `dispatch`
  unfoldable pub dispatch :
      ActionRecord Json → List DispatchStatus → Option (DispatchGuard) → Exec (World Json) Bool
  unfolding owned_token after_claim
  dispatch action allowed guarded = do
    guard (is_some action.dispatch_plan) Failure.no_dispatch_plan
    hit h FaultPoint.before_dispatch_claim action
    claim ← call h (λ n s. claim_dispatch h.text_lt (h.new_id n) action.action_id allowed guarded s)
    after_claim action (owned_token claim)
