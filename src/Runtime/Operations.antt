-- ===== src/Runtime/Operations.antt =====
-- The public methods of `NystRuntime`, src/runtime/nystRuntime.ts.
pub mod Commit
pub mod Serve
use nyst.Base.{
  ℕ, String, Bool, true, false, not, ◌&&◌, Option, none, some, List, [], ◌∷◌, is_some, ◌==◌,
  string_eq, nat_eq, option_eq, if◌then◌else◌,
}
use nyst.Model.EffectState.{EffectState, effect_state_eq}
use nyst.Model.Control.{
  RetryDisposition, PrimaryDirective, ContinuationDisposition, retry_eq, primary_eq,
  continuation_eq,
}
use nyst.Model.Action.{ActionRecord, DispatchPlan}
use nyst.Model.Resolution.{
  OutcomeResolution, ResolutionBasis, DispatchStatus, RuntimeState, dispatch_status_eq,
}
use nyst.Model.Spec.{EffectSpec}
use nyst.Store.Evidence.{is_text, list_for_action, last_seq, latest_sequence}
use nyst.Store.Resolutions.{latest, sequence_of}
use nyst.Store.Runtime.{
  DispatchGuard, get, initialize, finish_dispatch, claim_compensation, finish_compensation,
}
use nyst.Runtime.Exec.{Failure, Exec, pure, raise, or_fail, rescue, guard, ◌>>=◌, ◌>>◌}
use nyst.Runtime.Host.{
  Host, World, compensated, FaultPoint, call, read, ask, send, hit, assert_dispatch_eligibility,
  require_action, require_provider, require_spec, ask_clock, await_owner,
}
use nyst.Runtime.Evidence.{definitely_not_sent_evidence, store_evidence, append_evidence}
use nyst.Runtime.Lifecycle.{normalize_lifecycle}
use nyst.Runtime.Dispatch.{owned_token, ensure_dispatch_plan, record_failure, dispatch}
use nyst.Runtime.Derive.{derive_and_persist}

-- The resolution authorizes a retry, and it is safe at the provider.
unfoldable pub authorizes_retry : OutcomeResolution → Bool
authorizes_retry r =
    (r.state == EffectState.not_applied)
    && (r.control.retry == RetryDisposition.allowed)
    && (r.control.primary == PrimaryDirective.retry)

module _ {Json : Type 0} (h : Host Json) where
  -- The provider's observations, which are appended to the evidence.
  unfoldable pub observe : ActionRecord Json → DispatchPlan Json → Exec (World Json) Unit
  observe action plan = do
    prior ← read h (λ s. list_for_action action.action_id s)
    observed ← ask h (λ n. h.provider_observe n action plan prior)
    append_evidence h action observed

  -- `reconcile`
  unfoldable pub reconcile : String → Exec (World Json) OutcomeResolution
  unfolding observe
  reconcile id = do
    action ← require_action h id
    spec ← require_spec h action
    require_provider h action.effect_name
    plan ← or_fail Failure.no_dispatch_plan action.dispatch_plan
    normalize_lifecycle h id
    hit h FaultPoint.before_reconciliation action
    rescue (observe action plan) (record_failure h action)
    derive_and_persist h action spec

  -- `requireCurrentResolution`
  unfoldable pub require_current_resolution : String → String → Exec (World Json) OutcomeResolution
  require_current_resolution id resolution = do
    found ← read h (λ s. latest h.text_lt id s)
    newest ← or_fail Failure.stale_decision found
    guard (newest.resolution_id == resolution) Failure.stale_decision
    pure newest

  unfoldable pub require_runtime : String → Exec (World Json) RuntimeState
  require_runtime id = read h (λ s. get id s) >>= or_fail Failure.runtime_missing

  -- A claim that was left behind: the boundary was never crossed, unless its owner still lives.
  unfoldable pub reclaim : String → ActionRecord Json → Option String → Exec (World Json) Unit
  reclaim id action none = pure tt
  reclaim id action (some token) = do
    owned ← await_owner h id
    if owned then pure tt else (do
      call h (λ n s. finish_dispatch id token DispatchStatus.definitely_not_sent s)
      now ← ask_clock h
      store_evidence h (definitely_not_sent_evidence h action now)
      pure tt)

  unfoldable pub resume_dispatch :
      String → ActionRecord Json → RuntimeState → Exec (World Json) Unit
  unfolding reclaim
  resume_dispatch id action state =
      if state.dispatch_status == DispatchStatus.not_started
      then (do dispatch h action (DispatchStatus.not_started ∷ []) none; pure tt)
      else if (state.dispatch_status == DispatchStatus.claimed)
          && is_text state.dispatch_claim_token
      then reclaim id action state.dispatch_claim_token
      else pure tt

  -- `recover`
  unfoldable pub recover : String → Exec (World Json) OutcomeResolution
  unfolding require_runtime resume_dispatch
  recover id = do
    found ← require_action h id
    spec ← require_spec h found
    assert_dispatch_eligibility h found
    call h (λ n s. initialize id s)
    action ← ensure_dispatch_plan h found spec
    state ← require_runtime id
    resume_dispatch id action state
    normalize_lifecycle h id
    reconcile id

  -- Why a retry was not dispatched.
  unfoldable pub explain_refusal : String → ResolutionBasis → Exec (World Json) OutcomeResolution
  explain_refusal id basis = do
    current ← read h (λ s. latest h.text_lt id s)
    evidence ← read h (λ s. latest_sequence id s)
    let sequence : Option ℕ = elim current [ none ↦ none | some r ↦ sequence_of r ]
    guard ((sequence == some basis.resolution_sequence) && (evidence == basis.evidence_sequence))
        Failure.stale_decision
    raise Failure.retry_unavailable

  unfoldable pub require_safe_boundary : String → EffectSpec Json → Exec (World Json) Unit
  require_safe_boundary id spec =
      if is_text spec.provider_idempotency_semantics then pure tt else (do
        state ← read h (λ s. get id s)
        let status : Option DispatchStatus = elim state [
          | none ↦ none
          | some r ↦ some r.dispatch_status
        ]
        guard (status == some DispatchStatus.definitely_not_sent) Failure.retry_not_safe)

  unfoldable pub redispatch :
      String
      → ActionRecord Json
      → EffectSpec Json
      → OutcomeResolution
      → ResolutionBasis
      → Exec (World Json) OutcomeResolution
  unfolding explain_refusal authorizes_retry require_safe_boundary
  redispatch id action spec newest basis = do
    guard (authorizes_retry newest) Failure.retry_unauthorized
    require_safe_boundary id spec
    done ← dispatch h action (DispatchStatus.definitely_not_sent ∷ DispatchStatus.attempted ∷ []) (
        some (record {
          resolution_sequence = some basis.resolution_sequence;
          evidence_sequence = some basis.evidence_sequence;
          continuation = none;
        }))
    if done then reconcile id else explain_refusal id basis

  -- The rest of a retry, on the current resolution: the provider is asked, and if it knows anything
  -- new, the decision is stale.
  unfoldable pub retry_current :
      String
      → ActionRecord Json
      → EffectSpec Json
      → OutcomeResolution
      → Exec (World Json) OutcomeResolution
  unfolding observe redispatch
  retry_current id action spec newest = do
    basis ← or_fail Failure.stale_decision newest.basis
    require_provider h action.effect_name
    plan ← or_fail Failure.no_dispatch_plan action.dispatch_plan
    observe action plan
    evidence ← read h (λ s. list_for_action id s)
    if last_seq evidence == basis.evidence_sequence
        then redispatch id action spec newest basis
        else (do derive_and_persist h action spec; raise Failure.stale_decision)

  -- `retry`
  unfoldable pub retry : String → String → Exec (World Json) OutcomeResolution
  unfolding require_current_resolution retry_current
  retry id resolution = do
    action ← require_action h id
    assert_dispatch_eligibility h action
    spec ← require_spec h action
    newest ← require_current_resolution id resolution
    retry_current id action spec newest

  -- From the claim on. Whatever is thrown goes on to the caller, and the claim stays.
  unfoldable pub compensate_claimed :
      String
      → ActionRecord Json
      → DispatchPlan Json
      → Option String
      → Exec (World Json) OutcomeResolution
  compensate_claimed id action plan none = raise Failure.compensation_taken
  compensate_claimed id action plan (some token) = do
    evidence ← send h (compensated id) (λ n. h.provider_compensate n action plan)
    append_evidence h action evidence
    call h (λ n s. finish_compensation id token s)
    reconcile id

  -- `compensate`
  unfoldable pub compensate : String → Exec (World Json) OutcomeResolution
  unfolding compensate_claimed
  compensate id = do
    action ← require_action h id
    assert_dispatch_eligibility h action
    spec ← require_spec h action
    require_provider h action.effect_name
    guard (spec.compensation.supported && h.can_compensate action.effect_name)
        Failure.compensation_unsupported
    plan ← or_fail Failure.no_dispatch_plan action.dispatch_plan
    claim ← call h (λ n s. claim_compensation (h.new_id n) id s)
    compensate_claimed id action plan (owned_token claim)

  -- `authorizeContinuation`
  unfoldable pub authorize_continuation : String → String → Exec (World Json) Unit
  unfolding require_current_resolution
  authorize_continuation id resolution = do
    newest ← require_current_resolution id resolution
    basis ← or_fail Failure.stale_decision newest.basis
    evidence ← read h (λ s. latest_sequence id s)
    guard (evidence == basis.evidence_sequence) Failure.stale_decision
    guard (newest.control.continuation == ContinuationDisposition.allowed)
        Failure.continuation_blocked
