-- ===== src/Authority/Effective.antt =====
-- src/product/effectiveAuthority.ts: the intersection of what the runtime permits with the policy
-- that the customer bound to the action. Of the policy, the fields that are read.
pub mod Laws
mod Tests
use nyst.Base.{
  ℕ, String, Bool, true, false, not, ◌&&◌, List, [], ◌∷◌, ◌++◌, ◌≡◌, ◌↔◌, arith, eqb, Eq,
  eq_by_rank, ◌==◌, if◌then◌else◌,
}
use nyst.Model.Control.{
  PrimaryDirective, RetryDisposition, ContinuationDisposition, RecoveryDisposition, ControlDecision,
  primary_eq, retry_eq, continuation_eq, recovery_eq,
}

pub record RuntimeAuthority : Type 0 where
  pub primary : PrimaryDirective
  pub retry : RetryDisposition
  pub continuation : ContinuationDisposition
  pub recovery : RecoveryDisposition

-- The reductions, which the source names by texts.
pub data Reduction : Type 0 where
  retry_never_automatic auto_continuation_disabled auto_compensation_disabled approval_required :
      Reduction

-- `automatic_retry_allowed` is the constant `false` of the source's type.
pub record EffectiveAuthority : Type 0 where
  pub permitted : RuntimeAuthority
  pub automatic_continuation_allowed : Bool
  pub automatic_compensation_allowed : Bool
  pub automatic_retry_allowed : Bool
  pub reductions : List Reduction

-- `approval_mode` is `execution_mode === "approval_required"`.
pub record ConservativePolicy : Type 0 where
  pub auto_continuation : Bool
  pub auto_compensation : Bool
  pub approval_mode : Bool

unfoldable pub narrow_primary :
    PrimaryDirective → ContinuationDisposition → RecoveryDisposition → PrimaryDirective
narrow_primary primary continuation recovery =
    if primary == PrimaryDirective.retry
    then PrimaryDirective.escalate
    else if (primary == PrimaryDirective.continue)
        && not (continuation == ContinuationDisposition.allowed)
    then PrimaryDirective.hold
    else if (primary == PrimaryDirective.compensate)
        && not (recovery == RecoveryDisposition.compensate)
    then PrimaryDirective.escalate
    else primary

-- The continuation after the test of the policy, and after that of the execution mode.
unfoldable pub policy_continuation :
    ConservativePolicy → ContinuationDisposition → ContinuationDisposition
policy_continuation policy c =
    if not policy.auto_continuation && not (c == ContinuationDisposition.blocked)
    then ContinuationDisposition.blocked
    else c

unfoldable pub approved_continuation :
    ConservativePolicy → ContinuationDisposition → ContinuationDisposition
approved_continuation policy c =
    if policy.approval_mode && (c == ContinuationDisposition.allowed)
    then ContinuationDisposition.conditional
    else c

unfoldable pub policy_recovery : ConservativePolicy → RecoveryDisposition → RecoveryDisposition
policy_recovery policy r =
    if not policy.auto_compensation && (r == RecoveryDisposition.compensate)
    then RecoveryDisposition.escalate
    else r

-- `if (test) reductions.push(reason)`
unfoldable pub push_if : Bool → Reduction → List Reduction → List Reduction
push_if test reason reductions = if test then reductions ++ reason ∷ [] else reductions

-- The reasons in the order in which they are pushed.
unfoldable pub reductions_of : RuntimeAuthority → ConservativePolicy → List Reduction
unfolding push_if policy_continuation
reductions_of runtime policy =
    push_if
      (policy.approval_mode
        && (policy_continuation policy runtime.continuation == ContinuationDisposition.allowed))
      Reduction.approval_required
      (push_if
        (not policy.auto_compensation && (runtime.recovery == RecoveryDisposition.compensate))
        Reduction.auto_compensation_disabled
        (push_if
          (not policy.auto_continuation
            && not (runtime.continuation == ContinuationDisposition.blocked))
          Reduction.auto_continuation_disabled
          (push_if (not (runtime.retry == RetryDisposition.forbidden))
            Reduction.retry_never_automatic [])))

-- `effectiveAuthority`
unfoldable pub effective_authority : RuntimeAuthority → ConservativePolicy → EffectiveAuthority
unfolding narrow_primary policy_continuation approved_continuation policy_recovery reductions_of
effective_authority runtime policy =
    let continuation =
      approved_continuation policy (policy_continuation policy runtime.continuation) in
    let recovery = policy_recovery policy runtime.recovery in
    record {
      permitted = record {
        primary = narrow_primary runtime.primary continuation recovery;
        retry = RetryDisposition.forbidden;
        continuation = continuation;
        recovery = recovery;
      };
      automatic_continuation_allowed =
          (continuation == ContinuationDisposition.allowed)
          && policy.auto_continuation
          && not policy.approval_mode;
      automatic_compensation_allowed =
          (recovery == RecoveryDisposition.compensate)
          && policy.auto_compensation
          && not policy.approval_mode;
      automatic_retry_allowed = false;
      reductions = reductions_of runtime policy;
    }

unfoldable pub runtime_authority : ControlDecision → RuntimeAuthority
runtime_authority d = record {
  primary = d.primary;
  retry = d.retry;
  continuation = d.continuation;
  recovery = d.recovery;
}

-- `SQL_AUTOMATIC_CONTINUATION_AUTHORITY`: the mode `automatic` is the one that asks for no approval.
unfoldable pub sql_automatic_continuation : ConservativePolicy → RuntimeAuthority → Bool
sql_automatic_continuation p r =
    p.auto_continuation
    && not p.approval_mode
    && (r.continuation == ContinuationDisposition.allowed)

-- `SQL_AUTOMATIC_COMPENSATION_AUTHORITY`
unfoldable pub sql_automatic_compensation : ConservativePolicy → RuntimeAuthority → Bool
sql_automatic_compensation p r =
    p.auto_compensation
    && not p.approval_mode
    && (r.primary == PrimaryDirective.compensate)
    && (r.recovery == RecoveryDisposition.compensate)

-- `constrainControlDecision`
unfoldable pub constrain_control_decision : ControlDecision → ConservativePolicy → ControlDecision
unfolding effective_authority runtime_authority
constrain_control_decision d policy =
    let authority = (effective_authority (runtime_authority d) policy).permitted in
    record d {
      primary = authority.primary;
      retry = authority.retry;
      continuation = authority.continuation;
      recovery = authority.recovery;
    }

-- `HumanReviewOperation`
pub data HumanReviewOperation : Type 0 where
  acknowledge request_reobservation authorize_compensation cancel : HumanReviewOperation

-- `permittedHumanReviewOperations`
unfoldable pub permitted_human_review_operations : EffectiveAuthority → List HumanReviewOperation
permitted_human_review_operations authority =
    let base = HumanReviewOperation.acknowledge ∷ HumanReviewOperation.request_reobservation ∷ [] in
    (if authority.permitted.recovery == RecoveryDisposition.compensate
      then base ++ HumanReviewOperation.authorize_compensation ∷ []
      else base)
    ++ HumanReviewOperation.cancel ∷ []
