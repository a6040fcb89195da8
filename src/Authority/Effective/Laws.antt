-- ===== src/Authority/Effective/Laws.antt =====
-- The policy only removes authority.
use nyst.Base.{refl, true, false, ◌≡◌, ◌≢◌, ◌↔◌, ◌⊎◌, arith}
use nyst.Model.Control.{
  PrimaryDirective, RetryDisposition, ContinuationDisposition, RecoveryDisposition, ControlDecision,
}
use nyst.Authority.Effective.{
  RuntimeAuthority, ConservativePolicy, effective_authority, constrain_control_decision,
  sql_automatic_continuation, sql_automatic_compensation,
}

module _ (runtime : RuntimeAuthority) (policy : ConservativePolicy) where
  -- The effective authority of a runtime authority under a policy never permits a retry; it permits
  -- a continuation or a recovery by compensation only where the runtime did and the policy permits
  -- it by itself; a primary `continue` or `compensate` stands only if the runtime proposed it and
  -- the disposition that it needs is left; and no primary `retry` is left.
  pub effective-narrows :
      ((effective_authority runtime policy).permitted.retry ≡ RetryDisposition.forbidden)
      × ((effective_authority runtime policy).permitted.continuation
            ≡ ContinuationDisposition.allowed
          → (runtime.continuation ≡ ContinuationDisposition.allowed)
            × (policy.auto_continuation ≡ true)
            × (policy.approval_mode ≡ false))
      × ((effective_authority runtime policy).permitted.recovery ≡ RecoveryDisposition.compensate
          → (runtime.recovery ≡ RecoveryDisposition.compensate) × (policy.auto_compensation ≡ true))
      × ((effective_authority runtime policy).permitted.primary ≢ PrimaryDirective.retry)
      × ((effective_authority runtime policy).permitted.primary ≡ PrimaryDirective.continue
          → (runtime.primary ≡ PrimaryDirective.continue)
            × ((effective_authority runtime policy).permitted.continuation
                ≡ ContinuationDisposition.allowed))
      × ((effective_authority runtime policy).permitted.primary ≡ PrimaryDirective.compensate
          → (runtime.primary ≡ PrimaryDirective.compensate)
            × ((effective_authority runtime policy).permitted.recovery
                ≡ RecoveryDisposition.compensate))
  unfolding effective_authority
  effective-narrows = ground arith

  -- Automatic continuation is allowed exactly if the runtime allows continuation, the policy permits
  -- it automatically and asks for no approval, and that is when the predicate on continuation of
  -- the database holds. Automatic compensation is allowed exactly if recovery is by compensation,
  -- the policy permits it automatically and asks for no approval; the predicate of the database
  -- holds exactly if besides the primary directive is to compensate.
  pub automatic_iff :
      (((effective_authority runtime policy).automatic_continuation_allowed ≡ true) ↔ (
        (runtime.continuation ≡ ContinuationDisposition.allowed)
        × (policy.auto_continuation ≡ true)
        × (policy.approval_mode ≡ false)))
      × (sql_automatic_continuation policy runtime
          ≡ (effective_authority runtime policy).automatic_continuation_allowed)
      × (((effective_authority runtime policy).automatic_compensation_allowed ≡ true) ↔ (
          (runtime.recovery ≡ RecoveryDisposition.compensate)
          × (policy.auto_compensation ≡ true)
          × (policy.approval_mode ≡ false)))
      × ((sql_automatic_compensation policy runtime ≡ true) ↔ (
          ((effective_authority runtime policy).automatic_compensation_allowed ≡ true)
          × (runtime.primary ≡ PrimaryDirective.compensate)))
  unfolding effective_authority sql_automatic_continuation sql_automatic_compensation
  automatic_iff = ground arith

-- `c` is `d` under the policy: the texts, the time of the next check and the versions are those of
-- `d`, no retry is left, continuation and compensation are left where the policy leaves them, and
-- the primary directive is the same, or holds or escalates instead.
pub record IsConstrained (policy : ConservativePolicy) (d c : ControlDecision) : Type 0 where
  pub same_version : c.decision_version ≡ d.decision_version
  pub same_reason : c.reason_code ≡ d.reason_code
  pub same_explanation : c.explanation ≡ d.explanation
  pub same_check : c.next_check_at ≡ d.next_check_at
  pub same_policy : c.policy_version ≡ d.policy_version
  pub same_spec : c.spec_version ≡ d.spec_version
  pub no_retry : c.retry ≡ RetryDisposition.forbidden
  pub continues : (c.continuation ≡ ContinuationDisposition.allowed) ↔ (
      (d.continuation ≡ ContinuationDisposition.allowed)
      × (policy.auto_continuation ≡ true)
      × (policy.approval_mode ≡ false))
  pub compensates :
      (c.recovery ≡ RecoveryDisposition.compensate)
      ↔ ((d.recovery ≡ RecoveryDisposition.compensate) × (policy.auto_compensation ≡ true))
  pub directs :
      (c.primary ≡ d.primary)
      ⊎ ((d.primary ≡ PrimaryDirective.continue) × (c.primary ≡ PrimaryDirective.hold))
      ⊎ (((d.primary ≡ PrimaryDirective.retry) ⊎ (d.primary ≡ PrimaryDirective.compensate))
          × (c.primary ≡ PrimaryDirective.escalate))

module _ (d : ControlDecision) (policy : ConservativePolicy) where
  -- A constrained decision keeps the texts, the time of the next check and the versions of the
  -- decision. It never permits a retry, permits continuation exactly if the decision did and the
  -- policy permits it automatically with no approval, and recovery by compensation exactly if the
  -- decision did and the policy permits it automatically. Its primary directive is that of the
  -- decision, or it holds instead of continuing or escalates instead of retrying or compensating.
  -- The same policy does not change it again.
  pub constrain_lem :
      IsConstrained policy d (constrain_control_decision d policy)
      × (constrain_control_decision (constrain_control_decision d policy) policy
          ≡ constrain_control_decision d policy)
  unfolding constrain_control_decision
  constrain_lem = (
    record {
      same_version = refl;
      same_reason = refl;
      same_explanation = refl;
      same_check = refl;
      same_policy = refl;
      same_spec = refl;
      no_retry = refl;
      continues = ground arith;
      compensates = ground arith;
      directs = ground arith;
    },
    ground arith,
  )
