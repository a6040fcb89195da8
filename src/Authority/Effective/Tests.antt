-- ===== src/Authority/Effective/Tests.antt =====
-- A policy that continues by itself, with approval.
use nyst.Base.{refl, true, false, none, ◌≡◌, ◌≢◌, ◌↔◌}
use nyst.Model.Control.{
  PrimaryDirective, RetryDisposition, ContinuationDisposition, RecoveryDisposition, ControlDecision,
}
use nyst.Authority.Effective.{
  RuntimeAuthority, ConservativePolicy, effective_authority, constrain_control_decision,
  sql_automatic_continuation, sql_automatic_compensation,
}
use nyst.Authority.Effective.Laws.{effective-narrows, automatic_iff, IsConstrained, constrain_lem}

abbrev permissive : RuntimeAuthority
permissive = record {
  primary = PrimaryDirective.continue;
  retry = RetryDisposition.allowed;
  continuation = ContinuationDisposition.allowed;
  recovery = RecoveryDisposition.compensate;
}

abbrev approving : ConservativePolicy
approving = record { auto_continuation = true; auto_compensation = false; approval_mode = true }

abbrev decided : ControlDecision
decided = record {
  decision_version = 1;
  primary = PrimaryDirective.compensate;
  retry = RetryDisposition.unknown;
  continuation = ContinuationDisposition.conditional;
  recovery = RecoveryDisposition.compensate;
  reason_code = "PAY.REFUND";
  explanation = "The payment is to be refunded.";
  next_check_at = none;
  policy_version = "1";
  spec_version = "1";
}

effective-narrows_example :
    ((effective_authority permissive approving).permitted.retry ≡ RetryDisposition.forbidden)
    × ((effective_authority permissive approving).permitted.continuation
          ≡ ContinuationDisposition.allowed
        → (permissive.continuation ≡ ContinuationDisposition.allowed)
          × (approving.auto_continuation ≡ true)
          × (approving.approval_mode ≡ false))
    × ((effective_authority permissive approving).permitted.recovery
          ≡ RecoveryDisposition.compensate
        → (permissive.recovery ≡ RecoveryDisposition.compensate)
          × (approving.auto_compensation ≡ true))
    × ((effective_authority permissive approving).permitted.primary ≢ PrimaryDirective.retry)
    × ((effective_authority permissive approving).permitted.primary ≡ PrimaryDirective.continue
        → (permissive.primary ≡ PrimaryDirective.continue)
          × ((effective_authority permissive approving).permitted.continuation
              ≡ ContinuationDisposition.allowed))
    × ((effective_authority permissive approving).permitted.primary ≡ PrimaryDirective.compensate
        → (permissive.primary ≡ PrimaryDirective.compensate)
          × ((effective_authority permissive approving).permitted.recovery
              ≡ RecoveryDisposition.compensate))
effective-narrows_example = effective-narrows permissive approving

automatic_iff_example :
    (((effective_authority permissive approving).automatic_continuation_allowed ≡ true) ↔ (
      (permissive.continuation ≡ ContinuationDisposition.allowed)
      × (approving.auto_continuation ≡ true)
      × (approving.approval_mode ≡ false)))
    × (sql_automatic_continuation approving permissive
        ≡ (effective_authority permissive approving).automatic_continuation_allowed)
    × (((effective_authority permissive approving).automatic_compensation_allowed ≡ true) ↔ (
        (permissive.recovery ≡ RecoveryDisposition.compensate)
        × (approving.auto_compensation ≡ true)
        × (approving.approval_mode ≡ false)))
    × ((sql_automatic_compensation approving permissive ≡ true) ↔ (
        ((effective_authority permissive approving).automatic_compensation_allowed ≡ true)
        × (permissive.primary ≡ PrimaryDirective.compensate)))
automatic_iff_example = automatic_iff permissive approving

constrain_lem_example :
    IsConstrained approving decided (constrain_control_decision decided approving)
    × (constrain_control_decision (constrain_control_decision decided approving) approving
        ≡ constrain_control_decision decided approving)
constrain_lem_example = constrain_lem decided approving

abbrev holding : RuntimeAuthority
holding = record permissive { primary = PrimaryDirective.hold }

abbrev automatic : ConservativePolicy
automatic = record { auto_continuation = false; auto_compensation = true; approval_mode = false }

-- While the primary directive holds, the function allows an automatic compensation that the
-- predicate of the database does not.
holding_differs :
    ((effective_authority holding automatic).automatic_compensation_allowed ≡ true)
    × (sql_automatic_compensation automatic holding ≡ false)
unfolding effective_authority sql_automatic_compensation
holding_differs = (refl, refl)
