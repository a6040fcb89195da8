-- ===== src/Engine/Clamps.antt =====
-- The control floors of `applySafetyFloors` (src/engine/safetyFloors.ts): what may be
-- authorized. Each takes the decision and the adjustments so far.
pub mod Narrows
pub mod Safe
use nyst.Base.{
  Bool, true, false, not, ◌&&◌, ◌||◌, Option, none, List, [], ◌∷◌, ◌++◌, any, is_empty, is_some,
  ◌==◌, if◌then◌else◌,
}
use nyst.Model.EffectState.{EffectState, effect_state_eq}
use nyst.Model.Control.{
  PrimaryDirective, RetryDisposition, ContinuationDisposition, RecoveryDisposition, ControlDecision,
  primary_eq, retry_eq, continuation_eq, recovery_eq,
}
use nyst.Model.Spec.{EffectSpec}
use nyst.Engine.Adjustment
use nyst.Engine.Adjustment.{Adjustment}
use nyst.Engine.Ledger.{Evidence, is_non_transport}

abbrev pub Clamped : Type 0
Clamped = ControlDecision × List Adjustment

-- `if (test(d)) clamp(patch, code)`
unfoldable pub clamp :
    (ControlDecision → Bool) → (ControlDecision → ControlDecision) → Adjustment → Clamped → Clamped
clamp test patch code (d, adj) = if test d then (patch d, adj ++ code ∷ []) else (d, adj)

abbrev forbid_retry : ControlDecision → ControlDecision
forbid_retry d = record d { retry = RetryDisposition.forbidden }

abbrev block_continuation : ControlDecision → ControlDecision
block_continuation d = record d { continuation = ContinuationDisposition.blocked }

abbrev set_primary : PrimaryDirective → ControlDecision → ControlDecision
set_primary p d = record d { primary = p }

-- `{ retry: "forbidden", primary: d.primary === "retry" ? "hold" : d.primary }`
abbrev pub forbid_retry_hold : ControlDecision → ControlDecision
forbid_retry_hold d = record d {
  retry = RetryDisposition.forbidden;
  primary = if d.primary == PrimaryDirective.retry then PrimaryDirective.hold else d.primary;
}

abbrev escalate_fully : ControlDecision → ControlDecision
escalate_fully d = record d {
  primary = PrimaryDirective.escalate;
  recovery = RecoveryDisposition.escalate;
}

abbrev allows_retry : ControlDecision → Bool
allows_retry d = d.retry == RetryDisposition.allowed

abbrev not_forbids_retry : ControlDecision → Bool
not_forbids_retry d = not (d.retry == RetryDisposition.forbidden)

abbrev is_primary : PrimaryDirective → ControlDecision → Bool
is_primary p d = d.primary == p

abbrev not_blocks : ControlDecision → Bool
not_blocks d = not (d.continuation == ContinuationDisposition.blocked)

module _ {Json : Type 0} where
  unfoldable pub is_transport_ambiguous : Evidence Json → Bool
  is_transport_ambiguous active =
      (not (is_empty active) && not (any is_non_transport active)) || is_empty active

  unfoldable pub clamp_transport : Evidence Json → Clamped → Clamped
  unfolding clamp is_transport_ambiguous
  clamp_transport active =
      clamp (λ d. is_transport_ambiguous active && allows_retry d) forbid_retry_hold
        Adjustment.c6_transport_ambiguity_blocks_retry

unfoldable pub clamp_compensation : Bool → Clamped → Clamped
unfolding clamp
clamp_compensation supported =
    clamp
      (λ d.
        not supported
        && (is_primary PrimaryDirective.compensate d
            || (d.recovery == RecoveryDisposition.compensate)))
      escalate_fully Adjustment.c7_unsupported_compensation_rejected

-- The `switch (state)`.
unfoldable pub clamp_state : (goal_sufficient retry_safe : Bool) → EffectState → Clamped → Clamped
unfolding clamp
clamp_state goal_sufficient retry_safe EffectState.verified c =
    clamp (is_primary PrimaryDirective.retry) (set_primary PrimaryDirective.continue)
      Adjustment.c1_verified_primary_not_retry
      (clamp not_forbids_retry forbid_retry Adjustment.c1_verified_forbids_duplicate_retry c)
clamp_state goal_sufficient retry_safe EffectState.pending c =
    clamp
      (λ d.
        not (is_primary PrimaryDirective.hold d) && not (is_primary PrimaryDirective.escalate d))
      (set_primary PrimaryDirective.hold) Adjustment.c2_pending_primary_hold
      (clamp not_blocks block_continuation Adjustment.c2_pending_blocks_continuation
        (clamp not_forbids_retry forbid_retry Adjustment.c2_pending_forbids_retry c))
clamp_state goal_sufficient retry_safe EffectState.unprovable c =
    clamp
      (λ d.
        not (is_primary PrimaryDirective.escalate d) && not (is_primary PrimaryDirective.hold d))
      escalate_fully Adjustment.c3_unprovable_primary_escalate
      (clamp not_blocks block_continuation Adjustment.c3_unprovable_blocks_continuation
        (clamp allows_retry forbid_retry Adjustment.c3_unprovable_blocks_automatic_retry c))
clamp_state goal_sufficient retry_safe EffectState.satisfied_unattributed c =
    clamp (λ d. (d.continuation == ContinuationDisposition.allowed) && not goal_sufficient)
      (λ d. record d { continuation = ContinuationDisposition.conditional })
      Adjustment.c4_continuation_requires_goal_state_sufficiency
      (clamp (is_primary PrimaryDirective.retry) (set_primary PrimaryDirective.do_not_retry)
        Adjustment.c4_satisfied_primary_not_retry
        (clamp not_forbids_retry forbid_retry Adjustment.c4_satisfied_forbids_retry c))
clamp_state goal_sufficient retry_safe EffectState.not_applied c =
    clamp not_blocks block_continuation Adjustment.c5_not_applied_blocks_dependent_continuation (
      clamp (λ d. allows_retry d && not retry_safe) forbid_retry_hold
        Adjustment.c5_retry_requires_spec_retry_safety c)
clamp_state goal_sufficient retry_safe EffectState.compensated c = c

-- `state === "unprovable" ? "escalate" : "hold"`
unfoldable pub fallback_primary : EffectState → PrimaryDirective
fallback_primary s =
    if s == EffectState.unprovable then PrimaryDirective.escalate else PrimaryDirective.hold

unfoldable pub clamp_consistency : EffectState → Clamped → Clamped
unfolding clamp fallback_primary
clamp_consistency s c =
    clamp (λ d. is_primary PrimaryDirective.continue d && not (not_blocks d))
      (set_primary (fallback_primary s)) Adjustment.c9_primary_continue_inconsistent
      (clamp (λ d. is_primary PrimaryDirective.retry d && not (allows_retry d))
        (set_primary (fallback_primary s)) Adjustment.c8_primary_retry_inconsistent c)

unfoldable pub clamp_next_check : EffectState → Clamped → Clamped
unfolding clamp
clamp_next_check s =
    clamp (λ d. not (s == EffectState.pending) && is_some d.next_check_at)
      (λ d. record d { next_check_at = none }) Adjustment.c10_terminal_next_check_removed

-- The control floors in the order of the source.
unfoldable pub control_floors :
    {Json : Type 0} → EffectSpec Json → Evidence Json → EffectState → Clamped → Clamped
unfolding clamp_transport clamp_compensation clamp_state clamp_consistency clamp_next_check
control_floors spec active s c = clamp_next_check s (
    clamp_consistency s (
      clamp_state spec.goal_state_sufficient_for_continuation spec.retry_safe_when_not_applied s
        (clamp_compensation spec.compensation.supported (clamp_transport active c))))
