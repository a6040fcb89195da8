-- ===== src/Engine/Clamps/Safe.antt =====
-- What the control floors leave standing, as predicates on the final decision.
use nyst.Base.{true, false, none, ◌≡◌, ◌≢◌, ◌⊎◌, arith, sym, ◌∙◌}
use nyst.Model.EffectState.{EffectState}
use nyst.Model.Control.{
  PrimaryDirective, RetryDisposition, ContinuationDisposition, RecoveryDisposition, ControlDecision,
}
use nyst.Model.Spec.{EffectSpec}
use nyst.Engine.Ledger.{Evidence}
use nyst.Engine.Clamps.Narrows.{
  Narrows, Narrows-trans, compensation-Narrows, state-Narrows, consistency-Narrows,
  next_check-Narrows,
}
use nyst.Engine.Clamps.{
  Clamped, is_transport_ambiguous, clamp_transport, clamp_compensation, clamp_state,
  clamp_consistency, clamp_next_check, control_floors,
}

module _ {Json : Type 0} (spec : EffectSpec Json) where
  -- What a state permits.
  abbrev pub Permits : EffectState → ControlDecision → Type 0
  Permits EffectState.verified d =
      (d.retry ≡ RetryDisposition.forbidden) × (d.primary ≢ PrimaryDirective.retry)
  Permits EffectState.not_applied d =
      (d.retry ≡ RetryDisposition.allowed → spec.retry_safe_when_not_applied ≡ true)
      × (d.continuation ≡ ContinuationDisposition.blocked)
  Permits EffectState.pending d =
      (d.retry ≡ RetryDisposition.forbidden)
      × (d.continuation ≡ ContinuationDisposition.blocked)
      × ((d.primary ≡ PrimaryDirective.hold) ⊎ (d.primary ≡ PrimaryDirective.escalate))
  Permits EffectState.compensated d = Unit
  Permits EffectState.satisfied_unattributed d =
      (d.retry ≡ RetryDisposition.forbidden)
      × (d.primary ≢ PrimaryDirective.retry)
      × (d.continuation ≡ ContinuationDisposition.allowed
          → spec.goal_state_sufficient_for_continuation ≡ true)
  Permits EffectState.unprovable d =
      (d.retry ≢ RetryDisposition.allowed)
      × (d.continuation ≡ ContinuationDisposition.blocked)
      × ((d.primary ≡ PrimaryDirective.hold) ⊎ (d.primary ≡ PrimaryDirective.escalate))

  pub record IsSafe (active : Evidence Json) (s : EffectState) (d : ControlDecision) : Type 0 where
    pub permitted : Permits s d
    pub not_transport_only :
        is_transport_ambiguous active ≡ true → d.retry ≢ RetryDisposition.allowed
    pub compensable :
        spec.compensation.supported ≡ false
        → (d.primary ≢ PrimaryDirective.compensate) × (d.recovery ≢ RecoveryDisposition.compensate)
    pub retry_consistent : d.primary ≡ PrimaryDirective.retry → d.retry ≡ RetryDisposition.allowed
    pub continue_consistent :
        d.primary ≡ PrimaryDirective.continue → d.continuation ≢ ContinuationDisposition.blocked
    pub no_stale_check : s ≢ EffectState.pending → d.next_check_at ≡ none

-- The stages, each with what it establishes.
transport_lem :
    {Json : Type 0} (active : Evidence Json) (c : Clamped)
    → is_transport_ambiguous active ≡ true
    → (clamp_transport active c).0.retry ≢ RetryDisposition.allowed
unfolding clamp_transport
transport_lem active c h = ground arith

compensation_lem :
    (c : Clamped)
    → ((clamp_compensation false c).0.primary ≢ PrimaryDirective.compensate)
      × ((clamp_compensation false c).0.recovery ≢ RecoveryDisposition.compensate)
unfolding clamp_compensation
compensation_lem c = ground arith

consistency_lem :
    (s : EffectState) (c : Clamped)
    → ((clamp_consistency s c).0.primary ≡ PrimaryDirective.retry
        → (clamp_consistency s c).0.retry ≡ RetryDisposition.allowed)
      × ((clamp_consistency s c).0.primary ≡ PrimaryDirective.continue
          → (clamp_consistency s c).0.continuation ≢ ContinuationDisposition.blocked)
unfolding clamp_consistency
consistency_lem s c = ground arith

next_check_lem :
    (s : EffectState) (c : Clamped)
    → s ≢ EffectState.pending
    → (clamp_next_check s c).0.next_check_at ≡ none
unfolding clamp_next_check
next_check_lem s c h = ground arith

-- The last stage changes nothing else.
next_check-same :
    (s : EffectState) (c : Clamped)
    → ((clamp_next_check s c).0.primary ≡ c.0.primary)
      × ((clamp_next_check s c).0.retry ≡ c.0.retry)
      × ((clamp_next_check s c).0.continuation ≡ c.0.continuation)
      × ((clamp_next_check s c).0.recovery ≡ c.0.recovery)
unfolding clamp_next_check
next_check-same s c = ground arith

module _ {Json : Type 0} (spec : EffectSpec Json) where
  state-Permits :
      (s : EffectState) (c : Clamped)
      → Permits spec s
          (clamp_state spec.goal_state_sufficient_for_continuation spec.retry_safe_when_not_applied
            s c).0
  unfolding clamp_state
  state-Permits EffectState.verified c = ground arith
  state-Permits _ c = ground arith

  consistency-Permits :
      (s : EffectState) (c : Clamped)
      → Permits spec s c.0
      → Permits spec s (clamp_consistency s c).0
  unfolding clamp_consistency
  consistency-Permits EffectState.verified c h = ground arith
  consistency-Permits _ c h = ground arith

  next_check-Permits :
      (s : EffectState) (c : Clamped) → Permits spec s c.0 → Permits spec s (clamp_next_check s c).0
  unfolding clamp_next_check
  next_check-Permits EffectState.verified c h = ground arith
  next_check-Permits _ c h = ground arith

  -- Every control floor holds of the decision that the floors leave.
  pub control-IsSafe :
      (active : Evidence Json) (s : EffectState) (c : Clamped)
      → IsSafe spec active s (control_floors spec active s c).0
  unfolding control_floors
  control-IsSafe active s c =
      let c₁ = clamp_transport active c in
      let c₂ = clamp_compensation spec.compensation.supported c₁ in
      let c₃ =
        clamp_state spec.goal_state_sufficient_for_continuation spec.retry_safe_when_not_applied s
          c₂ in
      let c₄ = clamp_consistency s c₃ in
      let last : Narrows c₂.0 (clamp_next_check s c₄).0 =
        Narrows-trans (state-Narrows _ _ s c₂)
          (Narrows-trans (consistency-Narrows s c₃) (next_check-Narrows s c₄)) in
      let late : Narrows c₁.0 (clamp_next_check s c₄).0 =
        Narrows-trans (compensation-Narrows _ c₁) last in
      let same = next_check-same s c₄ in
      record {
        permitted = next_check-Permits s c₄ (consistency-Permits s c₃ (state-Permits s c₂));
        not_transport_only = λ amb h. transport_lem active c amb (late.retry h);
        compensable = λ unsupported. (
          λ h. (uncompensated unsupported c₁).0 (last.primary_compensate h),
          λ h. (uncompensated unsupported c₁).1 (last.recovery_compensate h),
        );
        retry_consistent = λ h. same.1 ∙ (consistency_lem s c₃).0 (sym same.0 ∙ h);
        continue_consistent = λ h b. (consistency_lem s c₃).1 (sym same.0 ∙ h) (sym same.2 ∙ b);
        no_stale_check = next_check_lem s c₄;
      }
    where
      uncompensated :
          spec.compensation.supported ≡ false
          → (c₁ : Clamped)
          → ((clamp_compensation spec.compensation.supported c₁).0.primary
              ≢ PrimaryDirective.compensate)
            × ((clamp_compensation spec.compensation.supported c₁).0.recovery
                ≢ RecoveryDisposition.compensate)
      uncompensated u c₁ = rw u (compensation_lem c₁)
