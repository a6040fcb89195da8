-- ===== src/Engine/Clamps/Narrows.antt =====
-- The control floors only take authority away.
use nyst.Base.{Bool, ◌≡◌, arith}
use nyst.Model.EffectState.{EffectState}
use nyst.Model.Control.{
  PrimaryDirective, RetryDisposition, ContinuationDisposition, RecoveryDisposition, ControlDecision,
}
use nyst.Model.Spec.{EffectSpec}
use nyst.Engine.Ledger.{Evidence}
use nyst.Engine.Clamps.{
  Clamped, clamp_transport, clamp_compensation, clamp_state, clamp_consistency, clamp_next_check,
  control_floors,
}

-- No authority is added: what the second decision allows, the first allowed too.
pub record Narrows (d d' : ControlDecision) : Type 0 where
  pub retry : d'.retry ≡ RetryDisposition.allowed → d.retry ≡ RetryDisposition.allowed
  pub continuation :
      d'.continuation ≡ ContinuationDisposition.allowed
      → d.continuation ≡ ContinuationDisposition.allowed
  pub primary_retry : d'.primary ≡ PrimaryDirective.retry → d.primary ≡ PrimaryDirective.retry
  pub primary_compensate :
      d'.primary ≡ PrimaryDirective.compensate → d.primary ≡ PrimaryDirective.compensate
  pub recovery_compensate :
      d'.recovery ≡ RecoveryDisposition.compensate → d.recovery ≡ RecoveryDisposition.compensate

pub Narrows-trans : {a b c : ControlDecision} → Narrows a b → Narrows b c → Narrows a c
Narrows-trans f g = record {
  retry = λ h. f.retry (g.retry h);
  continuation = λ h. f.continuation (g.continuation h);
  primary_retry = λ h. f.primary_retry (g.primary_retry h);
  primary_compensate = λ h. f.primary_compensate (g.primary_compensate h);
  recovery_compensate = λ h. f.recovery_compensate (g.recovery_compensate h);
}

pub transport-Narrows :
    {Json : Type 0} (active : Evidence Json) (c : Clamped)
    → Narrows c.0 (clamp_transport active c).0
unfolding clamp_transport
transport-Narrows active c = ground arith

pub compensation-Narrows :
    (supported : Bool) (c : Clamped) → Narrows c.0 (clamp_compensation supported c).0
unfolding clamp_compensation
compensation-Narrows supported c = ground arith

pub state-Narrows :
    (goal safe : Bool) (s : EffectState) (c : Clamped) → Narrows c.0 (clamp_state goal safe s c).0
unfolding clamp_state
state-Narrows goal safe EffectState.verified c = ground arith
state-Narrows goal safe _ c = ground arith

pub consistency-Narrows : (s : EffectState) (c : Clamped) → Narrows c.0 (clamp_consistency s c).0
unfolding clamp_consistency
consistency-Narrows s c = ground arith

pub next_check-Narrows : (s : EffectState) (c : Clamped) → Narrows c.0 (clamp_next_check s c).0
unfolding clamp_next_check
next_check-Narrows s c = ground arith

-- All control floors together.
pub control-Narrows :
    {Json : Type 0} (spec : EffectSpec Json) (active : Evidence Json) (s : EffectState)
    (c : Clamped)
    → Narrows c.0 (control_floors spec active s c).0
unfolding control_floors
control-Narrows spec active s c =
    let c₁ = clamp_transport active c in
    let c₂ = clamp_compensation spec.compensation.supported c₁ in
    let c₃ =
      clamp_state spec.goal_state_sufficient_for_continuation spec.retry_safe_when_not_applied s
        c₂ in
    let c₄ = clamp_consistency s c₃ in
    Narrows-trans (transport-Narrows active c) (
      Narrows-trans (compensation-Narrows _ c₁) (
        Narrows-trans (state-Narrows _ _ s c₂)
          (Narrows-trans (consistency-Narrows s c₃) (next_check-Narrows s c₄))))
