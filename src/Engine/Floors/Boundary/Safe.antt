-- ===== src/Engine/Floors/Boundary/Safe.antt =====
-- The dispatch-boundary floor keeps a decision safe.
use nyst.Base.{arith}
use nyst.Model.EffectState.{EffectState}
use nyst.Model.Control.{ControlDecision}
use nyst.Model.Spec.{EffectSpec}
use nyst.Engine.Ledger.{Evidence}
use nyst.Engine.Clamps.Safe.{Permits, IsSafe}
use nyst.Engine.Floors.Boundary.{DispatchBoundaryFacts, apply_dispatch_boundary_floor}

module _ {Json : Type 0} (spec : EffectSpec Json) (d : ControlDecision)
    (facts : DispatchBoundaryFacts) where
  boundary-Permits :
      (s : EffectState) → Permits spec s d → Permits spec s (apply_dispatch_boundary_floor d facts)
  unfolding apply_dispatch_boundary_floor
  boundary-Permits EffectState.verified p = ground arith
  boundary-Permits EffectState.not_applied p = ground arith
  boundary-Permits EffectState.pending p = ground arith
  boundary-Permits EffectState.compensated p = tt
  boundary-Permits EffectState.satisfied_unattributed p = ground arith
  boundary-Permits EffectState.unprovable p = ground arith

  pub boundary-IsSafe :
      (active : Evidence Json) (s : EffectState)
      → IsSafe spec active s d
      → IsSafe spec active s (apply_dispatch_boundary_floor d facts)
  unfolding apply_dispatch_boundary_floor
  boundary-IsSafe active s v = record {
    permitted = boundary-Permits s v.permitted;
    not_transport_only = λ e. ground (arith, v.not_transport_only e);
    compensable = λ e. ground (arith, v.compensable e);
    retry_consistent = ground (arith, v.retry_consistent);
    continue_consistent = ground (arith, v.continue_consistent);
    no_stale_check = λ n. ground (arith, v.no_stale_check n);
  }
