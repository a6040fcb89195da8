-- ===== src/Resolver.antt =====
-- `createEngine` of src/engine/resolver.ts: an action without a runtime, resolved from its evidence.
-- Its methods run in the world of Runtime.Host, where they call no provider.
pub mod Safe
mod Tests
use nyst.Base.{ℕ, String, Bool, true, false, Option, none, some, ok, ◌==◌, string_eq, if◌then◌else◌}
use nyst.Model.EffectState.{EffectState, is_terminal}
use nyst.Model.Internal.{InternalState, internal_state_eq}
use nyst.Model.Evidence.{ClockAttestation}
use nyst.Model.Action.{ActionRecord, ActionContext}
use nyst.Model.Resolution.{OutcomeResolution, ResolutionBasis}
use nyst.Model.Spec.{EffectSpec}
use nyst.Engine.Floors.{FloorResult, apply_safety_floors}
use nyst.Store.{Store, malformed_record}
use nyst.Store.Actions.{Recorded, prepare, transition}
use nyst.Store.Evidence.{list_for_action}
use nyst.Runtime.Exec.{Failure, Exec, pure, or_fail, guard, ◌>>=◌, ◌>>◌}
use nyst.Runtime.Host.{Host, World, call, read, ask, require_action, ask_clock}
use nyst.Runtime.Derive.{save_result, unsigned_resolution, signed}
use nyst.Runtime.Operations.Commit.{record_new, make_intent}

module _ {Json : Type 0} (h : Host Json) where
  -- `beginAction`
  unfoldable pub begin_action :
      EffectSpec Json → String → Json → ActionContext → Exec (World Json) (Recorded Json)
  begin_action spec key input context =
      make_intent h spec.effect_name key input context spec >>= record_new h

  -- `markDispatched`
  unfoldable pub mark_dispatched :
      EffectSpec Json → ActionRecord Json → Exec (World Json) (ActionRecord Json)
  mark_dispatched spec action = do
    a ← call h (λ n s. prepare h.plan_schema action.action_id (spec.prepare_dispatch action) s)
    b ← call h (λ n s. transition a.action_id InternalState.prepared InternalState.dispatching s)
    call h (λ n s. transition b.action_id InternalState.dispatching InternalState.observing s)

  -- An action is resolved from `observing`, or from a resolution that was broken off.
  unfoldable pub enter_reconciling :
      ActionRecord Json → String → Exec (World Json) (ActionRecord Json)
  enter_reconciling action id =
      if action.internal_state == InternalState.observing
      then call h (λ n s. transition id InternalState.observing InternalState.reconciling s)
      else (do
        guard (action.internal_state == InternalState.reconciling) Failure.unresolvable_state
        pure action)

  unfoldable pub unsigned_receipt :
      ActionRecord Json
      → EffectSpec Json
      → FloorResult
      → String
      → ClockAttestation
      → OutcomeResolution
  unfolding unsigned_resolution
  unsigned_receipt action spec floored id now =
      let basis : ResolutionBasis = record { resolution_sequence = 0; evidence_sequence = 0 } in
      record (unsigned_resolution h action spec floored floored.decision basis id now) {
        basis = none;
      }

  -- The receipt is signed and saved, and the action leaves `reconciling`.
  unfoldable pub issue : String → OutcomeResolution → Exec (World Json) OutcomeResolution
  unfolding signed
  issue id unsigned = do
    guard (h.resolution_schema (signed h unsigned)) (Failure.stored malformed_record)
    call h (λ n s. save_result h.resolution_schema (signed h unsigned) s)
    call h (λ n s.
        transition id InternalState.reconciling
          (if is_terminal unsigned.state then InternalState.resolved else InternalState.observing)
          s)
    pure (signed h unsigned)

  -- `resolve`
  unfoldable pub resolve : EffectSpec Json → String → Exec (World Json) OutcomeResolution
  unfolding enter_reconciling unsigned_receipt issue
  resolve spec id = do
    action ← require_action h id
    guard (action.effect_name == spec.effect_name) Failure.spec_mismatch
    current ← enter_reconciling action id
    evidence ← read h (λ s. list_for_action id s)
    floored ← or_fail Failure.no_convergence (
        apply_safety_floors spec (spec.assess current evidence)
          (spec.decide current (spec.assess current evidence)) evidence)
    now ← ask_clock h
    receipt_id ← ask h (λ n. ok (h.new_id n))
    issue id (unsigned_receipt current spec floored receipt_id now)
