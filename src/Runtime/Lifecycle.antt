-- ===== src/Runtime/Lifecycle.antt =====
-- `enterDispatching` and `normalizeLifecycle` of src/runtime/nystRuntime.ts.
pub mod Converges
use nyst.Base.{ℕ, zero, suc, String, Bool, ◌||◌, Option, none, some, ◌==◌, if◌then◌else◌}
use nyst.Model.Internal.{InternalState, internal_state_eq}
use nyst.Model.Action.{ActionRecord}
use nyst.Store.Actions.{transition}
use nyst.Runtime.Exec.{Failure, Exec, pure, raise, rescue, is_stale, ◌>>=◌, ◌>>◌}
use nyst.Runtime.Host.{Host, World, call, require_action}

module _ {Json : Type 0} (h : Host Json) where
  unfoldable pub advance : String → InternalState → InternalState → Exec (World Json) Unit
  advance id from to = do call h (λ n s. transition id from to s); pure tt

  -- The `catch` of `enterDispatching`.
  unfoldable pub tolerate : String → Failure → Exec (World Json) Unit
  tolerate id e =
      if is_stale e
      then (do
        current ← require_action h id
        if (current.internal_state == InternalState.dispatching)
              || (current.internal_state == InternalState.observing)
            then pure tt
            else raise e)
      else raise e

  unfoldable pub enter_dispatching : String → Exec (World Json) Unit
  enter_dispatching id = do
    action ← require_action h id
    if action.internal_state == InternalState.prepared
        then rescue (advance id InternalState.prepared InternalState.dispatching) (tolerate id)
        else pure tt

  -- The `catch` of `normalizeLifecycle`.
  unfoldable pub ignore_stale : Failure → Exec (World Json) Unit
  ignore_stale e = if is_stale e then pure tt else raise e

  -- The loop, for the attempts that are left.
  unfoldable pub normalize : ℕ → String → Exec (World Json) Unit
  normalize zero id = raise Failure.no_convergence
  normalize (suc n) id =
      let again = normalize n id in
      do
        action ← require_action h id
        if action.internal_state == InternalState.prepared
            then rescue (advance id InternalState.prepared InternalState.dispatching) ignore_stale
              >> again
            else if action.internal_state == InternalState.dispatching
            then rescue (advance id InternalState.dispatching InternalState.observing) ignore_stale
              >> again
            else pure tt

  unfoldable pub normalize_lifecycle : String → Exec (World Json) Unit
  unfolding normalize
  normalize_lifecycle id = normalize 4 id
