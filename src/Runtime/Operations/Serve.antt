-- ===== src/Runtime/Operations/Serve.antt =====
-- The requests that a runtime of src/runtime/nystRuntime.ts serves one after another. A request that
-- fails, or that crashes the process, leaves the store as it is at that moment, and the next one goes
-- on from there.
use nyst.Base.{String, Option, List, [], ◌∷◌}
use nyst.Model.Action.{ActionContext}
use nyst.Runtime.Exec.{Exec, pure, rescue, ◌>>◌}
use nyst.Runtime.Host.{Host, World}
use nyst.Runtime.Operations.{reconcile, recover, retry, compensate, authorize_continuation}
use nyst.Runtime.Operations.Commit.{ContinuationGuard, commit}

pub data Request (Json : Type 0) : Type 0 where
  commits : String → String → Json → ActionContext → Option ContinuationGuard → Request Json
  recovers reconciles compensates : String → Request Json
  retries continues : String → String → Request Json

module _ {Json : Type 0} (h : Host Json) where
  unfoldable pub handle : Request Json → Exec (World Json) Unit
  handle (Request.commits effect key input context dependency) = do
    commit h effect key input context dependency
    pure tt
  handle (Request.recovers id) = do recover h id; pure tt
  handle (Request.reconciles id) = do reconcile h id; pure tt
  handle (Request.compensates id) = do compensate h id; pure tt
  handle (Request.retries id resolution) = do retry h id resolution; pure tt
  handle (Request.continues id resolution) = authorize_continuation h id resolution

  unfoldable pub serve : List (Request Json) → Exec (World Json) Unit
  unfolding handle
  serve [] = pure tt
  serve (r ∷ rs) = rescue (handle r) (λ e. pure tt) >> serve rs
