-- ===== src/Runtime/Discipline/Reconciling.antt =====
-- The rest of what the requests of src/runtime/nystRuntime.ts do without sending anything: they claim
-- nothing, so that they only take steps of the store.
use nyst.Base.{String, Option, none, some}
use nyst.Model.Action.{ActionRecord, DispatchPlan}
use nyst.Model.Resolution.{ResolutionBasis, DispatchStatus}
use nyst.Model.Spec.{EffectSpec}
use nyst.Store.Runtime.{initialize, finish_dispatch, finish_compensation}
use nyst.Store.Trace.{did_initialize, did_finish, did_finish_compensation}
use nyst.Runtime.Exec.Preserves.{Preserves}
use nyst.Runtime.Host.{Host, World, call}
use nyst.Runtime.Operations.{
  observe, reconcile, require_current_resolution, require_runtime, reclaim, explain_refusal,
  require_safe_boundary, authorize_continuation,
}
use nyst.Runtime.Discipline.{Stable, call-Preserves, host_rules}
use nyst.Runtime.Discipline.Parts.{
  store_evidence-Preserves, append_evidence-Preserves, normalize_lifecycle-Preserves,
  record_failure-Preserves, derive_and_persist-Preserves,
}

module _ {Json : Type 0} (h : Host Json) {P : World Json → Type 0} (stable : Stable h P) where
  pub initialize-Preserves : (id : String) → Preserves P (call h (λ n s. initialize id s))
  initialize-Preserves id = call-Preserves h stable _ (λ n s a t e. did_initialize id a e)

  pub attempted-Preserves :
      (id token : String)
      → Preserves P (call h (λ n s. finish_dispatch id token DispatchStatus.attempted s))
  attempted-Preserves id token =
      call-Preserves h stable _ (λ n s a t e. did_finish id token _ a (λ q. cc) e)

  pub reclaimed-Preserves :
      (id token : String)
      → Preserves P (call h (λ n s. finish_dispatch id token DispatchStatus.definitely_not_sent s))
  reclaimed-Preserves id token =
      call-Preserves h stable _ (λ n s a t e. did_finish id token _ a (λ q. cc) e)

  pub finish_compensation-Preserves :
      (id token : String) → Preserves P (call h (λ n s. finish_compensation id token s))
  finish_compensation-Preserves id token =
      call-Preserves h stable _ (λ n s a t e. did_finish_compensation id token a e)

  pub observe-Preserves :
      (a : ActionRecord Json) (plan : DispatchPlan Json) → Preserves P (observe h a plan)
  unfolding observe
  observe-Preserves a plan = search (host_rules, append_evidence-Preserves)

  pub reconcile-Preserves : (id : String) → Preserves P (reconcile h id)
  unfolding reconcile
  reconcile-Preserves id =
      search
        (
          host_rules, normalize_lifecycle-Preserves, observe-Preserves, record_failure-Preserves,
          derive_and_persist-Preserves,
        )
        depth 16

  pub current-Preserves : (id r : String) → Preserves P (require_current_resolution h id r)
  unfolding require_current_resolution
  current-Preserves id r = search host_rules depth 9

  pub require_runtime-Preserves : (id : String) → Preserves P (require_runtime h id)
  unfolding require_runtime
  require_runtime-Preserves id = search host_rules

  pub reclaim-Preserves :
      (id : String) (a : ActionRecord Json) (token : Option String)
      → Preserves P (reclaim h id a token)
  unfolding reclaim
  reclaim-Preserves id a none = search host_rules
  reclaim-Preserves id a (some token) =
      search (host_rules, reclaimed-Preserves, store_evidence-Preserves) depth 12

  pub explain-Preserves :
      (id : String) (basis : ResolutionBasis) → Preserves P (explain_refusal h id basis)
  unfolding explain_refusal
  explain-Preserves id basis = search host_rules depth 9

  pub safe_boundary-Preserves :
      (id : String) (spec : EffectSpec Json) → Preserves P (require_safe_boundary h id spec)
  unfolding require_safe_boundary
  safe_boundary-Preserves id spec = search host_rules depth 9

  pub authorize-Preserves : (id r : String) → Preserves P (authorize_continuation h id r)
  unfolding authorize_continuation
  authorize-Preserves id r = search (host_rules, current-Preserves) depth 9
