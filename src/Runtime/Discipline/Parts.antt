-- ===== src/Runtime/Discipline/Parts.antt =====
-- The parts of the requests of src/runtime/nystRuntime.ts that send nothing to a provider: each
-- keeps what waiting and the steps of the store keep.
use nyst.Base.{
  ℕ, zero, suc, String, Option, List, [], ◌∷◌, ◌≡◌, ◌∙◌, ap, ok, ok-injective, Result-cases, inl,
  inr,
}
use nyst.Model.EffectState.{EffectState}
use nyst.Model.Internal.{InternalState}
use nyst.Model.Evidence.{NewEvidence}
use nyst.Model.Action.{ActionRecord, DispatchPlan}
use nyst.Model.Resolution.{OutcomeResolution, DispatchStatus}
use nyst.Model.Spec.{EffectSpec}
use nyst.Engine.Ledger.{Evidence}
use nyst.Engine.Floors.{FloorResult}
use nyst.Store.{Store, StoreError}
use nyst.Store.Actions.{transition, prepare}
use nyst.Store.Resolutions.{save}
use nyst.Store.Runtime.{set_dispatch_status, next_resolution_sequence}
use nyst.Store.Trace.{did_transition, did_prepare, did_append, did_save, did_set, did_resolve}
use nyst.Runtime.Exec.{Failure}
use nyst.Runtime.Exec.Preserves.{Preserves, Preserves-bind}
use nyst.Runtime.Host.{Host, World, DispatchResult, call}
use nyst.Runtime.Evidence.{store_evidence, append_all, append_evidence}
use nyst.Runtime.Lifecycle.{
  advance, tolerate, enter_dispatching, ignore_stale, normalize, normalize_lifecycle,
}
use nyst.Runtime.Dispatch.{
  use_winner, make_plan, ensure_dispatch_plan, record_answer, record_failure,
}
use nyst.Runtime.Derive.{save_result, persist, conclude, derive_and_persist}
use nyst.Runtime.Discipline.{Stable, call-Preserves, host_rules}

module _ {Json : Type 0} (h : Host Json) {P : World Json → Type 0} (stable : Stable h P) where
  transition-Preserves :
      (id : String) (from to : InternalState)
      → Preserves P (call h (λ n s. transition id from to s))
  transition-Preserves id from to =
      call-Preserves h stable _ (λ n s a t e. did_transition id from to a e)

  prepare-Preserves :
      (id : String) (plan : DispatchPlan Json)
      → Preserves P (call h (λ n s. prepare h.plan_schema id plan s))
  prepare-Preserves id plan =
      call-Preserves h stable _ (λ n s a t e. did_prepare h.plan_schema id plan a e)

  not_sent-Preserves :
      (id : String)
      → Preserves P (
          call h (λ n s.
            set_dispatch_status id DispatchStatus.attempted DispatchStatus.definitely_not_sent s))
  not_sent-Preserves id = call-Preserves h stable _ (λ n s a t e. did_set id _ _ a (λ q. cc) e)

  sequence-Preserves :
      (id : String) (state : EffectState) (check : Option String)
      → Preserves P (call h (λ n s. next_resolution_sequence id state check s))
  sequence-Preserves id state check =
      call-Preserves h stable _ (λ n s a t e. did_resolve id state check a e)

  save_ok :
      (r : OutcomeResolution) (s t : Store Json) (a : Unit {0})
      → save_result h.resolution_schema r s ≡ ok (a, t)
      → save h.resolution_schema r s ≡ ok t
  unfolding save_result
  save_ok r s t a e = elim (Result-cases (save h.resolution_schema r s)) [
    | inl (u, saved) ↦
        saved
        ∙ ap ok (
            ap (λ (q : Unit {0} × Store Json). q.1)
              (ok-injective {E = StoreError} (rw (saved, save_result) at e)))
    | inr (x, failed) ↦ absurd (cc (rw (failed, save_result) at e))
  ]

  save-Preserves :
      (r : OutcomeResolution) → Preserves P (call h (λ n s. save_result h.resolution_schema r s))
  save-Preserves r =
      call-Preserves h stable _ (λ n s a t e. did_save h.resolution_schema r (save_ok r s t a e))

  pub store_evidence-Preserves : (ev : NewEvidence Json) → Preserves P (store_evidence h ev)
  unfolding store_evidence
  store_evidence-Preserves ev =
      call-Preserves h stable _ (λ n s a t e. did_append h.evidence_schema _ ev a e)

  append_all-Preserves :
      (a : ActionRecord Json) (evs : List (NewEvidence Json)) → Preserves P (append_all h a evs)
  unfolding append_all
  append_all-Preserves a [] = search host_rules
  append_all-Preserves a (ev ∷ evs) =
      let rest = append_all-Preserves a evs in
      Preserves-bind _ _ (search host_rules) (λ u. search (host_rules, store_evidence-Preserves))

  pub append_evidence-Preserves :
      (a : ActionRecord Json) (evs : List (NewEvidence Json))
      → Preserves P (append_evidence h a evs)
  unfolding append_evidence
  append_evidence-Preserves a [] = search host_rules
  append_evidence-Preserves a (ev ∷ evs) = search (host_rules, append_all-Preserves)

  pub advance-Preserves :
      (id : String) (from to : InternalState) → Preserves P (advance h id from to)
  unfolding advance
  advance-Preserves id from to = search (host_rules, transition-Preserves)

  tolerate-Preserves : (id : String) (e : Failure) → Preserves P (tolerate h id e)
  unfolding tolerate
  tolerate-Preserves id e = search host_rules

  pub enter_dispatching-Preserves : (id : String) → Preserves P (enter_dispatching h id)
  unfolding enter_dispatching
  enter_dispatching-Preserves id = search (host_rules, advance-Preserves, tolerate-Preserves)

  ignore_stale-Preserves : (e : Failure) → Preserves P (ignore_stale h e)
  unfolding ignore_stale
  ignore_stale-Preserves e = search host_rules

  normalize-Preserves : (n : ℕ) (id : String) → Preserves P (normalize h n id)
  unfolding normalize
  normalize-Preserves zero id = search host_rules
  normalize-Preserves (suc n) id =
      let rest = normalize-Preserves n id in
      Preserves-bind _ _ (search host_rules)
        λ a. search (host_rules, advance-Preserves, ignore_stale-Preserves)

  pub normalize_lifecycle-Preserves : (id : String) → Preserves P (normalize_lifecycle h id)
  unfolding normalize_lifecycle
  normalize_lifecycle-Preserves id = search (normalize-Preserves)

  use_winner-Preserves :
      (id : String) (plan : DispatchPlan Json) (e : Failure) → Preserves P (use_winner h id plan e)
  unfolding use_winner
  use_winner-Preserves id plan e = search host_rules

  make_plan-Preserves :
      (a : ActionRecord Json) (spec : EffectSpec Json) → Preserves P (make_plan h a spec)
  unfolding make_plan
  make_plan-Preserves a spec =
      Preserves-bind _ _ (search host_rules)
        λ u. search (host_rules, prepare-Preserves, use_winner-Preserves)

  pub ensure_dispatch_plan-Preserves :
      (a : ActionRecord Json) (spec : EffectSpec Json) → Preserves P (ensure_dispatch_plan h a spec)
  unfolding ensure_dispatch_plan
  ensure_dispatch_plan-Preserves a spec = search (host_rules, make_plan-Preserves)

  pub record_answer-Preserves :
      (a : ActionRecord Json) (r : DispatchResult Json) → Preserves P (record_answer h a r)
  unfolding record_answer
  record_answer-Preserves a r =
      search (host_rules, append_evidence-Preserves, store_evidence-Preserves, not_sent-Preserves)
        depth 12

  pub record_failure-Preserves :
      (a : ActionRecord Json) (e : Failure) → Preserves P (record_failure h a e)
  unfolding record_failure
  record_failure-Preserves a e = search (host_rules, store_evidence-Preserves)

  persist-Preserves : (a : ActionRecord Json) (r : OutcomeResolution) → Preserves P (persist h a r)
  unfolding persist
  persist-Preserves a r =
      Preserves-bind _ _ (search host_rules) (λ u. search (host_rules, save-Preserves) depth 12)

  conclude-Preserves :
      (a : ActionRecord Json) (spec : EffectSpec Json) (evidence : Evidence Json) (f : FloorResult)
      → Preserves P (conclude h a spec evidence f)
  unfolding conclude
  conclude-Preserves a spec evidence f =
      search (host_rules, persist-Preserves, sequence-Preserves) depth 12

  pub derive_and_persist-Preserves :
      (a : ActionRecord Json) (spec : EffectSpec Json) → Preserves P (derive_and_persist h a spec)
  unfolding derive_and_persist
  derive_and_persist-Preserves a spec = search (host_rules, conclude-Preserves)
