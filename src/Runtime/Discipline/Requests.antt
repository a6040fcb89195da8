-- ===== src/Runtime/Discipline/Requests.antt =====
-- The requests of src/runtime/nystRuntime.ts: what a granted claim pays for is sent at most once,
-- and all else takes steps of the store.
use nyst.Base.{String, true, false, Option, none, some, List, ◌≡◌, ok}
use nyst.Model.Action.{ActionRecord, DispatchPlan}
use nyst.Model.Resolution.{OutcomeResolution, ResolutionBasis, DispatchStatus, RuntimeState}
use nyst.Model.Spec.{EffectSpec}
use nyst.Store.{Store}
use nyst.Store.Runtime.{DispatchGuard, DispatchClaim, claim_dispatch, claim_compensation}
use nyst.Store.Trace.{did_claim, did_claim_compensation}
use nyst.Runtime.Exec.{Failure}
use nyst.Runtime.Exec.Preserves.{Preserves, Preserves-bind, Preserves-pure, Preserves-raise}
use nyst.Runtime.Host.{Host, World, Call, dispatched, compensated}
use nyst.Runtime.Dispatch.{owned_token, send_request, dispatch_claimed, after_claim, dispatch}
use nyst.Runtime.Operations.{
  resume_dispatch, recover, redispatch, retry_current, retry, compensate_claimed, compensate,
}
use nyst.Runtime.Discipline.{
  Stable, hit-Preserves, require_provider-Preserves, await_owner-Preserves, host_rules,
}
use nyst.Runtime.Discipline.Parts.{
  append_evidence-Preserves, enter_dispatching-Preserves, normalize_lifecycle-Preserves,
  ensure_dispatch_plan-Preserves, record_answer-Preserves, record_failure-Preserves,
  derive_and_persist-Preserves,
}
use nyst.Runtime.Discipline.Spending.{
  Spending, Leads, Leads-bind, Leads-then, Leads-rescue, Held, Owed, Due, Held-Stable, Owed-Stable,
  send-Leads, answer-Due, claim-bind,
}
use nyst.Runtime.Discipline.Reconciling.{
  initialize-Preserves, attempted-Preserves, finish_compensation-Preserves, observe-Preserves,
  reconcile-Preserves, current-Preserves, require_runtime-Preserves, reclaim-Preserves,
  explain-Preserves, safe_boundary-Preserves,
}

module _ {Json : Type 0} (h : Host Json) {P : List Call → Store Json → Type 0}
    (spending : Spending h P) where
  send_request-Leads :
      (a : ActionRecord Json) (plan : DispatchPlan Json)
      → Leads (Owed P (dispatched a.action_id)) (Held P) (send_request h a plan)
  unfolding send_request
  send_request-Leads a plan =
      let held = Held-Stable h spending in
      Leads-rescue _ _
        (Leads-then _ _ (send-Leads h spending _ _) (record_answer-Preserves h held a))
        (record_failure-Preserves h held a)

  dispatch_claimed-Leads :
      (a : ActionRecord Json) (token : String)
      → Leads (Owed P (dispatched a.action_id)) (Held P) (dispatch_claimed h a token)
  unfolding dispatch_claimed
  dispatch_claimed-Leads a token =
      let owed = Owed-Stable h spending (dispatched a.action_id) in
      let due = spending.forgot (dispatched a.action_id) in
      let drop = λ (w : World Json). due w.calls w.store in
      Leads-bind _ _ (search host_rules)
        (λ plan.
          Leads-bind _ _ (require_provider-Preserves h owed a.effect_name)
            (λ u.
              Leads-bind _ _ (hit-Preserves h owed _ a)
                (λ u.
                  Leads-bind _ _ (attempted-Preserves h owed a.action_id token)
                    (λ r.
                      Leads-bind _ _ (enter_dispatching-Preserves h owed a.action_id)
                        (λ u. Leads-then _ _ (send_request-Leads a plan) (λ u.
                          normalize_lifecycle-Preserves h (Held-Stable h spending) a.action_id))
                        drop)
                    drop)
                drop)
            drop)
        drop

  pub after_claim-Leads :
      (a : ActionRecord Json) (token : Option String)
      → Leads (Due P (dispatched a.action_id) token) (Held P) (after_claim h a token)
  unfolding after_claim
  after_claim-Leads a none = record {
    after =
        (Preserves-bind _ _ (await_owner-Preserves h (Held-Stable h spending) a.action_id)
          (λ b. Preserves-pure false)).after;
  }
  after_claim-Leads a (some token) =
      Leads-then _ _ (dispatch_claimed-Leads a token) (λ u. Preserves-pure true)

  dispatch_granted :
      (a : ActionRecord Json) (allowed : List DispatchStatus) (g : Option DispatchGuard)
      (w : World Json) (claim : DispatchClaim) (t : Store Json)
      → claim_dispatch h.text_lt (h.new_id w.tick) a.action_id allowed g w.store ≡ ok (claim, t)
      → Held P w
      → Due P (dispatched a.action_id) (owned_token claim) (record w { store = t })
  dispatch_granted a allowed g w claim t e p =
      answer-Due h spending (dispatched a.action_id) claim (record w { store = t })
        (λ c. spending.dispatch_granted _ _ allowed g claim w.calls w.store t e c p)
        (spending.stepped w.calls w.store t (did_claim _ _ allowed g claim e) p)

  pub dispatch-Preserves :
      (a : ActionRecord Json) (allowed : List DispatchStatus) (g : Option DispatchGuard)
      → Preserves (Held P) (dispatch h a allowed g)
  unfolding dispatch
  dispatch-Preserves a allowed g =
      let held = Held-Stable h spending in
      Preserves-bind _ _ (search host_rules) λ u. Preserves-bind _ _ (hit-Preserves h held _ a) λ u.
        claim-bind h spending (dispatched a.action_id) _ _ (dispatch_granted a allowed g)
          λ c. after_claim-Leads a (owned_token c)

  resume_dispatch-Preserves :
      (held : Stable h (Held P)) (id : String) (a : ActionRecord Json) (state : RuntimeState)
      → Preserves (Held P) (resume_dispatch h id a state)
  unfolding resume_dispatch
  resume_dispatch-Preserves held id a state =
      search (host_rules, dispatch-Preserves, reclaim-Preserves) depth 9

  pub recover-Preserves :
      (held : Stable h (Held P)) (id : String) → Preserves (Held P) (recover h id)
  unfolding recover
  recover-Preserves held id = Preserves-bind _ _ (search host_rules) λ a.
      Preserves-bind _ _ (search host_rules) λ spec. Preserves-bind _ _ (search host_rules) λ u.
        Preserves-bind _ _ (initialize-Preserves h held id) λ r.
          Preserves-bind _ _ (search (host_rules, ensure_dispatch_plan-Preserves)) λ b.
            Preserves-bind _ _ (search (host_rules, require_runtime-Preserves)) λ c.
              Preserves-bind _ _ (search (host_rules, resume_dispatch-Preserves))
                λ d. search (host_rules, normalize_lifecycle-Preserves, reconcile-Preserves)

  redispatch-Preserves :
      (held : Stable h (Held P)) (id : String) (a : ActionRecord Json) (spec : EffectSpec Json)
      (r : OutcomeResolution) (basis : ResolutionBasis)
      → Preserves (Held P) (redispatch h id a spec r basis)
  unfolding redispatch
  redispatch-Preserves held id a spec r basis =
      search
        (
          host_rules, safe_boundary-Preserves, dispatch-Preserves, reconcile-Preserves,
          explain-Preserves,
        )
        depth 12

  retry_current-Preserves :
      (held : Stable h (Held P)) (id : String) (a : ActionRecord Json) (spec : EffectSpec Json)
      (r : OutcomeResolution)
      → Preserves (Held P) (retry_current h id a spec r)
  unfolding retry_current
  retry_current-Preserves held id a spec r =
      search (host_rules, observe-Preserves, redispatch-Preserves, derive_and_persist-Preserves)
        depth 16

  pub retry-Preserves :
      (held : Stable h (Held P)) (id r : String) → Preserves (Held P) (retry h id r)
  unfolding retry
  retry-Preserves held id r =
      search (host_rules, current-Preserves, retry_current-Preserves) depth 12

  settle_compensation-Leads :
      (held : Stable h (Held P)) (id : String) (a : ActionRecord Json) (plan : DispatchPlan Json)
      (token : Option String)
      → Leads (Due P (compensated id) token) (Held P) (compensate_claimed h id a plan token)
  unfolding compensate_claimed
  settle_compensation-Leads held id a plan none = record {
    after = (Preserves-raise Failure.compensation_taken).after;
  }
  settle_compensation-Leads held id a plan (some token) =
      Leads-then _ _ (send-Leads h spending _ _) λ evidence.
        Preserves-bind _ _ (append_evidence-Preserves h held a evidence) λ u.
          Preserves-bind _ _ (finish_compensation-Preserves h held id token)
            λ r. reconcile-Preserves h held id

  compensation_granted :
      (id : String) (w : World Json) (claim : DispatchClaim) (t : Store Json)
      → claim_compensation (h.new_id w.tick) id w.store ≡ ok (claim, t)
      → Held P w
      → Due P (compensated id) (owned_token claim) (record w { store = t })
  compensation_granted id w claim t e p =
      answer-Due h spending (compensated id) claim (record w { store = t })
        (λ c. spending.compensation_granted _ _ claim w.calls w.store t e c p)
        (spending.stepped w.calls w.store t (did_claim_compensation _ _ claim e) p)

  pub compensate-Preserves :
      (held : Stable h (Held P)) (id : String) → Preserves (Held P) (compensate h id)
  unfolding compensate
  compensate-Preserves held id = Preserves-bind _ _ (search host_rules) λ a.
      Preserves-bind _ _ (search host_rules) λ u. Preserves-bind _ _ (search host_rules) λ spec.
        Preserves-bind _ _ (search host_rules) λ v. Preserves-bind _ _ (search host_rules) λ x.
          Preserves-bind _ _ (search host_rules) λ plan.
            claim-bind h spending (compensated id) _ _ (compensation_granted id)
              λ c. settle_compensation-Leads held id a plan (owned_token c)
