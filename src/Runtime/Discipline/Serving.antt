-- ===== src/Runtime/Discipline/Serving.antt =====
-- Commits, and any sequence of requests.
use nyst.Base.{
  String, Bool, false, Option, none, some, List, [], ◌∷◌, ◌≡◌, inl, inr, is_some, Bool-cases,
  Option-cases,
}
use nyst.Model.Action.{ActionRecord, ActionContext}
use nyst.Model.Spec.{EffectSpec}
use nyst.Store.{Store}
use nyst.Store.Actions.{NewActionIntent}
use nyst.Store.Trace.{did_record}
use nyst.Runtime.Exec.Preserves.{Preserves, Preserves-bind, Preserves-rescue, Preserves-pure}
use nyst.Runtime.Host.{Host, World, Call, elapse}
use nyst.Runtime.Operations.Commit.{
  ContinuationGuard, choose_spec, record_new, make_intent, continuation_of, check_stale,
  dispatch_first, commit,
}
use nyst.Runtime.Operations.Serve.{Request, handle, serve}
use nyst.Runtime.Discipline.{Stable, landed_keeps, host_rules}
use nyst.Runtime.Discipline.Parts.{ensure_dispatch_plan-Preserves}
use nyst.Runtime.Discipline.Reconciling.{
  initialize-Preserves, reconcile-Preserves, current-Preserves, require_runtime-Preserves,
  authorize-Preserves,
}
use nyst.Runtime.Discipline.Requests.{
  dispatch-Preserves, recover-Preserves, retry-Preserves, compensate-Preserves,
}
use nyst.Runtime.Discipline.Spending.{Spending, Held, Held-Stable}

module _ {Json : Type 0} (h : Host Json) {P : World Json → Type 0} (stable : Stable h P) where
  pub choose_spec-Preserves :
      (effect : String) (prior : Option (ActionRecord Json))
      → Preserves P (choose_spec h effect prior)
  unfolding choose_spec
  choose_spec-Preserves effect none = search host_rules
  choose_spec-Preserves effect (some prior) = search host_rules

  free_id :
      (v : World Json) (id : String) → is_some (v.store.by_id id) ≡ false → v.store.by_id id ≡ none
  free_id v id e = elim (Option-cases (v.store.by_id id)) [
    | inl missing ↦ missing
    | inr (a, found) ↦ absurd (cc (rw (found, is_some) at e))
  ]

  pub record_new-Preserves : (i : NewActionIntent Json) → Preserves P (record_new h i)
  unfolding record_new
  record_new-Preserves i = record {
    after = λ w p.
        let v : World Json = elapse h w in
        let q : P v = stable.waited w p in
        elim (Bool-cases (is_some (v.store.by_id (h.new_id v.tick)))) [
          | inl taken ↦ rw taken q
          | inr free ↦ rw free (
              landed_keeps h stable v _
                (λ a t e. did_record h.action_schema _ i a (free_id v (h.new_id v.tick) free) e) q)
        ];
  }

  pub make_intent-Preserves :
      (effect key : String) (input : Json) (c : ActionContext) (spec : EffectSpec Json)
      → Preserves P (make_intent h effect key input c spec)
  unfolding make_intent
  make_intent-Preserves effect key input c spec = search host_rules depth 9

  pub continuation_of-Preserves : (g : Option ContinuationGuard) → Preserves P (continuation_of h g)
  unfolding continuation_of
  continuation_of-Preserves none = search host_rules
  continuation_of-Preserves (some g) = search (host_rules, current-Preserves) depth 9

  pub check_stale-Preserves : (id : String) (a b : Bool) → Preserves P (check_stale h id a b)
  unfolding check_stale
  check_stale-Preserves id a b = search host_rules depth 9

module _ {Json : Type 0} (h : Host Json) {P : List Call → Store Json → Type 0}
    (spending : Spending h P) (held : Stable h (Held P)) where
  dispatch_first-Preserves :
      (a : ActionRecord Json) (g : Option ContinuationGuard)
      → Preserves (Held P) (dispatch_first h a g)
  unfolding dispatch_first
  dispatch_first-Preserves a g =
      search (host_rules, continuation_of-Preserves, dispatch-Preserves, check_stale-Preserves)

  commit-Preserves :
      (effect key : String) (input : Json) (c : ActionContext) (g : Option ContinuationGuard)
      → Preserves (Held P) (commit h effect key input c g)
  unfolding commit
  commit-Preserves effect key input c g = Preserves-bind _ _ (search host_rules) λ prior.
      Preserves-bind _ _ (search (choose_spec-Preserves)) λ spec.
        Preserves-bind _ _ (search (make_intent-Preserves)) λ i.
          Preserves-bind _ _ (search (record_new-Preserves)) λ r.
            Preserves-bind _ _ (initialize-Preserves h held r.action.action_id) λ u.
              search
                (
                  host_rules, ensure_dispatch_plan-Preserves, require_runtime-Preserves,
                  dispatch_first-Preserves, reconcile-Preserves,
                )
                depth 20

  handle-Preserves : (r : Request Json) → Preserves (Held P) (handle h r)
  unfolding handle
  handle-Preserves (Request.commits effect key input c g) = search (host_rules, commit-Preserves)
  handle-Preserves (Request.recovers id) = search (host_rules, recover-Preserves)
  handle-Preserves (Request.reconciles id) = search (host_rules, reconcile-Preserves)
  handle-Preserves (Request.compensates id) = search (host_rules, compensate-Preserves)
  handle-Preserves (Request.retries id r) = search (host_rules, retry-Preserves)
  handle-Preserves (Request.continues id r) = search (host_rules, authorize-Preserves)

  serve_steps : (rs : List (Request Json)) → Preserves (Held P) (serve h rs)
  unfolding serve
  serve_steps [] = Preserves-pure tt
  serve_steps (r ∷ rs) =
      Preserves-bind _ _ (Preserves-rescue _ _ (handle-Preserves r) (λ e. Preserves-pure tt))
        (λ u. serve_steps rs)

pub serve-Preserves :
    {Json : Type 0} (h : Host Json) {P : List Call → Store Json → Type 0} (spending : Spending h P)
    (rs : List (Request Json))
    → Preserves (Held P) (serve h rs)
serve-Preserves h spending rs = serve_steps h spending (Held-Stable h spending) rs
