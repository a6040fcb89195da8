-- ===== src/Runtime/Authorized/Dependent.antt =====
-- What the commit of a dependent action rests on when it sends.
use nyst.Base.{String, Bool, true, Option, none, some, [], ◌∷◌, ◌≡◌, refl, ◌⊎◌, inl, inr, ==_iff}
use nyst.Model.Control.{ContinuationDisposition, continuation_eq}
use nyst.Model.Action.{ActionRecord, ActionContext}
use nyst.Model.Resolution.{OutcomeResolution, ResolutionBasis, DispatchStatus}
use nyst.Store.{Store}
use nyst.Store.Resolutions.{latest}
use nyst.Store.Runtime.{DispatchGuard}
use nyst.Store.Trace.{Steps, start}
use nyst.Runtime.Exec.{Exec, ◌>>=◌}
use nyst.Runtime.Exec.Preserves.{Preserves, Preserves-pure}
use nyst.Runtime.Host.{Host, World, elapse}
use nyst.Runtime.Host.Ends.{or_fail-ends, guard-ends, assoc-ends, pure-ends}
use nyst.Runtime.Dispatch.{dispatch}
use nyst.Runtime.Operations.Commit.{ContinuationGuard, continuation_of, dispatch_first, commit}
use nyst.Runtime.Discipline.{host_rules}
use nyst.Runtime.Discipline.Parts.{ensure_dispatch_plan-Preserves}
use nyst.Runtime.Discipline.Reconciling.{
  initialize-Preserves, reconcile-Preserves, require_runtime-Preserves,
}
use nyst.Runtime.Discipline.Serving.{
  choose_spec-Preserves, record_new-Preserves, make_intent-Preserves, check_stale-Preserves,
}
use nyst.Runtime.Discipline.Spending.{Leads, Leads-bind, Leads-then}
use nyst.Runtime.Budget.Once.{Peaceful}
use nyst.Runtime.Granted.{
  Claimed, Quiet, Quiet-Stable, QuietOrPaid, QuietOrPaid-Stable, dispatch-Paid,
}
use nyst.Runtime.Authorized.{current-ends, Leads-if, Leads-of}

pub record DependentCase (Json : Type 0) : Type 0 where
  pub action : ActionRecord Json
  pub at : Store Json
  pub source : OutcomeResolution
  pub basis : ResolutionBasis

abbrev pub dependent : {Json : Type 0} → DependentCase Json → ActionRecord Json
dependent i = i.action

-- The source's resolution is still the one that was read, on the same basis.
abbrev pub source_guard : {Json : Type 0} → DependentCase Json → Option DispatchGuard
source_guard i = some (record {
  resolution_sequence = none;
  evidence_sequence = none;
  continuation = some (record {
    source_action = i.source.action_id;
    source_resolution = i.source.resolution_id;
    source_sequence = i.basis.resolution_sequence;
    source_evidence = i.basis.evidence_sequence;
  });
})

module _ {Json : Type 0} (h : Host Json) (g : ContinuationGuard) (w : World Json) where
  -- The source's resolution is current when it is read, is the named one, has a durable basis, and
  -- lets dependent actions go on.
  pub record LetsContinue (i : DependentCase Json) : Type 0 where
    pub reached : Steps h.text_lt h.hash w.store i.at
    pub current : latest h.text_lt g.source_action i.at ≡ some i.source
    pub named : i.source.resolution_id ≡ g.source_resolution
    pub based : i.source.basis ≡ some i.basis
    pub allowed : i.source.control.continuation ≡ ContinuationDisposition.allowed

module _ {Json : Type 0} (h : Host Json) (peaceful : Peaceful h) (g : ContinuationGuard)
    (w : World Json) where
  abbrev Sent : World Json → Type 0
  Sent =
      QuietOrPaid h peaceful w (DependentCase Json) (LetsContinue h g w) dependent
        (DispatchStatus.not_started ∷ []) source_guard

  -- The dispatch, with what follows it.
  tail-Leads :
      {B : Type 0} (i : DependentCase Json)
      → LetsContinue h g w i
      → (f : Bool → Exec (World Json) B) → ((b : Bool) → Preserves Sent (f b))
      → Leads
          (Quiet h peaceful w)
          Sent
          (dispatch h i.action (DispatchStatus.not_started ∷ []) (source_guard i) >>= f)
  tail-Leads i e f k =
      Leads-then _ f
        (dispatch-Paid h peaceful w (DependentCase Json) (LetsContinue h g w) dependent
          (DispatchStatus.not_started ∷ []) source_guard i e)
        k

  dispatch_first-Leads :
      (a : ActionRecord Json) → Leads (Quiet h peaceful w) Sent (dispatch_first h a (some g))
  unfolding dispatch_first continuation_of
  dispatch_first-Leads a = record {
    after = λ v q.
        let u : World Json = elapse h v in
        let q1 = (Quiet-Stable h peaceful w).waited v q in
        let stable =
          QuietOrPaid-Stable h peaceful w (DependentCase Json) (LetsContinue h g w) dependent
            (DispatchStatus.not_started ∷ []) source_guard in
        assoc-ends Sent _ _ _ v (
          current-ends h Sent g.source_action g.source_resolution _ v (inl q1) λ r found named.
            assoc-ends Sent _ _ _ u (
              or_fail-ends Sent _ _ _ u (inl q1) λ basis based. assoc-ends Sent _ _ _ u (
                guard-ends Sent _ _ _ u (inl q1) λ allowed. pure-ends Sent _ _ u (
                  (tail-Leads (record { action = a; at = u.store; source = r; basis = basis })
                      (record {
                        reached = q1.0;
                        current = found;
                        named = named;
                        based = based;
                        allowed = (==_iff _ ContinuationDisposition.allowed).0 allowed;
                      })
                      _ (λ done. check_stale-Preserves h stable a.action_id done true)).after
                    u q1))));
  }

  -- A first part that sends nothing.
  first-Leads :
      {A B : Type 0} (m : Exec (World Json) A) (f : A → Exec (World Json) B)
      → Preserves (Quiet h peaceful w) m
      → ((a : A) → Leads (Quiet h peaceful w) Sent (f a))
      → Leads (Quiet h peaceful w) Sent (m >>= f)
  first-Leads m f k l = Leads-bind m f k l (λ v q. inl q)

  commit-Leads :
      (effect key : String) (input : Json) (c : ActionContext)
      → Leads (Quiet h peaceful w) Sent (commit h effect key input c (some g))
  unfolding commit
  commit-Leads effect key input c =
      let quiet = Quiet-Stable h peaceful w in
      let stable =
        QuietOrPaid-Stable h peaceful w (DependentCase Json) (LetsContinue h g w) dependent
          (DispatchStatus.not_started ∷ []) source_guard in
      first-Leads _ _ (search host_rules) λ prior.
        first-Leads _ _ (choose_spec-Preserves h quiet effect prior) λ spec.
          first-Leads _ _ (make_intent-Preserves h quiet effect key input c spec) λ i.
            first-Leads _ _ (record_new-Preserves h quiet i) λ r.
              first-Leads _ _ (initialize-Preserves h quiet r.action.action_id) λ u.
                first-Leads _ _ (search host_rules) λ u1. first-Leads _ _ (search host_rules) λ u2.
                  first-Leads _ _ (search host_rules) λ u3.
                    first-Leads _ _ (search host_rules) λ u4.
                      first-Leads _ _ (search host_rules) λ u5.
                        first-Leads _ _ (ensure_dispatch_plan-Preserves h quiet r.action spec) λ a.
                          first-Leads _ _ (require_runtime-Preserves h quiet a.action_id) λ state.
                            Leads-then _ _
                              (Leads-if _ _ _ (dispatch_first-Leads a)
                                (Leads-of _ (Preserves-pure tt) (λ v q. inl q)))
                              (λ u. search (host_rules, reconcile-Preserves))

  -- While all others change the store by its operations only: the commit of an action that depends
  -- on another sends it to its provider only on a resolution of the other that was its current one
  -- when it was read in a store of the run, that is the named one, has a durable basis and allows
  -- continuation; and only after a claim that was granted in a store of the run where the newest
  -- resolution of the other had still that id and allowed continuation, and the other had the
  -- resolution and evidence sequence numbers of that basis. Otherwise nothing is sent.
  pub dependent-IsAuthorized :
      (effect key : String) (input : Json) (c : ActionContext)
      → let v = (commit h effect key input c (some g) w).1 in
        (v.calls ≡ w.calls)
        ⊎ ((i : DependentCase Json) × LetsContinue h g w i
            × Claimed h w.store i.action.action_id
                (DispatchStatus.not_started ∷ [])
                (source_guard i)
                v.store)
  dependent-IsAuthorized effect key input c =
      elim ((commit-Leads effect key input c).after w (start, refl)) [
        | inl q ↦ inl q.1
        | inr paid ↦ inr paid
      ]
