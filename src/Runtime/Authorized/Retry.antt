-- ===== src/Runtime/Authorized/Retry.antt =====
-- What a retry rests on when it sends.
use nyst.Base.{
  String, true, Option, none, some, List, [], ◌∷◌, ◌≡◌, refl, ◌⊎◌, inl, inr, arith, ==_iff,
  option_eq, some-injective, Option-cases, eq_iff, ◌==◌,
}
use nyst.Model.EffectState.{EffectState}
use nyst.Model.Control.{RetryDisposition, PrimaryDirective}
use nyst.Model.Action.{ActionRecord}
use nyst.Model.Resolution.{
  OutcomeResolution, ResolutionBasis, DispatchStatus, RuntimeState, dispatch_status_eq,
}
use nyst.Model.Spec.{EffectSpec}
use nyst.Engine.Floors.Boundary.Laws.{HasIdempotency}
use nyst.Store.{Store}
use nyst.Store.Evidence.{is_text}
use nyst.Store.Resolutions.{latest}
use nyst.Store.Runtime.{DispatchGuard, get}
use nyst.Store.Trace.{Steps, start}
use nyst.Runtime.Exec.{Failure, Exec, ◌>>=◌}
use nyst.Runtime.Exec.Preserves.{Preserves-bind, Preserves-raise}
use nyst.Runtime.Host.{Host, World, get_spec, elapse, require_spec, assert_dispatch_eligibility}
use nyst.Runtime.Host.Ends.{or_fail-ends, guard-ends, read-ends, ask-ends, assoc-ends}
use nyst.Runtime.Operations.{
  authorizes_retry, require_safe_boundary, redispatch, retry_current, retry,
}
use nyst.Runtime.Discipline.{read-Preserves, require_provider-Preserves, host_rules}
use nyst.Runtime.Discipline.Parts.{derive_and_persist-Preserves}
use nyst.Runtime.Discipline.Reconciling.{observe-Preserves, reconcile-Preserves, explain-Preserves}
use nyst.Runtime.Discipline.Spending.{Leads, Leads-bind, Leads-then}
use nyst.Runtime.Budget.Once.{Peaceful}
use nyst.Runtime.Granted.{
  Claimed, Quiet, Quiet-Stable, QuietOrPaid, QuietOrPaid-Stable, dispatch-Paid,
}
use nyst.Runtime.Authorized.{require_action-ends, current-ends, Leads-if, Leads-of, unless-ends}

text_of : (o : Option String) → is_text o ≡ true → HasIdempotency o
unfolding is_text
text_of none e = absurd (cc e)
text_of (some s) e = (s, refl, λ q. ground (arith, eq_iff s ""))

status_of :
    (x : RuntimeState)
    → (some x.dispatch_status == some DispatchStatus.definitely_not_sent) ≡ true
    → x.dispatch_status ≡ DispatchStatus.definitely_not_sent
status_of x e = some-injective _ _ ((==_iff (some x.dispatch_status) _).0 e)

pub record RetryCase (Json : Type 0) : Type 0 where
  pub action : ActionRecord Json
  pub spec : EffectSpec Json
  pub newest : OutcomeResolution
  pub basis : ResolutionBasis

abbrev pub retried : {Json : Type 0} → RetryCase Json → ActionRecord Json
retried i = i.action

abbrev pub retry_statuses : List DispatchStatus
retry_statuses = DispatchStatus.definitely_not_sent ∷ DispatchStatus.attempted ∷ []

-- The sequences of the basis are the ones of the store.
abbrev pub basis_guard : {Json : Type 0} → RetryCase Json → Option DispatchGuard
basis_guard i = some (record {
  resolution_sequence = some i.basis.resolution_sequence;
  evidence_sequence = some i.basis.evidence_sequence;
  continuation = none;
})

module _ {Json : Type 0} (h : Host Json) (id resolution : String) (w : World Json) where
  -- The last request was known not to be sent.
  pub record WasNotSent : Type 0 where
    pub at : Store Json
    pub state : RuntimeState
    pub reached : Steps h.text_lt h.hash w.store at
    pub found : get id at ≡ some state
    pub unsent : state.dispatch_status ≡ DispatchStatus.definitely_not_sent

  -- The resolution is current when it is read, is the named one, and says to retry; and the request
  -- is idempotent at the provider, or was not sent.
  pub record IsAuthorized (i : RetryCase Json) : Type 0 where
    pub stored : (elapse h w).store.by_id id ≡ some i.action
    pub specified : get_spec i.action.effect_name i.action.spec_version h.registry ≡ some i.spec
    pub current : latest h.text_lt id (elapse h (elapse h (elapse h w))).store ≡ some i.newest
    pub named : i.newest.resolution_id ≡ resolution
    pub not_applied : i.newest.state ≡ EffectState.not_applied
    pub retryable : i.newest.control.retry ≡ RetryDisposition.allowed
    pub directed : i.newest.control.primary ≡ PrimaryDirective.retry
    pub based : i.newest.basis ≡ some i.basis
    pub boundary : HasIdempotency i.spec.provider_idempotency_semantics ⊎ WasNotSent

module _ {Json : Type 0} (h : Host Json) (peaceful : Peaceful h) (id resolution : String)
    (w : World Json) where
  abbrev Sent : World Json → Type 0
  Sent =
      QuietOrPaid h peaceful w (RetryCase Json) (IsAuthorized h id resolution w) retried
        retry_statuses basis_guard

  not_sent :
      (v : World Json)
      → Quiet h peaceful w v
      → ((elim (get id v.store) [ none ↦ none | some r ↦ some r.dispatch_status ])
          == some DispatchStatus.definitely_not_sent)
        ≡ true
      → WasNotSent h id resolution w
  not_sent v q e = elim (Option-cases (get id v.store)) [
    | inl missing ↦ absurd (cc (rw missing at e))
    | inr (x, found) ↦ record {
      at = v.store;
      state = x;
      reached = q.0;
      found = found;
      unsent = status_of x (rw found at e);
    }
  ]

  boundary-ends :
      {B : Type 0} (spec : EffectSpec Json) (f : Unit {0} → Exec (World Json) B) (v : World Json)
      → Quiet h peaceful w v
      → (HasIdempotency spec.provider_idempotency_semantics ⊎ WasNotSent h id resolution w
          → (u : World Json) → Quiet h peaceful w u
          → Sent (f tt u).1)
      → Sent ((require_safe_boundary h id spec >>= f) v).1
  unfolding require_safe_boundary
  boundary-ends spec f v q k =
      let q1 = (Quiet-Stable h peaceful w).waited v q in
      unless-ends Sent (is_text spec.provider_idempotency_semantics) _ f v
        (λ text. k (inl (text_of _ text)) v q)
        (assoc-ends Sent _ _ f v (
          read-ends h Sent _ _ v (
            guard-ends Sent _ _ f (elapse h v) (inl q1)
              λ unsent. k (inr (not_sent (elapse h v) q1 unsent)) (elapse h v) q1)))

  redispatch-Leads :
      (i : RetryCase Json)
      → (elapse h w).store.by_id id ≡ some i.action
      → get_spec i.action.effect_name i.action.spec_version h.registry ≡ some i.spec
      → latest h.text_lt id (elapse h (elapse h (elapse h w))).store ≡ some i.newest
      → i.newest.resolution_id ≡ resolution
      → i.newest.basis ≡ some i.basis
      → Leads (Quiet h peaceful w) Sent (redispatch h id i.action i.spec i.newest i.basis)
  unfolding redispatch authorizes_retry
  redispatch-Leads i stored specified current named based = record {
    after = λ v q.
        let stable =
          QuietOrPaid-Stable h peaceful w (RetryCase Json) (IsAuthorized h id resolution w) retried
            retry_statuses basis_guard in
        guard-ends Sent _ _ _ v (inl q) λ yes'. boundary-ends i.spec _ v q λ safe u q'.
          (Leads-then _ _
              (dispatch-Paid h peaceful w (RetryCase Json) (IsAuthorized h id resolution w) retried
                retry_statuses basis_guard i
                (record {
                  stored = stored;
                  specified = specified;
                  current = current;
                  named = named;
                  not_applied = ground (arith, yes');
                  retryable = ground (arith, yes');
                  directed = ground (arith, yes');
                  based = based;
                  boundary = safe;
                }))
              (λ done. search (host_rules, reconcile-Preserves, explain-Preserves))).after
            u q';
  }

  retry_current-ends :
      (a : ActionRecord Json) (spec : EffectSpec Json) (r : OutcomeResolution)
      → (elapse h w).store.by_id id ≡ some a
      → get_spec a.effect_name a.spec_version h.registry ≡ some spec
      → latest h.text_lt id (elapse h (elapse h (elapse h w))).store ≡ some r
      → r.resolution_id ≡ resolution
      → (v : World Json) → Quiet h peaceful w v
      → Sent (retry_current h id a spec r v).1
  unfolding retry_current
  retry_current-ends a spec r stored specified current named v q =
      let stable = Quiet-Stable h peaceful w in
      or_fail-ends Sent _ _ _ v (inl q) λ basis based.
        (Leads-bind _ _ (require_provider-Preserves h stable a.effect_name)
            (λ u.
              Leads-bind _ _ (search host_rules)
                (λ plan.
                  Leads-bind _ _ (observe-Preserves h stable a plan)
                    (λ x.
                      Leads-bind _ _ (read-Preserves h stable _)
                        (λ es.
                          Leads-if _ _ _
                            (redispatch-Leads
                              (record { action = a; spec = spec; newest = r; basis = basis }) stored
                              specified current named based)
                            (Leads-of _
                              (Preserves-bind _ _ (derive_and_persist-Preserves h stable a spec)
                                (λ y. Preserves-raise Failure.stale_decision))
                              (λ u q'. inl q')))
                        (λ u q'. inl q'))
                    (λ u q'. inl q'))
                (λ u q'. inl q'))
            (λ u q'. inl q')).after
          v q

  -- While all others change the store by its operations only: a retry sends the action to its
  -- provider only on a resolution that was the current one of the action when it was read, that is
  -- the named one, with the state `not_applied`, and that allows the retry and directs it; if the
  -- provider has idempotency semantics or the last request was known not to be sent when that was
  -- read; and only after a claim that was granted in a store of the run where the action had fewer
  -- than two attempts, was attempted or known not to be sent, and had the resolution and evidence
  -- sequence numbers of that resolution's basis. Otherwise nothing is sent.
  pub retry-IsAuthorized :
      ((retry h id resolution w).1.calls ≡ w.calls)
      ⊎ ((i : RetryCase Json) × IsAuthorized h id resolution w i
          × Claimed h w.store i.action.action_id retry_statuses
              (basis_guard i)
              (retry h id resolution w).1.store)
  unfolding retry assert_dispatch_eligibility require_spec
  retry-IsAuthorized =
      let stable = Quiet-Stable h peaceful w in
      let q1 = stable.waited w (start, refl) in
      let q2 = stable.waited _ q1 in
      let q3 = stable.waited _ q2 in
      let sent : Sent (retry h id resolution w).1 =
        require_action-ends h Sent id _ w (inl q1) λ a stored. ask-ends h Sent _ _ _ (inl q2) λ u.
          or_fail-ends Sent _ _ _ _ (inl q2) λ spec found.
            current-ends h Sent id resolution _ _ (inl q3)
              λ r current named. retry_current-ends a spec r stored found current named _ q3 in
      elim sent [ inl q ↦ inl q.1 | inr paid ↦ inr paid ]
