-- ===== src/Resolver/Safe.antt =====
-- What a receipt of src/engine/resolver.ts may say.
use nyst.Base.{
  String, true, none, some, ok, ◌≡◌, refl, sym, ap, ◌∙◌, subst, ok-injective, string_eq, ==_iff,
  Option,
}
use nyst.Model.EffectState.{EffectState}
use nyst.Model.Control.{ControlDecision}
use nyst.Model.Action.{ActionRecord}
use nyst.Model.Resolution.{OutcomeResolution}
use nyst.Model.Spec.{EffectSpec}
use nyst.Engine.Ledger.{Evidence, active_evidence}
use nyst.Engine.Clamps.Safe.{Permits, IsSafe}
use nyst.Engine.Floors.{FloorResult, apply_safety_floors}
use nyst.Engine.Floors.Authorizes.{floors-IsSafe}
use nyst.Store.Evidence.{list_for_action}
use nyst.Runtime.Exec.{Failure, pure, raise, or_fail}
use nyst.Runtime.Exec.Returns.{guard-returns, or_fail-returns, bind-returns}
use nyst.Runtime.Host.{Host, World, elapse, require_action, ask_clock}
use nyst.Runtime.Host.Returns.{read-returns, ask-returns, call-returns}
use nyst.Runtime.Derive.{unsigned_resolution, signed}
use nyst.Resolver.{enter_reconciling, unsigned_receipt, issue, resolve}

some_of_or_fail :
    {Json A : Type 0} (f : Failure) (o : Option A) (a : A) (w : World Json)
    → (or_fail f o w).0 ≡ ok a
    → o ≡ some a
unfolding or_fail raise pure
some_of_or_fail f none a w e = absurd (cc e)
some_of_or_fail f (some x) a w e = ap some (ok-injective {E = Failure} e)

same_decision :
    {Json : Type 0} (spec : EffectSpec Json) (active : Evidence Json) (s : EffectState)
    (d : ControlDecision) (policy version : String)
    → IsSafe spec active s d
    → IsSafe spec active s (record d { policy_version = policy; spec_version = version })
same_decision spec active s d policy version v = record {
  permitted = same_permit s v.permitted;
  not_transport_only = v.not_transport_only;
  compensable = v.compensable;
  retry_consistent = v.retry_consistent;
  continue_consistent = v.continue_consistent;
  no_stale_check = v.no_stale_check;
}
  where
    same_permit :
        (s : EffectState)
        → Permits spec s d
        → Permits spec s (record d { policy_version = policy; spec_version = version })
    same_permit EffectState.verified p = p
    same_permit EffectState.not_applied p = p
    same_permit EffectState.pending p = p
    same_permit EffectState.compensated p = p
    same_permit EffectState.satisfied_unattributed p = p
    same_permit EffectState.unprovable p = p

-- The evidence of the action that the store holds once the action `a` is moved to `reconciling`.
abbrev pub read_at :
    {Json : Type 0} → Host Json → String → ActionRecord Json → World Json → Evidence Json
read_at h id a w =
    list_for_action id (elapse h (enter_reconciling h a id (require_action h id w).1).1).store

module _ {Json : Type 0} (h : Host Json) (spec : EffectSpec Json) (id : String) (w : World Json)
    (r : OutcomeResolution) where
  issued :
      (unsigned : OutcomeResolution) (v : World Json)
      → (issue h id unsigned v).0 ≡ ok r
      → (r ≡ signed h unsigned) × (h.resolution_schema r ≡ true)
  unfolding issue pure
  issued unsigned v e =
      let (fine, e1) = guard-returns _ _ _ v r e in
      let (u, s, saved, e2) = call-returns h _ _ _ r e1 in
      let (n, t, moved, e3) = call-returns h _ _ _ r e2 in
      let same : r ≡ signed h unsigned = sym (ok-injective {E = Failure} e3) in
      (same, ap h.resolution_schema same ∙ fine)

  required :
      (a : ActionRecord Json)
      → (require_action h id w).0 ≡ ok a
      → (elapse h w).store.by_id id ≡ some a
  unfolding require_action
  required a e = some_of_or_fail _ _ a _ (read-returns h _ _ w a e)

  -- A receipt that is returned is signed as it stands and meets its schema. The action was stored
  -- under the id and has the effect of the spec, and it was then moved to `reconciling`. The receipt
  -- reports the state and the references that the safety floors settle on for that action and the
  -- evidence that the store held of it right after, and it meets every control floor for them.
  pub resolve-IsSafe :
      (resolve h spec id w).0 ≡ ok r
      → (a b : ActionRecord Json) × (f : FloorResult) × ((elapse h w).store.by_id id ≡ some a)
        × (a.effect_name ≡ spec.effect_name)
        × ((enter_reconciling h a id (require_action h id w).1).0 ≡ ok b)
        × (apply_safety_floors spec
              (spec.assess b (read_at h id a w))
              (spec.decide b (spec.assess b (read_at h id a w)))
              (read_at h id a w)
            ≡ some f)
        × (r.state ≡ f.state)
        × (r.evidence_refs ≡ f.assessment.evidence_refs)
        × IsSafe spec (active_evidence (read_at h id a w)) r.state r.control
        × (r ≡ signed h (record r { signature = none }))
        × (h.resolution_schema r ≡ true)
  unfolding resolve ask_clock unsigned_receipt unsigned_resolution signed
  resolve-IsSafe e =
      let (a, loaded, e1) = bind-returns _ _ w r e in
      let (named, e2) = guard-returns _ _ _ _ r e1 in
      let (current, entered, e3) = bind-returns _ _ _ r e2 in
      let e4 = read-returns h _ _ _ r e3 in
      let (f, settled, e5) = or_fail-returns _ _ _ _ r e4 in
      let (now, asked, e6) = ask-returns h _ _ _ r e5 in
      let (receipt_id, drawn, e7) = ask-returns h _ _ _ r e6 in
      let (same, fine) = issued _ _ e7 in
      let active = active_evidence (read_at h id a w) in
      (
        a,
        current,
        f,
        required a loaded,
        (==_iff _ _).0 named,
        entered,
        settled,
        ap (λ (q : OutcomeResolution). q.state) same,
        ap (λ (q : OutcomeResolution). q.evidence_refs) same,
        subst (λ (q : OutcomeResolution). IsSafe spec active q.state q.control) (sym same)
            (same_decision spec active f.state f.decision "core-floors/1" spec.schema_version
              (floors-IsSafe spec _ _ _ settled)),
        rw same refl,
        fine,
      )
