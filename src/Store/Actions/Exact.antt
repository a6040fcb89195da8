-- ===== src/Store/Actions/Exact.antt =====
-- When `transition` and `prepare` of src/store/memoryStore.ts succeed, and what they then store.
use nyst.Base.{
  String, Bool, true, not, ◌&&◌, some, ◌≡◌, ◌≢◌, ◌↔◌, refl, sym, ap, ◌⊎◌, inl, inr, put, Result, ok,
  ok-injective, is_some, Bool-cases, Option-cases, arith, ◌==◌, ==_iff,
}
use nyst.Model.Internal.{InternalState, internal_state_eq, is_legal}
use nyst.Model.Action.{ActionRecord, DispatchPlan}
use nyst.Store.{Store, StoreError}
use nyst.Store.Actions.{transition, prepare}

module _ {Json : Type 0} (id : String) (s t : Store Json) (n : ActionRecord Json) where
  -- The action was at `from`, `to` follows it, a plan is there if `to` dispatches, and the action
  -- is stored at `to` with nothing else changed.
  pub record IsTransition (from to : InternalState) : Type 0 where
    pub before : ActionRecord Json
    pub found : s.by_id id ≡ some before
    pub current : before.internal_state ≡ from
    pub legal : is_legal from to ≡ true
    pub planned : (to ≢ InternalState.dispatching) ⊎ (is_some before.dispatch_plan ≡ true)
    pub moved : n ≡ record before { internal_state = to }
    pub stored : t ≡ record s { by_id = put id n s.by_id }

  -- The action was only intended, the plan passes its schema, and the action is stored as prepared
  -- with that plan and nothing else changed.
  pub record IsPreparation (schema : DispatchPlan Json → Bool) (p : DispatchPlan Json)
      : Type 0 where
    pub before : ActionRecord Json
    pub found : s.by_id id ≡ some before
    pub current : before.internal_state ≡ InternalState.intent_recorded
    pub parsed : schema p ≡ true
    pub moved :
        n ≡ record before { internal_state = InternalState.prepared; dispatch_plan = some p }
    pub stored : t ≡ record s { by_id = put id n s.by_id }

module _ {Json : Type 0} (id : String) (s t : Store Json) (n : ActionRecord Json) where
  results :
      (m : ActionRecord Json) (u : Store Json)
      → ◌≡◌ {A = Result StoreError (ActionRecord Json × Store Json)} (ok (m, u)) (ok (n, t))
      → (n ≡ m) × (t ≡ u)
  results m u e =
      let p = sym (ok-injective {E = StoreError} e) in
      (
        ap (λ (x : ActionRecord Json × Store Json). x.0) p,
        ap (λ (x : ActionRecord Json × Store Json). x.1) p,
      )

  results_back :
      (m : ActionRecord Json)
      → n ≡ m
      → t ≡ record s { by_id = put id n s.by_id }
      → ◌≡◌ {A = Result StoreError (ActionRecord Json × Store Json)}
          (ok (m, record s { by_id = put id m s.by_id }))
          (ok (n, t))
  results_back m same kept = rw (kept, same) refl

  transition-IsTransition :
      (from to : InternalState)
      → transition id from to s ≡ ok (n, t)
      → IsTransition id s t n from to
  unfolding transition
  transition-IsTransition from to e = elim (Option-cases (s.by_id id)) [
    | inl missing ↦ absurd (cc (rw (missing, transition) at e))
    | inr (r, found) ↦ elim (Bool-cases (r.internal_state == from)) [
      | inr stale ↦ absurd (cc (rw stale at (rw (found, transition) at e)))
      | inl fresh ↦ elim (Bool-cases (is_legal from to)) [
        | inr illegal ↦ absurd (cc (rw (fresh, illegal) at (rw (found, transition) at e)))
        | inl legal ↦
            elim (Bool-cases ((to == InternalState.dispatching) && not (is_some r.dispatch_plan))) [
              | inl planless ↦
                  absurd (cc (rw (fresh, legal, planless) at (rw (found, transition) at e)))
              | inr planned ↦
                  let (same, kept) =
                    results _ _ (rw (fresh, legal, planned) at (rw (found, transition) at e)) in
                  record {
                    before = r;
                    found = found;
                    current = (==_iff r.internal_state from).0 fresh;
                    legal = legal;
                    planned = ground arith;
                    moved = same;
                    stored = rw same kept;
                  }
            ]
      ]
    ]
  ]

  planned_test :
      (to : InternalState) (r : ActionRecord Json)
      → (to ≢ InternalState.dispatching) ⊎ (is_some r.dispatch_plan ≡ true)
      → ((to == InternalState.dispatching) && not (is_some r.dispatch_plan)) ≡ Bool.false
  planned_test to r h = ground arith

  IsTransition-transition :
      (from to : InternalState)
      → IsTransition id s t n from to
      → transition id from to s ≡ ok (n, t)
  unfolding transition
  IsTransition-transition from to x =
      let fresh = (==_iff x.before.internal_state from).1 x.current in
      let test = planned_test to x.before x.planned in
      rw (x.found, transition) (rw (fresh, x.legal, test) (results_back _ x.moved x.stored))

  -- A transition succeeds exactly if the action is at the state that the caller expects, the next
  -- state legally follows it, and a persisted plan is there when it is `dispatching`; then the
  -- action is stored at that next state, and nothing else changes.
  pub transition_iff :
      (from to : InternalState)
      → (transition id from to s ≡ ok (n, t)) ↔ IsTransition id s t n from to
  transition_iff from to = (transition-IsTransition from to, IsTransition-transition from to)

  prepare-IsPreparation :
      (schema : DispatchPlan Json → Bool) (p : DispatchPlan Json)
      → prepare schema id p s ≡ ok (n, t)
      → IsPreparation id s t n schema p
  unfolding prepare
  prepare-IsPreparation schema p e = elim (Option-cases (s.by_id id)) [
    | inl missing ↦ absurd (cc (rw (missing, prepare) at e))
    | inr (r, found) ↦ elim (Bool-cases (r.internal_state == InternalState.intent_recorded)) [
      | inr stale ↦ absurd (cc (rw stale at (rw (found, prepare) at e)))
      | inl fresh ↦ elim (Bool-cases (schema p)) [
        | inr refused ↦ absurd (cc (rw (fresh, refused) at (rw (found, prepare) at e)))
        | inl fine ↦
            let (same, kept) = results _ _ (rw (fresh, fine) at (rw (found, prepare) at e)) in
            record {
              before = r;
              found = found;
              current = (==_iff r.internal_state InternalState.intent_recorded).0 fresh;
              parsed = fine;
              moved = same;
              stored = rw same kept;
            }
      ]
    ]
  ]

  IsPreparation-prepare :
      (schema : DispatchPlan Json → Bool) (p : DispatchPlan Json)
      → IsPreparation id s t n schema p
      → prepare schema id p s ≡ ok (n, t)
  unfolding prepare
  IsPreparation-prepare schema p x =
      let fresh = (==_iff x.before.internal_state InternalState.intent_recorded).1 x.current in
      rw (x.found, prepare) (rw (fresh, x.parsed) (results_back _ x.moved x.stored))

  -- A plan is recorded exactly if the action is `intent_recorded` and the plan passes its schema;
  -- then the action is stored as `prepared` with that plan, and nothing else changes.
  pub prepare_iff :
      (schema : DispatchPlan Json → Bool) (p : DispatchPlan Json)
      → (prepare schema id p s ≡ ok (n, t)) ↔ IsPreparation id s t n schema p
  prepare_iff schema p = (prepare-IsPreparation schema p, IsPreparation-prepare schema p)
