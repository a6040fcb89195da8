-- ===== src/Store/Actions/Lifecycle.antt =====
-- The lifecycle of an action as the store lets it advance.
use nyst.Base.{
  String, Bool, true, false, not, ◌&&◌, none, some, ◌≡◌, sym, ap, inl, inr, put, Result, ok,
  ok-injective, is_some, Bool-cases, Option-cases, arith, ◌==◌, ==_iff, string_eq,
}
use nyst.Model.Internal.{InternalState, internal_state_eq, is_legal}
use nyst.Model.Action.{ActionRecord, DispatchPlan}
use nyst.Store.{Store, StoreError}
use nyst.Store.Actions.{NewActionIntent, new_record, transition, prepare}

-- A mutation may have been issued.
abbrev pub has_dispatched : InternalState → Bool
has_dispatched InternalState.intent_recorded = false
has_dispatched InternalState.prepared = false
has_dispatched InternalState.abandoned_before_dispatch = false
has_dispatched _ = true

-- What one operation does to an action that exists.
pub data Advance {Json : Type 0} (r n : ActionRecord Json) : Type 0 where
  step :
      (to : InternalState)
      → is_legal r.internal_state to ≡ true
      → (to ≡ InternalState.dispatching → is_some r.dispatch_plan ≡ true)
      → n ≡ record r { internal_state = to }
      → Advance r n
  plan :
      (p : DispatchPlan Json)
      → r.internal_state ≡ InternalState.intent_recorded
      → n ≡ record r { internal_state = InternalState.prepared; dispatch_plan = some p }
      → Advance r n

module _ {Json : Type 0} (id : String) (s t : Store Json) (n : ActionRecord Json) where
  -- The result of an operation that advanced the action.
  pub record Advanced : Type 0 where
    pub before : ActionRecord Json
    pub found : s.by_id id ≡ some before
    pub advance : Advance before n
    pub stored : t ≡ record s { by_id = put id n s.by_id }

module _ {Json : Type 0} (id : String) (s t : Store Json) (n : ActionRecord Json) where
  result_of :
      (m : ActionRecord Json) (u : Store Json)
      → ◌≡◌ {A = Result StoreError (ActionRecord Json × Store Json)} (ok (m, u)) (ok (n, t))
      → (n ≡ m) × (t ≡ u)
  result_of m u e =
      let p = sym (ok-injective {E = StoreError} e) in
      (
        ap (λ (x : ActionRecord Json × Store Json). x.0) p,
        ap (λ (x : ActionRecord Json × Store Json). x.1) p,
      )

  -- A transition succeeds only from the state that the caller expects, along the legal map, and
  -- into `dispatching` only with a persisted plan; it changes nothing but the state of that action.
  pub transition-Advanced :
      (from to : InternalState) → transition id from to s ≡ ok (n, t) → Advanced id s t n
  unfolding transition
  transition-Advanced from to e = elim (Option-cases (s.by_id id)) [
    | inl missing ↦ absurd (cc (rw (missing, transition) at e))
    | inr (r, found) ↦ elim (Bool-cases (r.internal_state == from)) [
      | inr stale ↦ absurd (cc (rw stale at (rw (found, transition) at e)))
      | inl fresh ↦ elim (Bool-cases (is_legal from to)) [
        | inr illegal ↦ absurd (cc (rw (fresh, illegal) at (rw (found, transition) at e)))
        | inl legal ↦
            elim (Bool-cases ((to == InternalState.dispatching) && not (is_some r.dispatch_plan))) [
              | inl planless ↦
                  absurd (cc (rw (fresh, legal, planless) at (rw (found, transition) at e)))
              | inr planned ↦
                  let (same, kept) =
                    result_of _ _ (rw (fresh, legal, planned) at (rw (found, transition) at e)) in
                  record {
                    before = r;
                    found = found;
                    advance =
                        step to (rw ((==_iff r.internal_state from).0 fresh) legal)
                          (λ q. ground arith) same;
                    stored = rw same kept;
                  }
            ]
      ]
    ]
  ]

  -- A plan is recorded only for an action that is `intent_recorded`; the action becomes `prepared`
  -- with that plan, and nothing else changes.
  pub prepare-Advanced :
      (schema : DispatchPlan Json → Bool) (p : DispatchPlan Json)
      → prepare schema id p s ≡ ok (n, t)
      → Advanced id s t n
  unfolding prepare
  prepare-Advanced schema p e = elim (Option-cases (s.by_id id)) [
    | inl missing ↦ absurd (cc (rw (missing, prepare) at e))
    | inr (r, found) ↦ elim (Bool-cases (r.internal_state == InternalState.intent_recorded)) [
      | inr stale ↦ absurd (cc (rw stale at (rw (found, prepare) at e)))
      | inl fresh ↦ elim (Bool-cases (schema p)) [
        | inr refused ↦ absurd (cc (rw (fresh, refused) at (rw (found, prepare) at e)))
        | inl fine ↦
            let (same, kept) = result_of _ _ (rw (fresh, fine) at (rw (found, prepare) at e)) in
            record {
              before = r;
              found = found;
              advance =
                  plan p ((==_iff r.internal_state InternalState.intent_recorded).0 fresh) same;
              stored = rw same kept;
            }
      ]
    ]
  ]

-- Execution identity is durable before any mutation, and there is none before it is recorded.
pub record IsPlanned {Json : Type 0} (r : ActionRecord Json) : Type 0 where
  pub planned : has_dispatched r.internal_state ≡ true → is_some r.dispatch_plan ≡ true
  pub unplanned : r.internal_state ≡ InternalState.intent_recorded → r.dispatch_plan ≡ none

pub new_record-IsPlanned :
    {Json : Type 0} (intent : NewActionIntent Json) (id : String) → IsPlanned (new_record intent id)
unfolding new_record
new_record-IsPlanned intent id = ground arith

module _ {Json : Type 0} {r n : ActionRecord Json} where
  pub Advance-IsPlanned : Advance r n → IsPlanned r → IsPlanned n
  unfolding is_legal
  Advance-IsPlanned (step to legal need e) v = ground arith
  Advance-IsPlanned (plan p was e) v = ground arith

  -- What an action is about never changes, a recorded plan never changes, and once a mutation may
  -- have been issued the action is neither abandoned nor prepared again.
  pub Advance-keeps :
      Advance r n
      → IsPlanned r
      → (n.action_id ≡ r.action_id)
        × (n.effect_name ≡ r.effect_name)
        × (n.business_key ≡ r.business_key)
        × (n.input_hash ≡ r.input_hash)
        × (is_some r.dispatch_plan ≡ true → n.dispatch_plan ≡ r.dispatch_plan)
        × (has_dispatched r.internal_state ≡ true → has_dispatched n.internal_state ≡ true)
        × (n.input ≡ r.input)
        × (n.spec_version ≡ r.spec_version)
        × (n.context ≡ r.context)
        × (n.created_at ≡ r.created_at)
        × (n.created_clock ≡ r.created_clock)
  unfolding is_legal
  Advance-keeps (step to legal need e) v = ground arith
  Advance-keeps (plan p was e) v = ground arith
