-- ===== src/Store/Actions.antt =====
-- `MemoryActions` of src/store/memoryStore.ts. The schemas that the records are parsed by are
-- arbitrary predicates, and the id that `newUuid` draws is an argument.
pub mod Lifecycle
pub mod Exact
pub mod Identity
use Prim.Native.String
use nyst.Base.{
  String, Bool, not, ◌&&◌, Option, none, some, Map, put, Result, ok, err, is_some, ◌==◌, string_eq,
  if◌then◌else◌,
}
use nyst.Model.Internal.{InternalState, internal_state_eq, is_legal}
use nyst.Model.Evidence.{ClockAttestation}
use nyst.Model.Action.{ActionRecord, ActionContext, DispatchPlan}
use nyst.Model.Metadata.{holds_raw_credential}
use nyst.Store.{
  Store, StoreError, raw_credential, input_collision, malformed_record, unknown_action,
  stale_transition, illegal_transition, no_dispatch_plan,
}

-- `NewActionIntent` of src/store/store.ts
pub record NewActionIntent (Json : Type 0) : Type 0 where
  pub effect_name : String
  pub business_key : String
  pub input : Json
  pub input_hash : String
  pub spec_version : String
  pub context : ActionContext
  pub clock : ClockAttestation

pub record Recorded (Json : Type 0) : Type 0 where
  pub action : ActionRecord Json
  pub created : Bool

-- `MemoryActions.key`
unfoldable pub identity_key : String → String → String
identity_key effect bk = String.◌++◌ effect (String.◌++◌ "\0" bk)

module _ {Json : Type 0} where
  unfoldable pub new_record : NewActionIntent Json → String → ActionRecord Json
  new_record intent id = record {
    action_id = id;
    effect_name = intent.effect_name;
    business_key = intent.business_key;
    input_hash = intent.input_hash;
    input = intent.input;
    spec_version = intent.spec_version;
    internal_state = InternalState.intent_recorded;
    dispatch_plan = none;
    context = intent.context;
    created_at = intent.clock.timestamp;
    created_clock = intent.clock;
  }

  -- An identity whose record is missing would be a fault; the source asserts that there is none.
  unfoldable pub replay :
      Store Json → NewActionIntent Json → String → Result StoreError (Recorded Json × Store Json)
  replay s intent id = elim (s.by_id id) [
    | none ↦ err unknown_action
    | some existing ↦
        if existing.input_hash == intent.input_hash
        then ok (record { action = existing; created = Bool.false }, s)
        else err input_collision
  ]

  unfoldable pub create :
      (ActionRecord Json → Bool)
      → Store Json
      → NewActionIntent Json
      → String
      → Result StoreError (Recorded Json × Store Json)
  unfolding new_record identity_key
  create schema s intent id =
      let r = new_record intent id in
      if schema r
      then ok (
        record { action = r; created = Bool.true },
        record s {
          by_id = put id r s.by_id;
          by_identity = put (identity_key intent.effect_name intent.business_key) id s.by_identity;
        },
      )
      else err malformed_record

  -- `recordIntent`
  unfoldable pub record_intent :
      (ActionRecord Json → Bool)
      → String
      → NewActionIntent Json
      → Store Json
      → Result StoreError (Recorded Json × Store Json)
  unfolding holds_raw_credential identity_key replay create
  record_intent schema fresh intent s =
      if holds_raw_credential intent.context
      then err raw_credential
      else elim (s.by_identity (identity_key intent.effect_name intent.business_key)) [
        | some id ↦ replay s intent id
        | none ↦ create schema s intent fresh
      ]

  -- `findByIdentity`
  unfoldable pub find_by_identity : String → String → Store Json → Option (ActionRecord Json)
  unfolding identity_key
  find_by_identity effect bk s = elim (s.by_identity (identity_key effect bk)) [
    | none ↦ none
    | some id ↦ if id == "" then none else s.by_id id
  ]

  -- `MemoryActions.transition`
  unfoldable pub transition :
      String
      → InternalState
      → InternalState
      → Store Json
      → Result StoreError (ActionRecord Json × Store Json)
  unfolding is_legal
  transition id from to s = elim (s.by_id id) [
    | none ↦ err unknown_action
    | some existing ↦
        if not (existing.internal_state == from)
        then err stale_transition
        else if not (is_legal from to)
        then err illegal_transition
        else if (to == InternalState.dispatching) && not (is_some existing.dispatch_plan)
        then err no_dispatch_plan
        else (let next = record existing { internal_state = to } in
            ok (next, record s { by_id = put id next s.by_id }))
  ]

  -- `MemoryActions.prepare`; its `assertTransition` always holds and is left out.
  unfoldable pub prepare :
      (DispatchPlan Json → Bool)
      → String
      → DispatchPlan Json
      → Store Json
      → Result StoreError (ActionRecord Json × Store Json)
  prepare schema id plan s = elim (s.by_id id) [
    | none ↦ err unknown_action
    | some existing ↦
        if not (existing.internal_state == InternalState.intent_recorded)
        then err stale_transition
        else if not (schema plan)
        then err malformed_record
        else (let next = record existing {
          internal_state = InternalState.prepared;
          dispatch_plan = some plan;
        } in
            ok (next, record s { by_id = put id next s.by_id }))
  ]
