-- ===== src/Store/Trace/Permanence.antt =====
-- The law of logical identity over a whole run.
use nyst.Base.{
  String, Bool, false, none, some, ◌≡◌, ◌≢◌, refl, sym, ◌∙◌, subst, ◌⊎◌, inl, inr, put_self, ok,
  err, Bool-cases, ◌==◌, ==_iff, string_eq,
}
use nyst.Model.Action.{ActionRecord}
use nyst.Model.Metadata.{holds_raw_credential}
use nyst.Store.{Store, input_collision}
use nyst.Store.Actions.{
  NewActionIntent, Recorded, identity_key, new_record, replay, record_intent, find_by_identity,
}
use nyst.Store.Actions.Lifecycle.{transition-Advanced, prepare-Advanced}
use nyst.Store.Actions.Identity.{Outcome, replayed, created, record_intent-Outcome}
use nyst.Store.Evidence.AppendOnly.{append-Appended}
use nyst.Store.Resolutions.Distinct.{save-Saved}
use nyst.Store.Runtime.Effects.{
  Effect, initialize-Effect, claim_dispatch-Effect, finish_dispatch-Effect,
  set_dispatch_status-Effect, claim_compensation-Effect, finish_compensation-Effect,
  next_resolution_sequence-Effect, Effect-elsewhere,
}
use nyst.Store.Trace.{
  Step, did_record, did_transition, did_prepare, did_append, did_save, did_initialize, did_claim,
  did_finish, did_set, did_claim_compensation, did_finish_compensation, did_resolve, Steps, start,
  then_step, Reachable,
}
use nyst.Store.Trace.Validity.{StoreValid}
use nyst.Store.Trace.Reached.{Steps-StoreValid, Reachable-StoreValid}
use nyst.Store.Trace.History.{
  SameAction, Later, Later-refl, Later-trans, Advanced-Later, Outcome-Later, Appended-Later,
  elsewhere-Later,
}

module _ {Json : Type 0} (text_lt : String → String → Bool) (hash : Json → String) where
  Effect-Later : (id : String) (s t : Store Json) → Effect id s t → Later s t
  Effect-Later id s t e =
      let (actions, identities, ledgers, resolutions) = Effect-elsewhere e in
      elsewhere-Later s t actions identities ledgers

  Step-Later : (s t : Store Json) → Step text_lt hash s t → StoreValid s → Later s t
  Step-Later s t (did_record schema fresh intent x new e) v =
      Outcome-Later schema fresh intent s t x new
        (record_intent-Outcome schema fresh intent s t x e)
  Step-Later s t (did_transition id from to n e) v =
      Advanced-Later id s t n (transition-Advanced id s t n from to e) v
  Step-Later s t (did_prepare schema id p n e) v =
      Advanced-Later id s t n (prepare-Advanced id s t n schema p e) v
  Step-Later s t (did_append schema fresh ev x e) v =
      Appended-Later hash fresh ev s t x (append-Appended schema hash fresh ev s t x e)
  Step-Later s t (did_save schema r e) v =
      let saved = save-Saved schema r s t e in
      subst (Later s) (sym saved.stored) (elsewhere-Later s _ refl refl refl)
  Step-Later s t (did_initialize id x e) v = Effect-Later id s t (initialize-Effect id s t x e)
  Step-Later s t (did_claim fresh id allowed guard c e) v =
      Effect-Later id s t (claim_dispatch-Effect id s t text_lt fresh allowed guard c e)
  Step-Later s t (did_finish id token status x u e) v =
      Effect-Later id s t (finish_dispatch-Effect id s t token status x u e)
  Step-Later s t (did_set id from to x u e) v =
      Effect-Later id s t (set_dispatch_status-Effect id s t from to x u e)
  Step-Later s t (did_claim_compensation fresh id c e) v =
      Effect-Later id s t (claim_compensation-Effect id s t fresh c e)
  Step-Later s t (did_finish_compensation id token x e) v =
      Effect-Later id s t (finish_compensation-Effect id s t token x e)
  Step-Later s t (did_resolve id state check x e) v =
      Effect-Later id s t (next_resolution_sequence-Effect id s t state check x e)

  Steps-Later : (s t : Store Json) → Steps text_lt hash s t → StoreValid s → Later s t
  Steps-Later s t start v = Later-refl s
  Steps-Later s t (then_step {t = u} run step) v =
      Later-trans s u t (Steps-Later s u run v)
        (Step-Later u t step (Steps-StoreValid text_lt hash s u run v))

  -- From any reachable store on, whatever is done: every action keeps its id, effect, business key,
  -- input and its hash, version of the specification, context and creation, it keeps its plan once it has one, it does not go back behind its dispatch, every
  -- identity keeps its action, and every evidence ledger is an extension of what it was.
  pub run_keeps : (s t : Store Json) → Reachable text_lt hash s → Steps text_lt hash s t → Later s t
  run_keeps s t reached run = Steps-Later s t run (Reachable-StoreValid text_lt hash s reached)

  -- A recorded intent is found under its identity at once.
  recorded_at :
      (schema : ActionRecord Json → Bool) (fresh : String) (intent : NewActionIntent Json)
      (s t : Store Json) (x : Recorded Json)
      → Outcome schema fresh intent s t x
      → (id : String) × (t.by_id id ≡ some x.action)
        × (t.by_identity (identity_key intent.effect_name intent.business_key) ≡ some id)
        × (x.action.input_hash ≡ intent.input_hash)
  recorded_at schema fresh intent s t x (replayed id q found same old kept) =
      (id, rw kept found, rw kept q, same)
  recorded_at schema fresh intent s t x (created free made flag stored) = (
    fresh,
    subst (λ (u : Store Json). u.by_id fresh ≡ some x.action) (sym stored)
        (put_self fresh x.action s.by_id),
    subst
        (λ (u : Store Json).
          u.by_identity (identity_key intent.effect_name intent.business_key) ≡ some fresh)
        (sym stored) (put_self _ fresh s.by_identity),
    rw made (unfold new_record in refl),
  )

  replay_lem :
      (s : Store Json) (intent : NewActionIntent Json) (id : String) (n : ActionRecord Json)
      → s.by_id id ≡ some n
      → ((intent.input_hash ≡ n.input_hash)
          × (replay s intent id ≡ ok (record { action = n; created = false }, s)))
        ⊎ ((intent.input_hash ≢ n.input_hash) × (replay s intent id ≡ err input_collision))
  unfolding replay
  replay_lem s intent id n found = elim (Bool-cases (n.input_hash == intent.input_hash)) [
    | inl same ↦
        inl
          (sym ((==_iff n.input_hash intent.input_hash).0 same), rw (found, replay) (rw same refl))
    | inr drift ↦ inr (
      λ q. cc ((==_iff n.input_hash intent.input_hash).1 (sym q), drift),
      rw (found, replay) (rw drift refl),
    )
  ]

  as_replay :
      (schema : ActionRecord Json → Bool) (fresh : String) (intent : NewActionIntent Json)
      (s : Store Json) (id : String)
      → holds_raw_credential intent.context ≡ false
      → s.by_identity (identity_key intent.effect_name intent.business_key) ≡ some id
      → record_intent schema fresh intent s ≡ replay s intent id
  unfolding record_intent
  as_replay schema fresh intent s id clean named = rw (clean, named, record_intent) refl

  ==_no : {a b : String} → a ≢ b → (a == b) ≡ false
  ==_no {a} {b} h = elim (Bool-cases (a == b)) [
    | inl same ↦ absurd (h ((==_iff a b).0 same))
    | inr other ↦ other
  ]

  found_by_identity :
      (effect bk : String) (s : Store Json) (id : String)
      → s.by_identity (identity_key effect bk) ≡ some id
      → (id == "") ≡ false
      → find_by_identity effect bk s ≡ s.by_id id
  unfolding find_by_identity
  found_by_identity effect bk s id named text = rw (named, find_by_identity) (rw text refl)

  -- Once an intent is recorded in a reachable store, under an id that is not empty, its identity
  -- finds its action for ever, and recording an intent of that identity without a raw credential,
  -- however much later, stores nothing: it gives that same action back if the input has the same
  -- hash, and it is refused as a collision if not.
  pub recorded_again :
      (schema schema' : ActionRecord Json → Bool) (fresh fresh' : String)
      (intent again : NewActionIntent Json) (s t u : Store Json) (x : Recorded Json)
      → Reachable text_lt hash s
      → s.by_id fresh ≡ none
      → record_intent schema fresh intent s ≡ ok (x, t)
      → Steps text_lt hash t u
      → again.effect_name ≡ intent.effect_name
      → again.business_key ≡ intent.business_key
      → holds_raw_credential again.context ≡ false
      → x.action.action_id ≢ ""
      → (n : ActionRecord Json) × SameAction x.action n
        × (find_by_identity intent.effect_name intent.business_key u ≡ some n)
        × (((again.input_hash ≡ intent.input_hash)
              × (record_intent schema' fresh' again u
                  ≡ ok (record { action = n; created = false }, u)))
            ⊎ ((again.input_hash ≢ intent.input_hash)
                × (record_intent schema' fresh' again u ≡ err input_collision)))
  recorded_again schema schema' fresh fresh' intent again s t u x reached new e run effect key clean
        nonempty =
      let reached' : Reachable text_lt hash t =
        then_step reached (did_record schema fresh intent x new e) in
      let later = run_keeps t u reached' run in
      let (id, stored, named, input) =
        recorded_at schema fresh intent s t x (record_intent-Outcome schema fresh intent s t x e) in
      let (n, found, same) = later.actions_survive id x.action stored in
      let named' = later.identities_stay _ id named in
      let at_id : x.action.action_id ≡ id =
        ((Reachable-StoreValid text_lt hash t reached').actions_stored id x.action stored).1 in
      let named_id : (id == "") ≡ false = ==_no (λ q. nonempty (at_id ∙ q)) in
      let hash_kept : n.input_hash ≡ intent.input_hash = same.same_input ∙ input in
      let replayed_now : record_intent schema' fresh' again u ≡ replay u again id =
        as_replay schema' fresh' again u id clean (rw (effect, key) named') in
      (
        n,
        same,
        found_by_identity intent.effect_name intent.business_key u id named' named_id ∙ found,
        elim (replay_lem u again id n found) [
          | inl (same_hash, result) ↦ inl (same_hash ∙ hash_kept, replayed_now ∙ result)
          | inr (drift, result) ↦ inr (λ q. drift (q ∙ sym hash_kept), replayed_now ∙ result)
        ],
      )
