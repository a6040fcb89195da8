-- ===== src/Store/Trace/Reached.antt =====
-- The invariant of the store holds in every store that a run reaches.
use nyst.Base.{String, Bool, string_eq}
use nyst.Store.{Store, empty_store}
use nyst.Store.Actions.Lifecycle.{transition-Advanced, prepare-Advanced}
use nyst.Store.Actions.Identity.{record_intent-Outcome}
use nyst.Store.Evidence.AppendOnly.{append-Appended}
use nyst.Store.Runtime.Effects.{
  initialize-Effect, claim_dispatch-Effect, finish_dispatch-Effect, set_dispatch_status-Effect,
  claim_compensation-Effect, finish_compensation-Effect, next_resolution_sequence-Effect,
}
use nyst.Store.Trace.{
  Step, did_record, did_transition, did_prepare, did_append, did_save, did_initialize, did_claim,
  did_finish, did_set, did_claim_compensation, did_finish_compensation, did_resolve, Steps, start,
  then_step, Reachable,
}
use nyst.Store.Trace.Validity.{
  StoreValid, empty-StoreValid, Advanced-StoreValid, Outcome-StoreValid, Appended-StoreValid,
  Effect-StoreValid, save-StoreValid,
}

module _ {Json : Type 0} where
  pub Step-StoreValid :
      (text_lt : String → String → Bool) (hash : Json → String) (s t : Store Json)
      → Step text_lt hash s t
      → StoreValid s
      → StoreValid t
  Step-StoreValid text_lt hash s t (did_record schema fresh intent x new e) v =
      Outcome-StoreValid schema fresh intent s t x new
        (record_intent-Outcome schema fresh intent s t x e) v
  Step-StoreValid text_lt hash s t (did_transition id from to n e) v =
      Advanced-StoreValid id s t n (transition-Advanced id s t n from to e) v
  Step-StoreValid text_lt hash s t (did_prepare schema id p n e) v =
      Advanced-StoreValid id s t n (prepare-Advanced id s t n schema p e) v
  Step-StoreValid text_lt hash s t (did_append schema fresh ev x e) v =
      Appended-StoreValid hash fresh ev s t x (append-Appended schema hash fresh ev s t x e) v
  Step-StoreValid text_lt hash s t (did_save schema r e) v = save-StoreValid schema r s t e v
  Step-StoreValid text_lt hash s t (did_initialize id x e) v =
      Effect-StoreValid id s t (initialize-Effect id s t x e) v
  Step-StoreValid text_lt hash s t (did_claim fresh id allowed guard c e) v =
      Effect-StoreValid id s t (claim_dispatch-Effect id s t text_lt fresh allowed guard c e) v
  Step-StoreValid text_lt hash s t (did_finish id token status x u e) v =
      Effect-StoreValid id s t (finish_dispatch-Effect id s t token status x u e) v
  Step-StoreValid text_lt hash s t (did_set id from to x u e) v =
      Effect-StoreValid id s t (set_dispatch_status-Effect id s t from to x u e) v
  Step-StoreValid text_lt hash s t (did_claim_compensation fresh id c e) v =
      Effect-StoreValid id s t (claim_compensation-Effect id s t fresh c e) v
  Step-StoreValid text_lt hash s t (did_finish_compensation id token x e) v =
      Effect-StoreValid id s t (finish_compensation-Effect id s t token x e) v
  Step-StoreValid text_lt hash s t (did_resolve id state check x e) v =
      Effect-StoreValid id s t (next_resolution_sequence-Effect id s t state check x e) v

  pub Steps-StoreValid :
      (text_lt : String → String → Bool) (hash : Json → String) (s t : Store Json)
      → Steps text_lt hash s t
      → StoreValid s
      → StoreValid t
  Steps-StoreValid text_lt hash s t start v = v
  Steps-StoreValid text_lt hash s t (then_step {t = u} run step) v =
      Step-StoreValid text_lt hash u t step (Steps-StoreValid text_lt hash s u run v)

  pub Reachable-StoreValid :
      (text_lt : String → String → Bool) (hash : Json → String) (s : Store Json)
      → Reachable text_lt hash s
      → StoreValid s
  Reachable-StoreValid text_lt hash s run =
      Steps-StoreValid text_lt hash empty_store s run empty-StoreValid
