-- ===== src/Store/Trace.antt =====
-- Runs of src/store/memoryStore.ts: any operations, in any order, by any number of clients. The
-- mutex of the store makes each one step. `hash` stands for `canonicalHash`.
pub mod Validity
pub mod Reached
pub mod History
pub mod Permanence
use nyst.Base.{ℕ, String, Bool, Option, none, some, List, ◌≡◌, ◌≢◌, Result, ok}
use nyst.Model.EffectState.{EffectState}
use nyst.Model.Internal.{InternalState}
use nyst.Model.Evidence.{NewEvidence, EvidenceRecord}
use nyst.Model.Action.{ActionRecord, DispatchPlan}
use nyst.Model.Resolution.{DispatchStatus, OutcomeResolution, RuntimeState}
use nyst.Store.{Store, empty_store}
use nyst.Store.Actions.{NewActionIntent, Recorded, record_intent, transition, prepare}
use nyst.Store.Evidence.{append}
use nyst.Store.Resolutions.{save}
use nyst.Store.Runtime.{
  DispatchGuard, DispatchClaim, initialize, claim_dispatch, finish_dispatch, set_dispatch_status,
  claim_compensation, finish_compensation, next_resolution_sequence,
}

module _ {Json : Type 0} (text_lt : String → String → Bool) (hash : Json → String) where
  -- One operation that succeeds. One that throws leaves the store as it is. A new action has an id
  -- that no action has, as `newUuid` draws it; the types of `finishDispatch` and
  -- `setDispatchStatus` exclude `claimed` as the new status.
  pub data Step (s t : Store Json) : Type 0 where
    did_record :
        (schema : ActionRecord Json → Bool) (fresh : String) (intent : NewActionIntent Json)
        (x : Recorded Json)
        → s.by_id fresh ≡ none
        → record_intent schema fresh intent s ≡ ok (x, t)
        → Step s t
    did_transition :
        (id : String) (from to : InternalState) (n : ActionRecord Json)
        → transition id from to s ≡ ok (n, t)
        → Step s t
    did_prepare :
        (schema : DispatchPlan Json → Bool) (id : String) (p : DispatchPlan Json)
        (n : ActionRecord Json)
        → prepare schema id p s ≡ ok (n, t)
        → Step s t
    did_append :
        (schema : EvidenceRecord Json → Bool) (fresh : String) (ev : NewEvidence Json)
        (x : EvidenceRecord Json)
        → append schema hash fresh ev s ≡ ok (x, t)
        → Step s t
    did_save :
        (schema : OutcomeResolution → Bool) (r : OutcomeResolution)
        → save schema r s ≡ ok t
        → Step s t
    did_initialize : (id : String) (x : RuntimeState) → initialize id s ≡ ok (x, t) → Step s t
    did_claim :
        (fresh id : String) (allowed : List DispatchStatus) (guard : Option DispatchGuard)
        (c : DispatchClaim)
        → claim_dispatch text_lt fresh id allowed guard s ≡ ok (c, t)
        → Step s t
    did_finish :
        (id token : String) (status : DispatchStatus) (x : RuntimeState)
        → status ≢ DispatchStatus.claimed
        → finish_dispatch id token status s ≡ ok (x, t)
        → Step s t
    did_set :
        (id : String) (from to : DispatchStatus) (x : RuntimeState)
        → to ≢ DispatchStatus.claimed
        → set_dispatch_status id from to s ≡ ok (x, t)
        → Step s t
    did_claim_compensation :
        (fresh id : String) (c : DispatchClaim)
        → claim_compensation fresh id s ≡ ok (c, t)
        → Step s t
    did_finish_compensation :
        (id token : String) (x : RuntimeState)
        → finish_compensation id token s ≡ ok (x, t)
        → Step s t
    did_resolve :
        (id : String) (state : EffectState) (check : Option String) (x : ℕ)
        → next_resolution_sequence id state check s ≡ ok (x, t)
        → Step s t

  pub data Steps (s : Store Json) : Store Json → Type 0 where
    start : Steps s s
    then_step : {t u : Store Json} → Steps s t → Step t u → Steps s u

  -- The stores that a run from the empty store reaches.
  abbrev pub Reachable : Store Json → Type 0
  Reachable t = Steps empty_store t
