-- ===== src/Store.antt =====
-- src/store/memoryStore.ts: the state that its four ledgers keep, and their errors. The store of the
-- offboarding runs is left out. The records of the in-memory store are frozen, so a value stands for
-- a shared object; its mutex makes every operation one step.
pub mod Actions
pub mod Evidence
pub mod Resolutions
pub mod Runtime
pub mod Trace
pub mod Tests
use nyst.Base.{String, List, Map, none, Result}
use nyst.Model.Action.{ActionRecord}
use nyst.Model.Evidence.{EvidenceRecord}
use nyst.Model.Resolution.{OutcomeResolution, RuntimeState}

-- The errors that the operations throw.
pub data StoreError : Type 0 where
  raw_credential input_collision malformed_record : StoreError
  unknown_action stale_transition illegal_transition no_dispatch_plan : StoreError
  unknown_superseded duplicate_resolution duplicate_sequence : StoreError
  runtime_missing stale_dispatch_claim stale_dispatch_status stale_compensation_claim : StoreError

-- The maps of `MemoryActions`, `MemoryEvidence`, `MemoryResolutions` and `MemoryRuntime`.
pub record Store (Json : Type 0) : Type 0 where
  pub by_id : Map (ActionRecord Json)
  pub by_identity : Map String
  pub evidence : Map (List (EvidenceRecord Json))
  pub resolutions : Map (List OutcomeResolution)
  pub runtime : Map RuntimeState

-- `createMemoryStore`
unfoldable pub empty_store : {Json : Type 0} → Store Json
empty_store = record {
  by_id = λ k. none;
  by_identity = λ k. none;
  evidence = λ k. none;
  resolutions = λ k. none;
  runtime = λ k. none;
}
