-- ===== src/Lib.antt =====
-- Nyst decides what software may do after an action on an external provider: whether the effect
-- happened, and so whether it may retry, go on, compensate or must hold.
--
-- A specification of a provider (src/spec/effectSpec.ts) proposes a state and a decision from the
-- evidence of an action. The safety floors of the core check the proposal against the evidence
-- ledger and degrade it. The ledgers of actions, evidence, resolutions and dispatch states keep what
-- was done. The parts of this library:
--
-- - Base: lists, equality as an interface (`==` of JavaScript on the types that the source compares),
--   maps with string keys as functions, and results of operations that throw.
-- - Model: the vocabularies and records of src/model/, src/spec/effectSpec.ts and
--   src/runtime/runtimeState.ts. An enumeration has the constants of the source in its order; a
--   nullable or optional field is an `Option`. Model.Metadata is the credential test of
--   src/model/metadata.ts.
-- - Engine: src/engine/safetyFloors.ts. Ledger reads the evidence, Sanitize is `sanitizeAssessment`,
--   Epistemic the floors E0 to E4 on the state, Clamps the control floors on the decision,
--   Explanation the texts, Floors `applySafetyFloors`, and Floors.Boundary
--   `applyDispatchBoundaryFloor`. Each floor is a function from the state or decision and the
--   adjustments so far to those after it, and they are composed in the order of the source.
-- - Store: the four ledgers of src/store/memoryStore.ts (`MemoryActions`, `MemoryEvidence`,
--   `MemoryResolutions`, `MemoryRuntime`). An operation is a function of the store that returns its
--   value with the next store, or the error that is thrown. Store.Trace has any sequence of these
--   operations as a relation between stores: the mutex of the source makes each one step.
-- - Runtime: `NystRuntime` of src/runtime/nystRuntime.ts with src/runtime/registry.ts. Runtime.Exec
--   is what an asynchronous method does: a function of the world that returns a value or a failure,
--   and in both cases the world as it is then. Runtime.Host has the world (the store, a count of the
--   moments at which the runtime waited, and the calls of providers that it made) and all that the
--   runtime does not control: providers, clock, signer, faults, hooks, and `others`, what all other
--   clients of the store do while the runtime waits, which is before every call of the store, of a
--   provider or of a hook; it may also be before the clock is read or an id is drawn, so that the
--   model has more interleavings than the source, not fewer. Runtime.Lifecycle, Evidence, Dispatch,
--   Derive and Operations are its methods, Operations.Commit is `commit`, and Operations.Serve any
--   sequence of requests.
--   Runtime.Discipline, Budget, Granted and Authorized are about them all.
-- - Resolver: `createEngine` of src/engine/resolver.ts, in the same world.
-- - Outcome: src/product/outcome/invariantEngine.ts. Outcome.Facts has its records, Outcome.Selection
--   `selectFact`, Outcome.Engine `evaluateInvariant` with its quantifiers, and Outcome.Verdict
--   `combineVerdict` and `evaluateOutcome`. Since an invariant that quantifies asks each member by
--   `equals` or `exists`, the evaluation of one member is a function of its own and needs no
--   recursion. Ages are compared in milliseconds, not in fractions of seconds.
-- - Authority: Authority.Autonomy is `evaluateAutonomyLine` of src/product/authority/autonomyLine.ts:
--   the rules that cover a request, the most specific of them, and the bounds that it puts on an
--   agent that acts alone. Authority.Effective is src/product/effectiveAuthority.ts: what the runtime
--   permits, intersected with the policy of the customer, and the two predicates of the database that
--   repeat it. Authority.Canonical is `evaluateAuthority` of
--   src/product/authority/canonicalAuthority.ts: eight layers and the exceptions that a person grants.
--
-- `applySafetyFloors` calls itself when the floors changed the state, so it is modelled on fuel. Two
-- calls are enough, because the second call keeps the state that the first one settled.
--
-- What the source takes from elsewhere is a parameter: the schemas (any predicate), the canonical
-- hash, the ids that are drawn, and the order of texts by `localeCompare`. Cloning and freezing of
-- records is left out, since a value cannot be changed.
--
-- `normalizeLifecycle` has the four attempts of the source as its fuel. The ids that `newUuid` draws
-- are arbitrary texts, and a commit whose draw repeats the id of an action fails in the model.
--
-- Not modelled: the gate of a consequence, the product around them (server, workers, repositories,
-- dashboards), the provider adapters, the Postgres store, the ledger of offboarding runs, signing,
-- and the public site.
pub mod Base
pub mod Model
pub mod Engine
pub mod Store
pub mod Runtime
pub mod Resolver
pub mod Outcome
pub mod Authority
