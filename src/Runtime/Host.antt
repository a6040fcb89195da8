-- ===== src/Runtime/Host.antt =====
-- What a `NystRuntime` of src/runtime/nystRuntime.ts works with: the store, the registry of
-- src/runtime/registry.ts, the providers of src/runtime/provider.ts and the host.
pub mod Returns
pub mod Ends
use nyst.Base.{
  ℕ, ◌+◌, String, Bool, true, false, not, Option, none, some, List, [], ◌∷◌, Map, put, Result, ok,
  err, Eq, eq_by_rank, ◌==◌, string_eq, if◌then◌else◌,
}
use nyst.Model.Evidence.{EvidenceRecord, NewEvidence, ClockAttestation, SignatureEnvelope}
use nyst.Model.Control.{ControlDecision}
use nyst.Model.Action.{ActionRecord, DispatchPlan}
use nyst.Model.Resolution.{OutcomeResolution}
use nyst.Model.Spec.{EffectSpec}
use nyst.Engine.Floors.Boundary.{SendCertainty}
use nyst.Store.{Store, StoreError}
use nyst.Store.Evidence.{append}
use nyst.Runtime.Exec.{Failure, Exec, pure, raise, or_fail, ◌>>=◌, guard}

-- `RuntimeFaultPoint` of src/runtime/provider.ts
pub data FaultPoint : Type 0 where
  after_intent_persistence after_dispatch_eligibility before_dispatch_plan : FaultPoint
  after_dispatch_plan_persistence before_dispatch_claim after_dispatch_claim : FaultPoint
  after_provider_mutation before_provider_response_delivery after_provider_response : FaultPoint
  before_evidence_persistence after_evidence_persistence before_reconciliation : FaultPoint
  after_state_derivation after_control_derivation before_resolution_signing : FaultPoint
  after_resolution_signing before_resolution_persistence after_resolution_persistence : FaultPoint

pub record DispatchResult (Json : Type 0) : Type 0 where
  pub send_certainty : SendCertainty
  pub evidence : List (NewEvidence Json)

-- `EffectRegistry`
pub record EffectRegistry (Json : Type 0) : Type 0 where
  pub versions : Map (Map (EffectSpec Json))
  pub current : Map String

-- What a request sends out to a provider.
pub data Call : Type 0 where
  dispatched : String → Call
  compensated : String → Call

-- The state of a run: the store, how many times the runtime has waited, and the calls that it made.
pub record World (Json : Type 0) : Type 0 where
  pub store : Store Json
  pub tick : ℕ
  pub calls : List Call

-- What the runtime does not control, by the moment at which it asks. `others` is what all other
-- clients of the store, in this process or another, do to it while the runtime waits; `live_owner`
-- says whether another request of this process is dispatching the action (`activeDispatches`), and
-- what its work throws, if anything. A provider that lets its `onMutation` callback throw fails with
-- that error.
pub record Host (Json : Type 0) : Type 0 where
  pub others : ℕ → Store Json → Store Json
  pub live_owner : ℕ → String → Option (Option Failure)
  pub fault : ℕ → FaultPoint → ActionRecord Json → Option Failure
  pub dispatch_eligibility : ℕ → ActionRecord Json → Option Failure
  pub establish_eligibility : ℕ → ActionRecord Json → Option Failure
  pub has_provider : String → Bool
  pub can_compensate : String → Bool
  pub provider_dispatch :
      ℕ → ActionRecord Json → DispatchPlan Json → Result Failure (DispatchResult Json)
  pub provider_observe :
      ℕ
      → ActionRecord Json
      → DispatchPlan Json
      → List (EvidenceRecord Json)
      → Result Failure (List (NewEvidence Json))
  pub provider_compensate :
      ℕ → ActionRecord Json → DispatchPlan Json → Result Failure (List (NewEvidence Json))
  pub registry : EffectRegistry Json
  pub new_id : ℕ → String
  pub now : ℕ → ClockAttestation
  pub minute_later : String → String
  pub is_date : String → Bool
  pub sign : OutcomeResolution → SignatureEnvelope
  pub action_schema : ActionRecord Json → Bool
  pub plan_schema : DispatchPlan Json → Bool
  pub evidence_schema : EvidenceRecord Json → Bool
  pub decision_schema : ControlDecision → Bool
  pub resolution_schema : OutcomeResolution → Bool
  pub parse_input : EffectSpec Json → Json → Option Json
  pub input_hash : List String → Json → Option String
  pub same_plan : DispatchPlan Json → DispatchPlan Json → Bool
  pub boundary_payload : Json
  pub detail_payload : Failure → Json
  pub text_lt : String → String → Bool
  pub hash : Json → String

unfoldable pub refusing : Option Failure → Result Failure (Unit {0})
refusing none = ok tt
refusing (some e) = err e

module _ {Json : Type 0} where
  -- `register`
  unfoldable pub register : EffectSpec Json → Bool → EffectRegistry Json → EffectRegistry Json
  register spec current r =
      let by_version : Map (EffectSpec Json) = elim (r.versions spec.effect_name) [
        | none ↦ (λ v. none)
        | some m ↦ m
      ] in
      record {
        versions = put spec.effect_name (put spec.schema_version spec by_version) r.versions;
        current = if current then put spec.effect_name spec.schema_version r.current else r.current;
      }

  -- `get`
  unfoldable pub get_spec : String → String → EffectRegistry Json → Option (EffectSpec Json)
  get_spec effect version r = elim (r.versions effect) [ none ↦ none | some m ↦ m version ]

  -- `latest`
  unfoldable pub latest_spec : String → EffectRegistry Json → Option (EffectSpec Json)
  unfolding get_spec
  latest_spec effect r = elim (r.current effect) [
    | none ↦ none
    | some version ↦ if version == "" then none else get_spec effect version r
  ]

module _ {Json : Type 0} (h : Host Json) where
  -- The runtime waits: the others go on.
  abbrev pub elapse : World Json → World Json
  elapse w = record w { store = h.others w.tick w.store; tick = w.tick + 1 }

  -- An operation of the store, as it succeeds or throws.
  unfoldable pub landed :
      {A : Type 0} → World Json → Result StoreError (A × Store Json) → Result Failure A × World Json
  landed w (err e) = (err (Failure.stored e), w)
  landed w (ok (a, t)) = (ok a, record w { store = t })

  unfoldable pub call :
      {A : Type 0} → (ℕ → Store Json → Result StoreError (A × Store Json)) → Exec (World Json) A
  unfolding landed
  call f w = let v = elapse w in landed v (f v.tick v.store)

  -- A look at the store.
  unfoldable pub read : {A : Type 0} → (Store Json → A) → Exec (World Json) A
  read f w = let v = elapse w in (ok (f v.store), v)

  -- A question to the host.
  unfoldable pub ask : {A : Type 0} → (ℕ → Result Failure A) → Exec (World Json) A
  ask f w = let v = elapse w in (f v.tick, v)

  -- A call of the provider that may change the world outside.
  unfoldable pub send : {A : Type 0} → Call → (ℕ → Result Failure A) → Exec (World Json) A
  send c f w = let v = elapse w in (f v.tick, record v { calls = c ∷ v.calls })

  -- `hit`
  unfoldable pub hit : FaultPoint → ActionRecord Json → Exec (World Json) Unit
  hit point action = ask (λ n. refusing (h.fault n point action))

  -- `assertDispatchEligibility`
  unfoldable pub assert_dispatch_eligibility : ActionRecord Json → Exec (World Json) Unit
  assert_dispatch_eligibility action = ask (λ n. refusing (h.dispatch_eligibility n action))

  -- `requireAction`
  unfoldable pub require_action : String → Exec (World Json) (ActionRecord Json)
  require_action id = read (λ s. s.by_id id) >>= or_fail Failure.unknown_action

  -- `requireProvider`
  unfoldable pub require_provider : String → Exec (World Json) Unit
  require_provider effect = guard (h.has_provider effect) Failure.no_provider

  -- `registry.get`
  unfoldable pub require_spec : ActionRecord Json → Exec (World Json) (EffectSpec Json)
  require_spec action =
      or_fail Failure.missing_effect_spec
        (get_spec action.effect_name action.spec_version h.registry)

  -- `clock.now`
  unfoldable pub ask_clock : Exec (World Json) ClockAttestation
  ask_clock = ask (λ n. ok (h.now n))

  -- `activeDispatches.get(action_id)`, which is awaited if there is one.
  unfoldable pub await_owner : String → Exec (World Json) Bool
  await_owner id = ask (λ n. elim (h.live_owner n id) [
    | none ↦ ok false
    | some none ↦ ok true
    | some (some e) ↦ err e
  ])
