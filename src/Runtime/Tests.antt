-- ===== src/Runtime/Tests.antt =====
-- A runtime that pays through a provider which always reports success, and a store of its own.
mod Once
pub mod Derive
mod Authorized
use Prim.Native.String
use nyst.Base.{
  ℕ, zero, suc, String, Bool, true, false, Option, some, none, List, [], ◌∷◌, ◌++◌, ◌≡◌, refl, put,
  Result, ok, err, string_eq, option_eq,
}
use nyst.Model.EffectState.{EffectState}
use nyst.Model.Internal.{InternalState}
use nyst.Model.Evidence.{NewEvidence, EvidenceRecord, SignatureEnvelope}
use nyst.Model.Action.{ActionRecord, DispatchPlan}
use nyst.Model.Spec.{EffectSpec}
use nyst.Engine.Floors.Boundary.{SendCertainty}
use nyst.Engine.Floors.Tests.{proposal, proposing}
use nyst.Store.{Store, empty_store}
use nyst.Store.Tests.{morning, no_context, plan, accepted, text_lt, hash, reply}
use nyst.Runtime.Exec.{Failure}
use nyst.Runtime.Host.{Host, World, Call, FaultPoint, DispatchResult, EffectRegistry, register}

abbrev pub payments : EffectSpec Unit
payments = record {
  effect_name = "payment.send";
  schema_version = "1";
  semantic_fields = "amount" ∷ [];
  provider_idempotency_semantics = some "key";
  prepare_dispatch = λ a. plan;
  assess = λ a es. proposing EffectState.pending [];
  retry_safe_when_not_applied = true;
  goal_state_sufficient_for_continuation = false;
  decide = λ a x. proposal;
  compensation = record { supported = true; method = some "refund"; confirming_evidence = [] };
}

abbrev pub no_registry : EffectRegistry Unit
no_registry = record { versions = λ k. none; current = λ k. none }

abbrev pub letters : ℕ → String
letters zero = "a"
letters (suc n) = String.◌++◌ "b" (letters n)

abbrev pub shop : Host Unit
shop = record {
  others = λ n s. s;
  live_owner = λ n id. none;
  fault = λ n p a. none;
  dispatch_eligibility = λ n a. none;
  establish_eligibility = λ n a. none;
  has_provider = λ e. true;
  can_compensate = λ e. true;
  provider_dispatch = λ n a p. ok (record { send_certainty = SendCertainty.sent; evidence = [] });
  provider_observe = λ n a p es. ok [];
  provider_compensate = λ n a p. ok [];
  registry = register payments true no_registry;
  new_id = letters;
  now = λ n. morning;
  minute_later = λ t. t;
  is_date = accepted;
  sign = λ r. record { key_id = "k"; signature_b64 = "c2ln" };
  action_schema = accepted;
  plan_schema = accepted;
  evidence_schema = accepted;
  decision_schema = accepted;
  resolution_schema = accepted;
  parse_input = λ spec i. some i;
  input_hash = λ fields i. some "sha256:7";
  same_plan = λ p q. true;
  boundary_payload = tt;
  detail_payload = λ e. tt;
  text_lt = text_lt;
  hash = hash;
}
