-- ===== src/Model/Action.antt =====
-- src/model/action.ts and src/model/metadata.ts: one logical action and its execution identity.
-- `Json` stands for the `unknown` values that the core stores and hands on.
use nyst.Base.{ℕ, String, Bool, Option}
use nyst.Model.Evidence.{ClockAttestation}
use nyst.Model.Internal.{InternalState}

pub record ApprovalMetadata : Type 0 where
  pub required : Bool
  pub fired : Bool
  pub reference : Option String

pub record ActionContext : Type 0 where
  pub value_minor_units : Option ℕ
  pub value_currency : Option String
  pub risk_magnitude : Option String
  pub workload_id : Option String
  pub workload_version : Option String
  pub model_identity : Option String
  pub model_config_hash : Option String
  pub credential_ref : Option String
  pub approval : ApprovalMetadata

pub record DispatchPlan (Json : Type 0) : Type 0 where
  pub correlation_method : String
  pub correlation_value : String
  pub idempotency_key : Option String
  pub description : String
  pub provider : Option String
  pub operation : Option String
  pub api_version : Option String
  pub plan_credential_ref : Option String
  pub target : Option Json

pub record ActionRecord (Json : Type 0) : Type 0 where
  pub action_id : String
  pub effect_name : String
  pub business_key : String
  pub input_hash : String
  pub input : Json
  pub spec_version : String
  pub internal_state : InternalState
  pub dispatch_plan : Option (DispatchPlan Json)
  pub context : ActionContext
  pub created_at : String
  pub created_clock : ClockAttestation
