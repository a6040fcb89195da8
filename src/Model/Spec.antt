-- ===== src/Model/Spec.antt =====
-- src/spec/effectSpec.ts: what a provider's specification proposes to the core.
use nyst.Base.{String, Bool, Option, List}
use nyst.Model.EffectState.{EffectState}
use nyst.Model.Control.{ControlDecision}
use nyst.Model.Evidence.{VerificationMethod, EvidenceStrength, EvidenceRecord}
use nyst.Model.Action.{ActionRecord, DispatchPlan}

-- `none` as a claimed strength is the source's "none".
pub record EffectAssessment : Type 0 where
  pub proposed_state : EffectState
  pub provider_object_refs : List String
  pub evidence_refs : List String
  pub verification_methods : List VerificationMethod
  pub claimed_strength : Option EvidenceStrength
  pub attribution_established : Bool
  pub notes : Option String
  pub assessment_next_check_at : Option String

pub record CompensationInfo : Type 0 where
  pub supported : Bool
  pub method : Option String
  pub confirming_evidence : List String

-- The documentation strings of the interface and its input schema are left out: the core never
-- reads the former, and the latter is applied before an action exists.
pub record EffectSpec (Json : Type 0) : Type 0 where
  pub effect_name : String
  pub schema_version : String
  pub semantic_fields : List String
  pub provider_idempotency_semantics : Option String
  pub prepare_dispatch : ActionRecord Json → DispatchPlan Json
  pub assess : ActionRecord Json → List (EvidenceRecord Json) → EffectAssessment
  pub retry_safe_when_not_applied : Bool
  pub goal_state_sufficient_for_continuation : Bool
  pub decide : ActionRecord Json → EffectAssessment → ControlDecision
  pub compensation : CompensationInfo
