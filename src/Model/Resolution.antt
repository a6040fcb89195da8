-- ===== src/Model/Resolution.antt =====
-- src/model/resolution.ts and src/runtime/runtimeState.ts: the receipt of a reconciliation, and the
-- durable dispatch state of an action.
use nyst.Base.{ℕ, true, String, Option, List, ◌≡◌, ◌↔◌, arith, eqb, Eq, eq_by_rank}
use nyst.Model.EffectState.{EffectState}
use nyst.Model.Control.{ControlDecision}
use nyst.Model.Evidence.{EvidenceStrength, VerificationMethod, ClockAttestation, SignatureEnvelope}
use nyst.Model.Action.{ActionContext}

-- The durable ordering of a resolution: its own sequence and that of the evidence it rests on.
pub record ResolutionBasis : Type 0 where
  pub resolution_sequence : ℕ
  pub evidence_sequence : ℕ

pub record OutcomeResolution : Type 0 where
  pub resolution_version : ℕ
  pub resolution_id : String
  pub action_id : String
  pub effect_name : String
  pub business_key : String
  pub input_hash : String
  pub state : EffectState
  pub provider_object_refs : List String
  pub evidence_refs : List String
  pub verification_methods : List VerificationMethod
  pub evidence_strength : Option EvidenceStrength
  pub control : ControlDecision
  pub context : ActionContext
  pub basis : Option ResolutionBasis
  pub created_at : String
  pub resolved_at : String
  pub clock : ClockAttestation
  pub signature : Option SignatureEnvelope

-- `DISPATCH_STATUSES`
pub data DispatchStatus : Type 0 where
  not_started claimed attempted definitely_not_sent : DispatchStatus

abbrev pub dispatch_status_rank : DispatchStatus → ℕ
dispatch_status_rank DispatchStatus.not_started = 0
dispatch_status_rank DispatchStatus.claimed = 1
dispatch_status_rank DispatchStatus.attempted = 2
dispatch_status_rank DispatchStatus.definitely_not_sent = 3

pub dispatch_status_rank_iff :
    (a b : DispatchStatus)
    → (eqb (dispatch_status_rank a) (dispatch_status_rank b) ≡ true) ↔ (a ≡ b)
dispatch_status_rank_iff a b = ground arith

instance abbrev pub dispatch_status_eq : Eq DispatchStatus
dispatch_status_eq = eq_by_rank dispatch_status_rank dispatch_status_rank_iff

pub record RuntimeState : Type 0 where
  pub action_id : String
  pub dispatch_status : DispatchStatus
  pub dispatch_attempts : ℕ
  pub dispatch_claim_token : Option String
  pub compensation_claim_token : Option String
  pub compensation_attempts : ℕ
  pub resolution_sequence : ℕ
  pub evidence_sequence : ℕ
  pub next_check_at : Option String
  pub last_effect_state : Option EffectState
