-- ===== src/Model/Control.antt =====
-- src/model/controlDecision.ts: what software may do next.
use nyst.Base.{ℕ, true, String, Option, ◌≡◌, ◌↔◌, arith, eqb, Eq, eq_by_rank}

-- `PRIMARY_DIRECTIVES`
pub data PrimaryDirective : Type 0 where
  continue retry do_not_retry hold compensate escalate : PrimaryDirective

abbrev pub primary_rank : PrimaryDirective → ℕ
primary_rank PrimaryDirective.continue = 0
primary_rank PrimaryDirective.retry = 1
primary_rank PrimaryDirective.do_not_retry = 2
primary_rank PrimaryDirective.hold = 3
primary_rank PrimaryDirective.compensate = 4
primary_rank PrimaryDirective.escalate = 5

pub primary_rank_iff :
    (a b : PrimaryDirective) → (eqb (primary_rank a) (primary_rank b) ≡ true) ↔ (a ≡ b)
primary_rank_iff a b = ground arith

instance abbrev pub primary_eq : Eq PrimaryDirective
primary_eq = eq_by_rank primary_rank primary_rank_iff

-- `RETRY_DISPOSITIONS`
pub data RetryDisposition : Type 0 where
  allowed forbidden unknown : RetryDisposition

abbrev pub retry_rank : RetryDisposition → ℕ
retry_rank RetryDisposition.allowed = 0
retry_rank RetryDisposition.forbidden = 1
retry_rank RetryDisposition.unknown = 2

pub retry_rank_iff : (a b : RetryDisposition) → (eqb (retry_rank a) (retry_rank b) ≡ true) ↔ (a ≡ b)
retry_rank_iff a b = ground arith

instance abbrev pub retry_eq : Eq RetryDisposition
retry_eq = eq_by_rank retry_rank retry_rank_iff

-- `CONTINUATION_DISPOSITIONS`
pub data ContinuationDisposition : Type 0 where
  allowed blocked conditional : ContinuationDisposition

abbrev pub continuation_rank : ContinuationDisposition → ℕ
continuation_rank ContinuationDisposition.allowed = 0
continuation_rank ContinuationDisposition.blocked = 1
continuation_rank ContinuationDisposition.conditional = 2

pub continuation_rank_iff :
    (a b : ContinuationDisposition)
    → (eqb (continuation_rank a) (continuation_rank b) ≡ true) ↔ (a ≡ b)
continuation_rank_iff a b = ground arith

instance abbrev pub continuation_eq : Eq ContinuationDisposition
continuation_eq = eq_by_rank continuation_rank continuation_rank_iff

-- `RECOVERY_DISPOSITIONS`
pub data RecoveryDisposition : Type 0 where
  none compensate escalate : RecoveryDisposition

abbrev pub recovery_rank : RecoveryDisposition → ℕ
recovery_rank RecoveryDisposition.none = 0
recovery_rank RecoveryDisposition.compensate = 1
recovery_rank RecoveryDisposition.escalate = 2

pub recovery_rank_iff :
    (a b : RecoveryDisposition) → (eqb (recovery_rank a) (recovery_rank b) ≡ true) ↔ (a ≡ b)
recovery_rank_iff a b = ground arith

instance abbrev pub recovery_eq : Eq RecoveryDisposition
recovery_eq = eq_by_rank recovery_rank recovery_rank_iff

pub record ControlDecision : Type 0 where
  pub decision_version : ℕ
  pub primary : PrimaryDirective
  pub retry : RetryDisposition
  pub continuation : ContinuationDisposition
  pub recovery : RecoveryDisposition
  pub reason_code : String
  pub explanation : String
  pub next_check_at : Option String
  pub policy_version : String
  pub spec_version : String
