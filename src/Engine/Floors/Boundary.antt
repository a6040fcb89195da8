-- ===== src/Engine/Floors/Boundary.antt =====
-- `applyDispatchBoundaryFloor` of src/engine/safetyFloors.ts: the retry floor of the dispatch
-- boundary.
pub mod Laws
pub mod Safe
use Prim.Native.String
use nyst.Base.{
  ℕ, String, Bool, true, not, ◌&&◌, Option, none, some, leb, Eq, eq_by_rank, eqb, ◌≡◌, ◌↔◌, arith,
  ◌==◌, string_eq, if◌then◌else◌,
}
use nyst.Model.Control.{PrimaryDirective, RetryDisposition, ControlDecision, primary_eq, retry_eq}
use nyst.Engine.Clamps.{forbid_retry_hold}

-- What is durably known of the provider's request: `dispatch_status` of `DispatchBoundaryFacts`.
pub data SendCertainty : Type 0 where
  definitely_not_sent may_have_been_sent sent : SendCertainty

abbrev pub certainty_rank : SendCertainty → ℕ
certainty_rank SendCertainty.definitely_not_sent = 0
certainty_rank SendCertainty.may_have_been_sent = 1
certainty_rank SendCertainty.sent = 2

pub certainty_rank_iff :
    (a b : SendCertainty) → (eqb (certainty_rank a) (certainty_rank b) ≡ true) ↔ (a ≡ b)
certainty_rank_iff a b = ground arith

instance abbrev pub certainty_eq : Eq SendCertainty
certainty_eq = eq_by_rank certainty_rank certainty_rank_iff

pub record DispatchBoundaryFacts : Type 0 where
  pub dispatch_status : SendCertainty
  pub provider_idempotency_semantics : Option String
  pub dispatch_attempts : ℕ

-- `!facts.provider_idempotency_semantics`: `null` and the empty text.
unfoldable pub lacks_idempotency : Option String → Bool
lacks_idempotency none = true
lacks_idempotency (some s) = s == ""

-- The patch of both tests: the reason code and the sentence that is appended.
unfoldable pub refuse_retry : String → String → ControlDecision → ControlDecision
refuse_retry code sentence d = record (forbid_retry_hold d) {
  reason_code = code;
  explanation = String.◌++◌ d.explanation sentence;
}

unfoldable pub require_proven_not_sent : DispatchBoundaryFacts → ControlDecision → ControlDecision
unfolding refuse_retry lacks_idempotency
require_proven_not_sent facts d =
    if (d.retry == RetryDisposition.allowed)
      && lacks_idempotency facts.provider_idempotency_semantics
      && not (facts.dispatch_status == SendCertainty.definitely_not_sent)
    then refuse_retry "CORE.RUNTIME_RETRY_REQUIRES_PROVEN_NOT_SENT"
        " [core runtime adjusted: provider has no idempotency and dispatch was not proven unsent]" d
    else d

unfoldable pub require_retry_budget : DispatchBoundaryFacts → ControlDecision → ControlDecision
unfolding refuse_retry
require_retry_budget facts d =
    if leb 2 facts.dispatch_attempts && (d.retry == RetryDisposition.allowed)
    then refuse_retry "CORE.RUNTIME_RETRY_BUDGET_EXHAUSTED"
        " [core runtime adjusted: retry budget exhausted]" d
    else d

unfoldable pub apply_dispatch_boundary_floor :
    ControlDecision → DispatchBoundaryFacts → ControlDecision
unfolding require_proven_not_sent require_retry_budget
apply_dispatch_boundary_floor d facts = require_retry_budget facts (require_proven_not_sent facts d)
