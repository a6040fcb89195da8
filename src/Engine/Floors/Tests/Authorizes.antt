-- ===== src/Engine/Floors/Tests/Authorizes.antt =====
-- What the floors authorize on small ledgers.
use mathlib.Core.List.{Memᴰ}
use nyst.Base.{string_eq, ◌↔◌, ◌<◌, String, some, none, [], ◌≡◌, ◌⊎◌}
use nyst.Model.Control.{RetryDisposition}
use nyst.Model.Evidence.{EvidenceRecord, VerificationMethod, verification_method_eq}
use nyst.Engine.Ledger.{active_evidence}
use nyst.Engine.Ledger.Strongest.{IsStrongest}
use nyst.Engine.Sanitize.Kept.{IsFresh}
use nyst.Engine.Clamps.Narrows.{Narrows}
use nyst.Engine.Clamps.Safe.{IsSafe}
use nyst.Engine.Floors.Pass.{cited_in}
use nyst.Engine.Floors.Authorizes.{
  floors-IsSafe, floors-Narrows, derived-IsStrongest, refs-backed, reports-backed,
}
use nyst.Engine.Floors.Boundary.{
  SendCertainty, DispatchBoundaryFacts, apply_dispatch_boundary_floor,
}
use nyst.Engine.Floors.Boundary.Laws.{HasIdempotency, boundary-retry_iff}
use nyst.Engine.Floors.Tests.{
  proposal, payment, result, done, paid, unpaid, reached, says_paid, says_unpaid, says_reached,
}

floors-IsSafe_example :
    IsSafe payment
      (active_evidence unpaid)
      (result says_unpaid unpaid).state
      (result says_unpaid unpaid).decision
floors-IsSafe_example = floors-IsSafe payment says_unpaid proposal unpaid (done says_unpaid unpaid)

floors-Narrows_example : Narrows proposal (result says_reached reached).decision
floors-Narrows_example =
    floors-Narrows payment says_reached proposal reached (done says_reached reached)

derived-IsStrongest_example :
    IsStrongest (cited_in says_paid paid) (result says_paid paid).derived_strength
derived-IsStrongest_example =
    derived-IsStrongest payment says_paid proposal paid (done says_paid paid)

refs-backed_example :
    IsFresh [] (result says_paid paid).assessment.evidence_refs
    × ((ref : String)
        → Memᴰ ref (result says_paid paid).assessment.evidence_refs
        → (e : EvidenceRecord Unit) × Memᴰ e (active_evidence paid) × (e.evidence_id ≡ ref))
refs-backed_example = refs-backed payment says_paid proposal paid (done says_paid paid)

reports-backed_example :
    IsFresh [] (result says_paid paid).assessment.verification_methods
    × IsFresh [] (result says_paid paid).assessment.provider_object_refs
    × ((m : VerificationMethod)
        → Memᴰ m (result says_paid paid).assessment.verification_methods
        → (e : EvidenceRecord Unit) × Memᴰ e (active_evidence paid)
          × Memᴰ e.evidence_id (result says_paid paid).assessment.evidence_refs
          × (e.verification_method ≡ m))
    × ((o : String)
        → Memᴰ o (result says_paid paid).assessment.provider_object_refs
        → (e : EvidenceRecord Unit) × Memᴰ e (active_evidence paid)
          × Memᴰ e.evidence_id (result says_paid paid).assessment.evidence_refs
          × (e.provider_object_id ≡ some o))
reports-backed_example = reports-backed payment says_paid proposal paid (done says_paid paid)

-- Sent without idempotency, once.
abbrev sent_once : DispatchBoundaryFacts
sent_once = record {
  dispatch_status = SendCertainty.sent;
  provider_idempotency_semantics = none;
  dispatch_attempts = 1;
}

boundary-retry_iff_example :
    (((apply_dispatch_boundary_floor proposal sent_once).retry ≡ RetryDisposition.allowed) ↔ (
      (proposal.retry ≡ RetryDisposition.allowed)
      × (HasIdempotency none ⊎ (SendCertainty.sent ≡ SendCertainty.definitely_not_sent))
      × (1 < 2)))
    × ((apply_dispatch_boundary_floor proposal sent_once).retry ≡ RetryDisposition.allowed
        → apply_dispatch_boundary_floor proposal sent_once ≡ proposal)
boundary-retry_iff_example = boundary-retry_iff proposal sent_once
