-- ===== src/Engine/Floors/Tests/Claims.antt =====
-- What the floors claim on small ledgers.
use mathlib.Core.List.{Memᴰ}
use nyst.Base.{string_eq, filter, includes, present, some, ◌≡◌, ◌≢◌, refl, ◌⊎◌}
use nyst.Model.EffectState.{EffectState}
use nyst.Model.Evidence.{
  EvidenceRecord, EvidenceStrength, EvidenceKind, EvidenceDisposition, EvidenceAttribution,
  verification_method_eq,
}
use nyst.Engine.Ledger.{active_evidence, superseded}
use nyst.Engine.Epistemic.Support.{Degrades}
use nyst.Engine.Floors.{FloorResult, apply_with_fuel, apply_safety_floors}
use nyst.Engine.Floors.Claims.{
  floors_terminate, IsCited, verified-evidence, not_applied-evidence, satisfied-evidence,
  compensated-evidence, no_contradiction, floors-Degrades,
}
use nyst.Engine.Floors.Tests.{
  read_present, proposal, payment, result, done, paid, unpaid, reached, repaid, says_paid,
  says_paid_state, says_unpaid, says_unpaid_state, says_reached, says_reached_state, says_repaid,
  says_repaid_state,
}

floors_terminate_example :
    (r : FloorResult) × (apply_safety_floors payment says_paid proposal paid ≡ some r)
    × (apply_with_fuel 7 payment says_paid proposal paid ≡ some r)
floors_terminate_example = floors_terminate payment says_paid proposal paid 5

verified-evidence_example :
    (e : EvidenceRecord Unit) × IsCited payment says_paid proposal paid (done says_paid paid) e
    × (e.strength ≡ EvidenceStrength.authoritative)
    × ((e.kind ≡ EvidenceKind.provider_read) ⊎ (e.kind ≡ EvidenceKind.provider_event))
    × (e.observed_disposition ≡ EvidenceDisposition.effect_present)
    × (e.attribution ≡ EvidenceAttribution.attributed)
verified-evidence_example =
    verified-evidence payment says_paid proposal paid (done says_paid paid) says_paid_state

not_applied-evidence_example :
    ((e : EvidenceRecord Unit) × IsCited payment says_unpaid proposal unpaid
        (done says_unpaid unpaid)
        e
      × (e.strength ≡ EvidenceStrength.authoritative)
      × ((e.kind ≡ EvidenceKind.absence_probe) ⊎ (e.kind ≡ EvidenceKind.provider_read))
      × (e.observed_disposition ≡ EvidenceDisposition.effect_absent))
    × ((e : EvidenceRecord Unit)
        → Memᴰ e (active_evidence unpaid)
        → e.strength ≡ EvidenceStrength.authoritative
        → e.observed_disposition ≢ EvidenceDisposition.effect_present)
not_applied-evidence_example =
    not_applied-evidence payment says_unpaid proposal unpaid (done says_unpaid unpaid)
      says_unpaid_state

satisfied-evidence_example :
    (e : EvidenceRecord Unit) × IsCited payment says_reached proposal reached
      (done says_reached reached)
      e
    × ((e.strength ≡ EvidenceStrength.authoritative)
        ⊎ (e.strength ≡ EvidenceStrength.corroborative))
    × (e.observed_disposition ≡ EvidenceDisposition.effect_present)
satisfied-evidence_example =
    satisfied-evidence payment says_reached proposal reached (done says_reached reached)
      says_reached_state

compensated-evidence_example :
    ((e : EvidenceRecord Unit) × IsCited payment says_repaid proposal repaid
        (done says_repaid repaid)
        e
      × (e.kind ≡ EvidenceKind.compensation_confirmation)
      × ((e.strength ≡ EvidenceStrength.authoritative)
          ⊎ (e.strength ≡ EvidenceStrength.corroborative)))
    × ((e : EvidenceRecord Unit) × IsCited payment says_repaid proposal repaid
          (done says_repaid repaid)
          e
        × (e.kind ≢ EvidenceKind.compensation_confirmation)
        × (e.attribution ≡ EvidenceAttribution.attributed)
        × ((e.strength ≡ EvidenceStrength.authoritative)
            ⊎ (e.strength ≡ EvidenceStrength.corroborative)))
compensated-evidence_example =
    compensated-evidence payment says_repaid proposal repaid (done says_repaid repaid)
      says_repaid_state

in_paid : Memᴰ read_present (active_evidence paid)
unfolding active_evidence superseded filter includes present
in_paid = Memᴰ.tail (Memᴰ.head refl)

paid_not_unprovable : (result says_paid paid).state ≢ EffectState.unprovable
paid_not_unprovable h = cc (h, says_paid_state)

paid_not_not_applied : (result says_paid paid).state ≢ EffectState.not_applied
paid_not_not_applied h = cc (h, says_paid_state)

no_contradiction_example :
    ((read_present.strength ≡ EvidenceStrength.authoritative)
      → (read_present.strength ≡ EvidenceStrength.authoritative)
      → (read_present.observed_disposition ≡ EvidenceDisposition.effect_present)
      → read_present.observed_disposition ≢ EvidenceDisposition.effect_absent)
    × ((read_present.observed_disposition ≡ EvidenceDisposition.effect_present)
        → (read_present.observed_disposition ≡ EvidenceDisposition.effect_present)
        → (read_present.attribution ≡ EvidenceAttribution.attributed)
        → read_present.attribution ≢ EvidenceAttribution.unattributed)
no_contradiction_example =
    no_contradiction payment says_paid proposal paid (done says_paid paid) paid_not_unprovable
      paid_not_not_applied read_present read_present in_paid in_paid

floors-Degrades_example : Degrades EffectState.verified (result says_paid unpaid).state
floors-Degrades_example = floors-Degrades payment says_paid proposal unpaid (done says_paid unpaid)
