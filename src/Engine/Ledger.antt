-- ===== src/Engine/Ledger.antt =====
-- The reading of an action's evidence in src/engine/safetyFloors.ts.
pub mod Strongest
use nyst.Base.{
  String, Bool, true, false, not, ◌&&◌, ◌||◌, Option, none, some, List, [], ◌∷◌, ◌≡◌, map, any,
  filter, includes, present, ◌==◌, string_eq, if◌then◌else◌,
}
use nyst.Model.Evidence.{
  EvidenceRecord, EvidenceStrength, EvidenceKind, EvidenceDisposition, EvidenceAttribution,
  strength_eq, evidence_kind_eq, disposition_eq, attribution_eq,
}

-- The evidence ledger of one action.
abbrev pub Evidence : Type 0 → Type 0
Evidence Json = List (EvidenceRecord Json)

module _ {Json : Type 0} where
  -- The tests that the floors make on one record.
  unfoldable pub is_non_transport : EvidenceRecord Json → Bool
  is_non_transport e = not (e.strength == EvidenceStrength.transport_only)

  unfoldable pub has_strength : EvidenceStrength → EvidenceRecord Json → Bool
  has_strength s e = e.strength == s

  unfoldable pub is_authoritative_presence : EvidenceRecord Json → Bool
  is_authoritative_presence e =
      (e.strength == EvidenceStrength.authoritative)
      && (e.observed_disposition == EvidenceDisposition.effect_present)

  unfoldable pub is_authoritative_absence : EvidenceRecord Json → Bool
  is_authoritative_absence e =
      (e.strength == EvidenceStrength.authoritative)
      && (e.observed_disposition == EvidenceDisposition.effect_absent)

  unfoldable pub is_attributed_presence : EvidenceRecord Json → Bool
  is_attributed_presence e =
      (e.observed_disposition == EvidenceDisposition.effect_present)
      && (e.attribution == EvidenceAttribution.attributed)

  unfoldable pub is_unattributed_presence : EvidenceRecord Json → Bool
  is_unattributed_presence e =
      (e.observed_disposition == EvidenceDisposition.effect_present)
      && (e.attribution == EvidenceAttribution.unattributed)

  -- `attributedAuthoritativePresence`
  unfoldable pub is_proof_of_effect : EvidenceRecord Json → Bool
  is_proof_of_effect e =
      (e.strength == EvidenceStrength.authoritative)
      && ((e.kind == EvidenceKind.provider_read) || (e.kind == EvidenceKind.provider_event))
      && (e.observed_disposition == EvidenceDisposition.effect_present)
      && (e.attribution == EvidenceAttribution.attributed)

  abbrev pub is_substantive : EvidenceRecord Json → Bool
  is_substantive e =
      (e.strength == EvidenceStrength.authoritative)
      || (e.strength == EvidenceStrength.corroborative)

  -- `substantivePresence`, and `goalStateEvidence`
  unfoldable pub is_substantive_presence : EvidenceRecord Json → Bool
  is_substantive_presence e =
      is_substantive e && (e.observed_disposition == EvidenceDisposition.effect_present)

  unfoldable pub is_absence_proof : EvidenceRecord Json → Bool
  is_absence_proof e =
      (e.strength == EvidenceStrength.authoritative)
      && ((e.kind == EvidenceKind.absence_probe) || (e.kind == EvidenceKind.provider_read))
      && (e.observed_disposition == EvidenceDisposition.effect_absent)

  unfoldable pub is_compensation_proof : EvidenceRecord Json → Bool
  is_compensation_proof e = (e.kind == EvidenceKind.compensation_confirmation) && is_substantive e

  unfoldable pub is_original_effect : EvidenceRecord Json → Bool
  is_original_effect e =
      not (e.kind == EvidenceKind.compensation_confirmation)
      && (e.attribution == EvidenceAttribution.attributed)
      && is_substantive e

  -- `strongest`: `none` is the source's "none".
  unfoldable pub strongest : Evidence Json → Option EvidenceStrength
  unfolding has_strength
  strongest es =
      if any (has_strength EvidenceStrength.authoritative) es
      then some EvidenceStrength.authoritative
      else if any (has_strength EvidenceStrength.corroborative) es
      then some EvidenceStrength.corroborative
      else if any (has_strength EvidenceStrength.circumstantial) es
      then some EvidenceStrength.circumstantial
      else if any (has_strength EvidenceStrength.transport_only) es
      then some EvidenceStrength.transport_only
      else none

  -- The ids that some record of the ledger supersedes.
  unfoldable pub superseded : Evidence Json → List String
  superseded es = present (map (λ (e : EvidenceRecord Json). e.supersedes_evidence_id) es)

  unfoldable pub is_active : Evidence Json → EvidenceRecord Json → Bool
  unfolding superseded
  is_active es e = not (includes (superseded es) e.evidence_id)

  -- `activeEvidence`
  unfoldable pub active_evidence : Evidence Json → Evidence Json
  unfolding is_active
  active_evidence es = filter (is_active es) es

  -- `new Map(evidence.map((e) => [e.evidence_id, e])).get(ref)`: the last record with an id counts.
  unfoldable pub by_id : Evidence Json → String → Option (EvidenceRecord Json)
  by_id [] ref = none
  by_id (e ∷ es) ref = elim (by_id es ref) [
    | some found ↦ some found
    | none ↦ if e.evidence_id == ref then some e else none
  ]
