-- ===== src/Engine/Sanitize.antt =====
-- `sanitizeAssessment` of src/engine/safetyFloors.ts: the specification's description of its own
-- evidence is checked against the ledger. A result type with the adjustments replaces the array
-- that the source pushes to.
pub mod Kept
pub mod Cited
pub mod Backed
use nyst.Base.{
  String, Bool, not, Option, none, some, List, [], ◌∷◌, ◌++◌, map, includes, present, Eq, string_eq,
  if◌then◌else◌,
}
use nyst.Model.EffectState.{EffectState}
use nyst.Model.Evidence.{EvidenceRecord, VerificationMethod, verification_method_eq}
use nyst.Model.Spec.{EffectAssessment}
use nyst.Engine.Adjustment.{
  Adjustment, adjustment_eq, v1_unknown_evidence_ref_dropped, v1b_superseded_evidence_ref_dropped,
  v2_unsupported_verification_method_dropped, v3_unbacked_provider_ref_dropped,
}
use nyst.Engine.Ledger.{Evidence, active_evidence, by_id}

pub record SanitizedAssessment : Type 0 where
  pub proposed_state : EffectState
  pub evidence_refs : List String
  pub verification_methods : List VerificationMethod
  pub provider_object_refs : List String
  pub attribution_established : Bool
  pub notes : Option String

module _ {ℓ} {A : Type ℓ} ⦃e : Eq A⦄ where
  -- `if (!xs.includes(a)) xs.push(a)`
  unfoldable pub push_once : A → List A → List A
  push_once a xs = if includes xs a then xs else xs ++ a ∷ []

module _ {ℓ} {A : Type ℓ} ⦃e : Eq A⦄ where
  -- The loop over the references, the methods and the provider objects: a value that is refused for
  -- a reason is dropped and the reason pushed once, any other is kept once.
  unfoldable pub keep_backed :
      (A → Option Adjustment) → List A → List A → List Adjustment → List A × List Adjustment
  keep_backed reason [] valid adjustments = (valid, adjustments)
  keep_backed reason (x ∷ xs) valid adjustments = elim (reason x) [
    | some code ↦ keep_backed reason xs valid (push_once code adjustments)
    | none ↦ keep_backed reason xs (push_once x valid) adjustments
  ]

pub record Sanitized (Json : Type 0) : Type 0 where
  pub sanitized : SanitizedAssessment
  pub cited : Evidence Json
  pub adjustments : List Adjustment

module _ {Json : Type 0} where
  unfoldable pub active_ids : Evidence Json → List String
  unfolding active_evidence
  active_ids es = map (λ (e : EvidenceRecord Json). e.evidence_id) (active_evidence es)

  -- Why a reference is dropped: it is not in the ledger, or it is superseded.
  unfoldable pub ref_reason : Evidence Json → String → Option Adjustment
  unfolding by_id active_ids
  ref_reason es ref = elim (by_id es ref) [
    | none ↦ some v1_unknown_evidence_ref_dropped
    | some found ↦
        if not (includes (active_ids es) ref)
        then some v1b_superseded_evidence_ref_dropped
        else none
  ]

  -- `validRefs.map((r) => byId.get(r)!)`
  unfoldable pub cited_records : Evidence Json → List String → Evidence Json
  cited_records es refs = present (map (by_id es) refs)

  unfoldable pub method_reason : Evidence Json → VerificationMethod → Option Adjustment
  method_reason cited m =
      if includes (map (λ (e : EvidenceRecord Json). e.verification_method) cited) m
      then none
      else some v2_unsupported_verification_method_dropped

  unfoldable pub object_reason : Evidence Json → String → Option Adjustment
  object_reason cited o =
      if includes (present (map (λ (e : EvidenceRecord Json). e.provider_object_id) cited)) o
      then none
      else some v3_unbacked_provider_ref_dropped

  unfoldable pub sanitize_assessment : EffectAssessment → Evidence Json → Sanitized Json
  sanitize_assessment a es =
      let (refs, adj_refs) = keep_backed (ref_reason es) a.evidence_refs [] [] in
      let cited = cited_records es refs in
      let (methods, adj_methods) =
        keep_backed (method_reason cited) a.verification_methods [] adj_refs in
      let (objects, adj_objects) =
        keep_backed (object_reason cited) a.provider_object_refs [] adj_methods in
      record {
        sanitized = record {
          proposed_state = a.proposed_state;
          evidence_refs = refs;
          verification_methods = methods;
          provider_object_refs = objects;
          attribution_established = a.attribution_established;
          notes = a.notes;
        };
        cited = cited;
        adjustments = adj_objects;
      }
