-- ===== src/Engine/Sanitize/Backed.antt =====
-- What `sanitizeAssessment` lets through (V1 to V3).
use mathlib.Core.List.{Memᴰ}
use nyst.Base.{
  present-map-mem, includes-mem, String, none, some, [], ◌≡◌, refl, sym, All-mem, includes-map,
  Option-cases, inl, inr, string_eq, arith,
}
use nyst.Model.Evidence.{EvidenceRecord, VerificationMethod, verification_method_eq}
use nyst.Model.Spec.{EffectAssessment}
use nyst.Engine.Ledger.{Evidence, active_evidence, by_id}
use nyst.Engine.Sanitize.{
  ref_reason, cited_records, method_reason, object_reason, sanitize_assessment,
}
use nyst.Engine.Sanitize.Kept.{IsKept, keep_backed-IsKept, keep_backed-of-IsKept}
use nyst.Engine.Sanitize.Cited.{ref_reason-active, cited-mem}

module _ {Json : Type 0} where
  module _ (a : EffectAssessment) (es : Evidence Json) where
    pub refs-IsKept : IsKept (ref_reason es) (sanitize_assessment a es).sanitized.evidence_refs
    unfolding sanitize_assessment
    refs-IsKept = keep_backed-IsKept (ref_reason es) a.evidence_refs [] [] (tt, tt)

    pub methods-IsKept :
        IsKept
          (method_reason (sanitize_assessment a es).cited)
          (sanitize_assessment a es).sanitized.verification_methods
    unfolding sanitize_assessment
    methods-IsKept = keep_backed-IsKept _ a.verification_methods [] _ (tt, tt)

    pub objects-IsKept :
        IsKept
          (object_reason (sanitize_assessment a es).cited)
          (sanitize_assessment a es).sanitized.provider_object_refs
    unfolding sanitize_assessment
    objects-IsKept = keep_backed-IsKept _ a.provider_object_refs [] _ (tt, tt)

    cited-records :
        (sanitize_assessment a es).cited
        ≡ cited_records es (sanitize_assessment a es).sanitized.evidence_refs
    unfolding sanitize_assessment
    cited-records = refl

    -- A cited record is an active record of the ledger, and its id is among the references.
    pub cited-active :
        {e : EvidenceRecord Json}
        → Memᴰ e (sanitize_assessment a es).cited
        → Memᴰ e (active_evidence es)
          × Memᴰ e.evidence_id (sanitize_assessment a es).sanitized.evidence_refs
    cited-active {e} m =
        let (ref, k, found) =
          cited-mem es (sanitize_assessment a es).sanitized.evidence_refs (rw cited-records at m) in
        let (active, same) =
          ref_reason-active es ref (All-mem (λ r. ref_reason es r ≡ none) _ refs-IsKept.0 k)
            found in
        (active, rw same k)

  ref_reason-found :
      (es : Evidence Json) (ref : String)
      → ref_reason es ref ≡ none
      → (e : EvidenceRecord Json) × (by_id es ref ≡ some e)
  unfolding ref_reason
  ref_reason-found es ref h = elim (Option-cases (by_id es ref)) [
    | inl missed ↦ absurd (ground arith)
    | inr found ↦ found
  ]

  module _ (a : EffectAssessment) (es : Evidence Json) where
    pub ref-active :
        (ref : String)
        → Memᴰ ref (sanitize_assessment a es).sanitized.evidence_refs
        → (e : EvidenceRecord Json) × Memᴰ e (active_evidence es) × (e.evidence_id ≡ ref)
    ref-active ref m =
        let fine = All-mem (λ r. ref_reason es r ≡ none) _ (refs-IsKept a es).0 m in
        let (e, found) = ref_reason-found es ref fine in
        let (active, same) = ref_reason-active es ref fine found in (e, active, same)

    pub method-cited :
        (m : VerificationMethod)
        → Memᴰ m (sanitize_assessment a es).sanitized.verification_methods
        → (e : EvidenceRecord Json) × Memᴰ e (sanitize_assessment a es).cited
          × (e.verification_method ≡ m)
    unfolding method_reason
    method-cited m k =
        let cited = (sanitize_assessment a es).cited in
        let fine = All-mem (λ x. method_reason cited x ≡ none) _ (methods-IsKept a es).0 k in
        includes-map (λ (e : EvidenceRecord Json). e.verification_method) cited m (ground arith)

    pub object-cited :
        (o : String)
        → Memᴰ o (sanitize_assessment a es).sanitized.provider_object_refs
        → (e : EvidenceRecord Json) × Memᴰ e (sanitize_assessment a es).cited
          × (e.provider_object_id ≡ some o)
    unfolding object_reason
    object-cited o k =
        let cited = (sanitize_assessment a es).cited in
        let fine = All-mem (λ x. object_reason cited x ≡ none) _ (objects-IsKept a es).0 k in
        present-map-mem (λ (e : EvidenceRecord Json). e.provider_object_id) cited
          (includes-mem _ o (ground arith))

  -- An assessment without refused values is sanitized to itself, and nothing is adjusted.
  sanitize-of-IsKept :
      (b : EffectAssessment) (es : Evidence Json)
      → IsKept (ref_reason es) b.evidence_refs
      → IsKept (method_reason (cited_records es b.evidence_refs)) b.verification_methods
      → IsKept (object_reason (cited_records es b.evidence_refs)) b.provider_object_refs
      → sanitize_assessment b es ≡ record {
        sanitized = record {
          proposed_state = b.proposed_state;
          evidence_refs = b.evidence_refs;
          verification_methods = b.verification_methods;
          provider_object_refs = b.provider_object_refs;
          attribution_established = b.attribution_established;
          notes = b.notes;
        };
        cited = cited_records es b.evidence_refs;
        adjustments = [];
      }
  unfolding sanitize_assessment
  sanitize-of-IsKept b es r m o = rw (keep_backed-of-IsKept _ b.evidence_refs [] r) (
      rw (keep_backed-of-IsKept _ b.verification_methods [] m)
        (rw (keep_backed-of-IsKept _ b.provider_object_refs [] o) refl))

  -- Sanitizing what was sanitized keeps it, cites the same records and adjusts nothing.
  pub sanitize-sanitized :
      (a b : EffectAssessment) (es : Evidence Json)
      → b.evidence_refs ≡ (sanitize_assessment a es).sanitized.evidence_refs
      → b.verification_methods ≡ (sanitize_assessment a es).sanitized.verification_methods
      → b.provider_object_refs ≡ (sanitize_assessment a es).sanitized.provider_object_refs
      → sanitize_assessment b es ≡ record {
        sanitized = record {
          proposed_state = b.proposed_state;
          evidence_refs = b.evidence_refs;
          verification_methods = b.verification_methods;
          provider_object_refs = b.provider_object_refs;
          attribution_established = b.attribution_established;
          notes = b.notes;
        };
        cited = (sanitize_assessment a es).cited;
        adjustments = [];
      }
  sanitize-sanitized a b es r m o =
      let same : cited_records es b.evidence_refs ≡ (sanitize_assessment a es).cited =
        rw r (sym (cited-records a es)) in
      rw (← same) (
        sanitize-of-IsKept b es (rw r (refs-IsKept a es)) (rw (same, m) (methods-IsKept a es))
          (rw (same, o) (objects-IsKept a es)))
