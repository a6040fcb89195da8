-- ===== src/Engine/Floors/Authorizes.antt =====
-- What `applySafetyFloors` (src/engine/safetyFloors.ts) authorizes, reports and explains.
use mathlib.Core.List.{Memᴰ}
use nyst.Base.{String, some, [], ◌≡◌, sym, ◌∙◌, ap, subst, string_eq}
use nyst.Model.EffectState.{effect_state_eq}
use nyst.Model.Control.{ControlDecision}
use nyst.Model.Evidence.{EvidenceRecord, VerificationMethod, verification_method_eq}
use nyst.Model.Spec.{EffectSpec, EffectAssessment}
use nyst.Engine.Adjustment.{adjustment_eq}
use nyst.Engine.Ledger.{Evidence, active_evidence}
use nyst.Engine.Ledger.Strongest.{IsStrongest, strongest-IsStrongest}
use nyst.Engine.Sanitize.{sanitize_assessment}
use nyst.Engine.Sanitize.Kept.{IsFresh}
use nyst.Engine.Sanitize.Backed.{
  refs-IsKept, methods-IsKept, objects-IsKept, cited-active, ref-active, method-cited, object-cited,
}
use nyst.Engine.Clamps.Narrows.{Narrows}
use nyst.Engine.Clamps.Safe.{IsSafe}
use nyst.Engine.Floors.{FloorResult, apply_safety_floors}
use nyst.Engine.Floors.Pass.{cited_in, pass-strength}
use nyst.Engine.Floors.Result.{result-refs, result-IsSafe, result-Narrows, result-strength}
use nyst.Engine.Floors.Claims.{result_lem}

module _ {Json : Type 0} (spec : EffectSpec Json) (a : EffectAssessment) (d : ControlDecision)
    (es : Evidence Json) {r : FloorResult} (done : apply_safety_floors spec a d es ≡ some r) where
  -- The returned decision meets every control floor for the returned state: what the state permits, no
  -- retry on transport evidence alone or on none, no unsupported compensation, a primary
  -- `retry` or `continue` only where retry is allowed or continuation is not blocked, and no
  -- recheck time unless `pending`.
  pub floors-IsSafe : IsSafe spec (active_evidence es) r.state r.decision
  floors-IsSafe =
      subst (λ (x : FloorResult). IsSafe spec (active_evidence es) x.state x.decision)
        (result_lem spec a d es done) (result-IsSafe spec a d es)

  -- The floors add no authority: retry, continuation, a primary `retry` or `compensate` and a
  -- recovery by compensation stand in the result only if the specification proposed them.
  pub floors-Narrows : Narrows d r.decision
  floors-Narrows =
      subst (λ (x : FloorResult). Narrows d x.decision) (result_lem spec a d es done)
        (result-Narrows spec a d es)

  -- The reported strength is that of the strongest cited record, and `none` if nothing is cited;
  -- whatever strength the specification claims.
  pub derived-IsStrongest : IsStrongest (cited_in a es) r.derived_strength
  derived-IsStrongest =
      subst (IsStrongest (cited_in a es))
        (sym (result-strength spec a d es ∙ pass-strength spec a d es)
          ∙ ap (λ (x : FloorResult). x.derived_strength) (result_lem spec a d es done))
        (strongest-IsStrongest (cited_in a es))

  kept_refs :
      (r.assessment.evidence_refs ≡ (sanitize_assessment a es).sanitized.evidence_refs)
      × (r.assessment.verification_methods
          ≡ (sanitize_assessment a es).sanitized.verification_methods)
      × (r.assessment.provider_object_refs
          ≡ (sanitize_assessment a es).sanitized.provider_object_refs)
  kept_refs = rw (← result_lem spec a d es done) (result-refs spec a d es)

  -- The result cites no reference twice, and each one is the id of an unsuperseded record of the
  -- ledger (V1).
  pub refs-backed :
      IsFresh [] r.assessment.evidence_refs
      × ((ref : String)
          → Memᴰ ref r.assessment.evidence_refs
          → (e : EvidenceRecord Json) × Memᴰ e (active_evidence es) × (e.evidence_id ≡ ref))
  refs-backed = rw kept_refs.0 ((refs-IsKept a es).1, ref-active a es)

  -- The result reports no method and no provider object twice, and each stands on a record that it
  -- cites and that no other supersedes (V2, V3).
  pub reports-backed :
      IsFresh [] r.assessment.verification_methods
      × IsFresh [] r.assessment.provider_object_refs
      × ((m : VerificationMethod)
          → Memᴰ m r.assessment.verification_methods
          → (e : EvidenceRecord Json) × Memᴰ e (active_evidence es)
            × Memᴰ e.evidence_id r.assessment.evidence_refs
            × (e.verification_method ≡ m))
      × ((o : String)
          → Memᴰ o r.assessment.provider_object_refs
          → (e : EvidenceRecord Json) × Memᴰ e (active_evidence es)
            × Memᴰ e.evidence_id r.assessment.evidence_refs
            × (e.provider_object_id ≡ some o))
  reports-backed =
      rw (kept_refs.0, kept_refs.1, kept_refs.2)
        (
          (methods-IsKept a es).1,
          (objects-IsKept a es).1,
          λ m k.
              let (e, c, q) = method-cited a es m k in
              let (active, listed) = cited-active a es c in (e, active, listed, q),
          λ o k.
              let (e, c, q) = object-cited a es o k in
              let (active, listed) = cited-active a es c in (e, active, listed, q),
        )
