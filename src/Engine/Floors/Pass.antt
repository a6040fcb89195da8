-- ===== src/Engine/Floors/Pass.antt =====
-- One pass of the floors, by its parts.
use nyst.Base.{[], ◌≡◌, refl, sym, ap, subst}
use nyst.Model.EffectState.{effect_state_eq}
use nyst.Model.Control.{ControlDecision}
use nyst.Model.Spec.{EffectSpec, EffectAssessment}
use nyst.Engine.Ledger.{Evidence, active_evidence, strongest}
use nyst.Engine.Sanitize.{Sanitized, sanitize_assessment}
use nyst.Engine.Sanitize.Backed.{sanitize-sanitized}
use nyst.Engine.Epistemic.Support.{
  IsSupported, Degrades, epistemic-IsSupported, epistemic-Degrades, epistemic-of-IsSupported,
}
use nyst.Engine.Clamps.Narrows.{Narrows, control-Narrows}
use nyst.Engine.Clamps.Safe.{IsSafe, control-IsSafe}
use nyst.Engine.Floors.{floor_pass, floor_claim, strength_adjustments, reassessment}

-- The records that the sanitized assessment cites.
abbrev pub cited_in : {J : Type 0} → EffectAssessment → Evidence J → Evidence J
cited_in a es = (sanitize_assessment a es).cited

module _ {Json : Type 0} (spec : EffectSpec Json) (a : EffectAssessment) (d : ControlDecision)
    (es : Evidence Json) where
  pub pass-IsSupported :
      IsSupported (cited_in a es) (active_evidence es) (floor_pass spec a d es).state
  unfolding floor_pass floor_claim
  pass-IsSupported =
      epistemic-IsSupported (cited_in a es) (active_evidence es) a.proposed_state
        (strength_adjustments a es)

  pub pass-Degrades : Degrades a.proposed_state (floor_pass spec a d es).state
  unfolding floor_pass floor_claim
  pass-Degrades =
      epistemic-Degrades (cited_in a es) (active_evidence es) a.proposed_state
        (strength_adjustments a es)

  pub pass-IsSafe :
      IsSafe spec
        (active_evidence es)
        (floor_pass spec a d es).state
        (floor_pass spec a d es).decision
  unfolding floor_pass floor_claim
  pass-IsSafe =
      control-IsSafe spec (active_evidence es) (floor_claim a es).0 (d, (floor_claim a es).1)

  pub pass-Narrows : Narrows d (floor_pass spec a d es).decision
  unfolding floor_pass floor_claim
  pass-Narrows =
      control-Narrows spec (active_evidence es) (floor_claim a es).0 (d, (floor_claim a es).1)

  pub pass-strength : (floor_pass spec a d es).derived_strength ≡ strongest (cited_in a es)
  unfolding floor_pass floor_claim
  pass-strength = refl

  pub pass-refs :
      ((floor_pass spec a d es).assessment.evidence_refs
        ≡ (sanitize_assessment a es).sanitized.evidence_refs)
      × ((floor_pass spec a d es).assessment.verification_methods
          ≡ (sanitize_assessment a es).sanitized.verification_methods)
      × ((floor_pass spec a d es).assessment.provider_object_refs
          ≡ (sanitize_assessment a es).sanitized.provider_object_refs)
  unfolding floor_pass
  pass-refs = (refl, refl, refl)

  -- A state whose evidence is there survives the pass.
  pub pass-of-IsSupported :
      IsSupported (cited_in a es) (active_evidence es) a.proposed_state
      → (floor_pass spec a d es).state ≡ a.proposed_state
  unfolding floor_pass floor_claim
  pass-of-IsSupported h =
      epistemic-of-IsSupported (cited_in a es) (active_evidence es) a.proposed_state
        (strength_adjustments a es) h

module _ {Json : Type 0} (spec : EffectSpec Json) (es : Evidence Json) where
  -- The second run cites what the first cited, and keeps its state.
  pub rerun-sanitized :
      (a : EffectAssessment) (d : ControlDecision)
      → let b = reassessment a (floor_pass spec a d es) in
        sanitize_assessment b es ≡ record {
          sanitized = record {
            proposed_state = b.proposed_state;
            evidence_refs = b.evidence_refs;
            verification_methods = b.verification_methods;
            provider_object_refs = b.provider_object_refs;
            attribution_established = b.attribution_established;
            notes = b.notes;
          };
          cited = cited_in a es;
          adjustments = [];
        }
  unfolding floor_pass reassessment
  rerun-sanitized a d =
      sanitize-sanitized a (reassessment a (floor_pass spec a d es)) es refl refl refl

  pub rerun-cited :
      (a : EffectAssessment) (d : ControlDecision)
      → cited_in (reassessment a (floor_pass spec a d es)) es ≡ cited_in a es
  rerun-cited a d = ap (λ (s : Sanitized Json). s.cited) (rerun-sanitized a d)

  pub rerun-state :
      (a : EffectAssessment) (d d' : ControlDecision)
      → (floor_pass spec (reassessment a (floor_pass spec a d es)) d' es).state
        ≡ (floor_pass spec a d es).state
  unfolding reassessment
  rerun-state a d d' = pass-of-IsSupported spec (reassessment a (floor_pass spec a d es)) d' es (
      subst (λ c. IsSupported c (active_evidence es) (floor_pass spec a d es).state)
        (sym (rerun-cited a d)) (pass-IsSupported spec a d es))

  pub rerun-refs :
      (a : EffectAssessment) (d d' : ControlDecision)
      → let r = floor_pass spec (reassessment a (floor_pass spec a d es)) d' es in
        (r.assessment.evidence_refs ≡ (sanitize_assessment a es).sanitized.evidence_refs)
        × (r.assessment.verification_methods
            ≡ (sanitize_assessment a es).sanitized.verification_methods)
        × (r.assessment.provider_object_refs
            ≡ (sanitize_assessment a es).sanitized.provider_object_refs)
  unfolding floor_pass reassessment
  rerun-refs a d d' =
      let q = rerun-sanitized a d in
      (
        ap (λ (s : Sanitized Json). s.sanitized.evidence_refs) q,
        ap (λ (s : Sanitized Json). s.sanitized.verification_methods) q,
        ap (λ (s : Sanitized Json). s.sanitized.provider_object_refs) q,
      )
