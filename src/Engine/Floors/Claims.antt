-- ===== src/Engine/Floors/Claims.antt =====
-- What `applySafetyFloors` (src/engine/safetyFloors.ts) claims: its state and the evidence behind it.
use mathlib.Core.List.{Memᴰ}
use nyst.Base.{
  ℕ, suc, false, some, ◌≡◌, ◌≢◌, refl, sym, ◌∙◌, ap, subst, ◌⊎◌, any-mem, mem-any, some-injective,
  arith,
}
use nyst.Model.EffectState.{EffectState}
use nyst.Model.Control.{ControlDecision}
use nyst.Model.Evidence.{
  EvidenceRecord, EvidenceStrength, EvidenceKind, EvidenceDisposition, EvidenceAttribution,
}
use nyst.Model.Spec.{EffectSpec, EffectAssessment}
use nyst.Engine.Ledger.{
  Evidence, active_evidence, is_authoritative_presence, is_authoritative_absence,
  is_attributed_presence, is_unattributed_presence, is_proof_of_effect, is_substantive_presence,
  is_absence_proof, is_compensation_proof, is_original_effect,
}
use nyst.Engine.Sanitize.Backed.{cited-active}
use nyst.Engine.Epistemic.{is_contradictory}
use nyst.Engine.Epistemic.Support.{IsSupported, Degrades}
use nyst.Engine.Floors.{FloorResult, apply_with_fuel, apply_safety_floors}
use nyst.Engine.Floors.Pass.{cited_in, pass-IsSupported, pass-Degrades}
use nyst.Engine.Floors.Result.{floor_result, apply-total, result-state, result-refs}

module _ {Json : Type 0} (spec : EffectSpec Json) (a : EffectAssessment) (d : ControlDecision)
    (es : Evidence Json) where
  -- The floors always return a result, and with fuel for two or more calls it is the same one.
  pub floors_terminate :
      (n : ℕ)
      → (r : FloorResult) × (apply_safety_floors spec a d es ≡ some r)
        × (apply_with_fuel (suc (suc n)) spec a d es ≡ some r)
  unfolding apply_safety_floors
  floors_terminate n =
      (floor_result spec es a d, apply-total spec es 0 a d, apply-total spec es n a d)

  module _ {r : FloorResult} (done : apply_safety_floors spec a d es ≡ some r) where
    pub result_lem : floor_result spec es a d ≡ r
    unfolding apply_safety_floors
    result_lem = some-injective _ _ (sym (apply-total spec es 0 a d) ∙ done)

    supported : IsSupported (cited_in a es) (active_evidence es) r.state
    supported =
        subst (IsSupported (cited_in a es) (active_evidence es))
          (sym (result-state spec a d es) ∙ ap (λ (x : FloorResult). x.state) result_lem)
          (pass-IsSupported spec a d es)

    -- A record of the ledger that no other supersedes, and that the result cites.
    abbrev pub IsCited : EvidenceRecord Json → Type 0
    IsCited e = Memᴰ e (active_evidence es) × Memᴰ e.evidence_id r.assessment.evidence_refs

    cited_lem : {e : EvidenceRecord Json} → Memᴰ e (cited_in a es) → IsCited e
    cited_lem m =
        let (active, listed) = cited-active a es m in
        (
          active,
          subst (Memᴰ _)
              (sym (result-refs spec a d es).0
                ∙ ap (λ (x : FloorResult). x.assessment.evidence_refs) result_lem)
              listed,
        )

    -- `verified` is returned only on a cited and unsuperseded record that is an authoritative read
    -- or event of the provider, observes the effect as present, and attributes it to the action.
    pub verified-evidence :
        r.state ≡ EffectState.verified
        → (e : EvidenceRecord Json) × IsCited e
          × (e.strength ≡ EvidenceStrength.authoritative)
          × ((e.kind ≡ EvidenceKind.provider_read) ⊎ (e.kind ≡ EvidenceKind.provider_event))
          × (e.observed_disposition ≡ EvidenceDisposition.effect_present)
          × (e.attribution ≡ EvidenceAttribution.attributed)
    unfolding is_proof_of_effect
    verified-evidence h =
        let (e, m, p) = any-mem is_proof_of_effect (cited_in a es) (rw h at supported).0 in
        (e, cited_lem m, ground arith, ground arith, ground arith, ground arith)

    -- `not_applied` is returned only on a cited and unsuperseded record that is an authoritative
    -- probe or read and observes the effect as absent, and only if no unsuperseded authoritative
    -- record observes it as present.
    pub not_applied-evidence :
        r.state ≡ EffectState.not_applied
        → ((e : EvidenceRecord Json) × IsCited e
            × (e.strength ≡ EvidenceStrength.authoritative)
            × ((e.kind ≡ EvidenceKind.absence_probe) ⊎ (e.kind ≡ EvidenceKind.provider_read))
            × (e.observed_disposition ≡ EvidenceDisposition.effect_absent))
          × ((e : EvidenceRecord Json)
              → Memᴰ e (active_evidence es)
              → e.strength ≡ EvidenceStrength.authoritative
              → e.observed_disposition ≢ EvidenceDisposition.effect_present)
    unfolding is_absence_proof is_authoritative_presence
    not_applied-evidence h =
        let s = rw h at supported in
        let (e, m, p) = any-mem is_absence_proof (cited_in a es) s.0 in
        (
          (e, cited_lem m, ground arith, ground arith, ground arith),
          λ c k auth here.
              cc (s.1, mem-any is_authoritative_presence (active_evidence es) k (ground arith)),
        )

    -- `satisfied_unattributed` is returned only on a cited and unsuperseded record of at least
    -- corroborative strength that observes the effect as present.
    pub satisfied-evidence :
        r.state ≡ EffectState.satisfied_unattributed
        → (e : EvidenceRecord Json) × IsCited e
          × ((e.strength ≡ EvidenceStrength.authoritative)
              ⊎ (e.strength ≡ EvidenceStrength.corroborative))
          × (e.observed_disposition ≡ EvidenceDisposition.effect_present)
    unfolding is_substantive_presence
    satisfied-evidence h =
        let (e, m, p) = any-mem is_substantive_presence (cited_in a es) (rw h at supported).0 in
        (e, cited_lem m, ground arith, ground arith)

    -- `compensated` is returned only on two cited and unsuperseded records of at least corroborative
    -- strength: a confirmation of the compensation, and a record of another kind that attributes the
    -- original effect to the action.
    pub compensated-evidence :
        r.state ≡ EffectState.compensated
        → ((e : EvidenceRecord Json) × IsCited e
            × (e.kind ≡ EvidenceKind.compensation_confirmation)
            × ((e.strength ≡ EvidenceStrength.authoritative)
                ⊎ (e.strength ≡ EvidenceStrength.corroborative)))
          × ((e : EvidenceRecord Json) × IsCited e
              × (e.kind ≢ EvidenceKind.compensation_confirmation)
              × (e.attribution ≡ EvidenceAttribution.attributed)
              × ((e.strength ≡ EvidenceStrength.authoritative)
                  ⊎ (e.strength ≡ EvidenceStrength.corroborative)))
    unfolding is_compensation_proof is_original_effect
    compensated-evidence h =
        let s = rw h at supported in
        let (e, m, p) = any-mem is_compensation_proof (cited_in a es) s.0 in
        let (c, k, q) = any-mem is_original_effect (cited_in a es) s.1 in
        (
          (e, cited_lem m, ground arith, ground arith),
          (c, cited_lem k, ground arith, ground arith, ground arith),
        )

    not_contradictory :
        r.state ≢ EffectState.unprovable
        → r.state ≢ EffectState.not_applied
        → is_contradictory (active_evidence es) ≡ false
    not_contradictory u n = split r.state supported u n
      where
        split :
            (s : EffectState)
            → IsSupported (cited_in a es) (active_evidence es) s
            → s ≢ EffectState.unprovable
            → s ≢ EffectState.not_applied
            → is_contradictory (active_evidence es) ≡ false
        split EffectState.verified h u n = h.1
        split EffectState.pending h u n = h
        split EffectState.compensated h u n = h.2
        split EffectState.satisfied_unattributed h u n = h.1
        split EffectState.unprovable h u n = absurd (u refl)
        split EffectState.not_applied h u n = absurd (n refl)

    -- A state other than `unprovable` and `not_applied` is returned only if no two unsuperseded
    -- records disagree: not two authoritative ones on the presence of the effect, nor two that
    -- observe it on its attribution.
    pub no_contradiction :
        r.state ≢ EffectState.unprovable
        → r.state ≢ EffectState.not_applied
        → (e c : EvidenceRecord Json) → Memᴰ e (active_evidence es)
        → Memᴰ c (active_evidence es)
        → ((e.strength ≡ EvidenceStrength.authoritative)
            → (c.strength ≡ EvidenceStrength.authoritative)
            → (e.observed_disposition ≡ EvidenceDisposition.effect_present)
            → c.observed_disposition ≢ EvidenceDisposition.effect_absent)
          × ((e.observed_disposition ≡ EvidenceDisposition.effect_present)
              → (c.observed_disposition ≡ EvidenceDisposition.effect_present)
              → (e.attribution ≡ EvidenceAttribution.attributed)
              → c.attribution ≢ EvidenceAttribution.unattributed)
    unfolding is_contradictory is_authoritative_presence is_authoritative_absence
        is_attributed_presence is_unattributed_presence
    no_contradiction u n e c m k =
        let active = active_evidence es in
        let calm = not_contradictory u n in
        (
          λ h₁ h₂ h₃ h₄. ground (
            arith,
            calm,
            mem-any is_authoritative_presence active m (ground arith),
            mem-any is_authoritative_absence active k (ground arith),
          ),
          λ h₁ h₂ h₃ h₄. ground (
            arith,
            calm,
            mem-any is_attributed_presence active m (ground arith),
            mem-any is_unattributed_presence active k (ground arith),
          ),
        )

    -- The floors only degrade a proposed state: they keep it, or turn `verified` into
    -- `satisfied_unattributed`, or anything into `unprovable`.
    pub floors-Degrades : Degrades a.proposed_state r.state
    floors-Degrades =
        subst (Degrades a.proposed_state)
          (sym (result-state spec a d es) ∙ ap (λ (x : FloorResult). x.state) result_lem)
          (pass-Degrades spec a d es)
