-- ===== src/Engine/Epistemic.antt =====
-- The epistemic floors E0 to E4 of `applySafetyFloors` (src/engine/safetyFloors.ts): what may be
-- claimed. Each takes the state and the adjustments so far.
pub mod Support
use nyst.Base.{Bool, not, ◌&&◌, ◌||◌, List, [], ◌∷◌, ◌++◌, any, is_empty, ◌==◌, if◌then◌else◌}
use nyst.Model.EffectState.{EffectState, effect_state_eq}
use nyst.Engine.Adjustment.{
  Adjustment, e0_contradictory_active_evidence, e1b_unattributed_presence_degrades_to_satisfied,
  e1_verified_requires_attributed_authoritative_presence,
  e2_absence_requires_authoritative_absence_assertion,
  e2b_not_applied_contradicted_by_presence_evidence,
  e3_goal_state_requires_substantive_presence_evidence, e4_compensation_requires_confirmation,
}
use nyst.Engine.Ledger.{
  Evidence, is_authoritative_presence, is_authoritative_absence, is_attributed_presence,
  is_unattributed_presence, is_proof_of_effect, is_substantive_presence, is_absence_proof,
  is_compensation_proof, is_original_effect,
}

abbrev pub Claim : Type 0
Claim = EffectState × List Adjustment

module _ {Json : Type 0} where
  unfoldable pub is_contradictory : Evidence Json → Bool
  is_contradictory active =
      (any is_authoritative_presence active && any is_authoritative_absence active)
      || (any is_attributed_presence active && any is_unattributed_presence active)

  unfoldable pub floor_contradiction : Evidence Json → Claim → Claim
  floor_contradiction active (s, adj) =
      if not (s == EffectState.not_applied) && is_contradictory active
      then (EffectState.unprovable, adj ++ e0_contradictory_active_evidence ∷ [])
      else (s, adj)

  unfoldable pub floor_verified : Evidence Json → Claim → Claim
  floor_verified cited (s, adj) =
      if (s == EffectState.verified) && not (any is_proof_of_effect cited)
      then if any is_substantive_presence cited
        then (
          EffectState.satisfied_unattributed,
          adj ++ e1b_unattributed_presence_degrades_to_satisfied ∷ [],
        )
        else (
          EffectState.unprovable,
          adj ++ e1_verified_requires_attributed_authoritative_presence ∷ [],
        )
      else (s, adj)

  unfoldable pub floor_not_applied : Evidence Json → Evidence Json → Claim → Claim
  floor_not_applied cited active (s, adj) =
      if s == EffectState.not_applied
      then if is_empty cited || not (any is_absence_proof cited)
        then (
          EffectState.unprovable,
          adj ++ e2_absence_requires_authoritative_absence_assertion ∷ [],
        )
        else if any is_authoritative_presence active
        then (EffectState.unprovable, adj ++ e2b_not_applied_contradicted_by_presence_evidence ∷ [])
        else (s, adj)
      else (s, adj)

  unfoldable pub floor_satisfied : Evidence Json → Claim → Claim
  floor_satisfied cited (s, adj) =
      if (s == EffectState.satisfied_unattributed) && not (any is_substantive_presence cited)
      then (
        EffectState.unprovable,
        adj ++ e3_goal_state_requires_substantive_presence_evidence ∷ [],
      )
      else (s, adj)

  unfoldable pub floor_compensated : Evidence Json → Claim → Claim
  floor_compensated cited (s, adj) =
      if (s == EffectState.compensated)
        && (not (any is_compensation_proof cited) || not (any is_original_effect cited))
      then (EffectState.unprovable, adj ++ e4_compensation_requires_confirmation ∷ [])
      else (s, adj)

  -- The floors in the order of the source.
  unfoldable pub epistemic_floors : Evidence Json → Evidence Json → Claim → Claim
  unfolding floor_contradiction floor_verified floor_not_applied floor_satisfied floor_compensated
  epistemic_floors cited active claim = floor_compensated cited (
      floor_satisfied cited
        (floor_not_applied cited active (floor_verified cited (floor_contradiction active claim))))
