-- ===== src/Engine/Epistemic/Support.antt =====
-- What the epistemic floors leave standing, as predicates on the final state.
use nyst.Base.{true, false, List, [], ◌∷◌, ◌≡◌, refl, any, is_empty, arith}
use nyst.Model.EffectState.{EffectState}
use nyst.Engine.Adjustment.{Adjustment}
use nyst.Engine.Ledger.{
  Evidence, is_authoritative_presence, is_proof_of_effect, is_substantive_presence,
  is_absence_proof, is_compensation_proof, is_original_effect,
}
use nyst.Engine.Epistemic.{is_contradictory, epistemic_floors}

-- How a claim may degrade.
pub data Degrades : EffectState → EffectState → Type 0 where
  kept : {s : EffectState} → Degrades s s
  unattributed : Degrades EffectState.verified EffectState.satisfied_unattributed
  unproven : {s : EffectState} → Degrades s EffectState.unprovable

module _ {Json : Type 0} (cited active : Evidence Json) where
  -- The evidence that a state needs.
  abbrev pub IsSupported : EffectState → Type 0
  IsSupported EffectState.verified =
      (any is_proof_of_effect cited ≡ true) × (is_contradictory active ≡ false)
  IsSupported EffectState.not_applied =
      (any is_absence_proof cited ≡ true) × (any is_authoritative_presence active ≡ false)
  IsSupported EffectState.pending = is_contradictory active ≡ false
  IsSupported EffectState.compensated =
      (any is_compensation_proof cited ≡ true)
      × (any is_original_effect cited ≡ true)
      × (is_contradictory active ≡ false)
  IsSupported EffectState.satisfied_unattributed =
      (any is_substantive_presence cited ≡ true) × (is_contradictory active ≡ false)
  IsSupported EffectState.unprovable = Unit

  pub epistemic-IsSupported :
      (s : EffectState) (adj : List Adjustment)
      → IsSupported (epistemic_floors cited active (s, adj)).0
  unfolding epistemic_floors
  epistemic-IsSupported EffectState.verified adj = ground arith
  epistemic-IsSupported _ adj = ground arith

  pub epistemic-Degrades :
      (s : EffectState) (adj : List Adjustment)
      → Degrades s (epistemic_floors cited active (s, adj)).0
  unfolding epistemic_floors
  epistemic-Degrades EffectState.verified adj = grind (arith, kept, unattributed, unproven)
  epistemic-Degrades _ adj = grind (arith, kept, unattributed, unproven)

  not_empty : is_empty cited ≡ true → any is_absence_proof cited ≡ false
  unfolding any
  not_empty h = empty_any cited h
    where
      empty_any : (es : Evidence Json) → is_empty es ≡ true → any is_absence_proof es ≡ false
      empty_any [] e = refl
      empty_any (x ∷ es) e = cc

  -- A supported state is kept. (The adjustments of `unprovable` may still grow.)
  pub epistemic-of-IsSupported :
      (s : EffectState) (adj : List Adjustment)
      → IsSupported s
      → (epistemic_floors cited active (s, adj)).0 ≡ s
  unfolding epistemic_floors
  epistemic-of-IsSupported EffectState.not_applied adj h = ground (arith, not_empty)
  epistemic-of-IsSupported _ adj h = ground arith
