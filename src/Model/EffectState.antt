-- ===== src/Model/EffectState.antt =====
-- src/model/effectState.ts: what is known about the external effect of an action.
use nyst.Base.{ℕ, Bool, true, List, [], ◌∷◌, ◌≡◌, ◌↔◌, arith, eqb, Eq, eq_by_rank, includes}

-- `EFFECT_STATES`: a closed set of six.
pub data EffectState : Type 0 where
  verified not_applied pending compensated satisfied_unattributed unprovable : EffectState

abbrev pub effect_state_rank : EffectState → ℕ
effect_state_rank EffectState.verified = 0
effect_state_rank EffectState.not_applied = 1
effect_state_rank EffectState.pending = 2
effect_state_rank EffectState.compensated = 3
effect_state_rank EffectState.satisfied_unattributed = 4
effect_state_rank EffectState.unprovable = 5

pub effect_state_rank_iff :
    (a b : EffectState) → (eqb (effect_state_rank a) (effect_state_rank b) ≡ true) ↔ (a ≡ b)
effect_state_rank_iff a b = ground arith

instance abbrev pub effect_state_eq : Eq EffectState
effect_state_eq = eq_by_rank effect_state_rank effect_state_rank_iff

-- `TERMINAL_EFFECT_STATES`
abbrev pub terminal_effect_states : List EffectState
terminal_effect_states =
    EffectState.verified ∷ EffectState.not_applied ∷ EffectState.compensated
    ∷ EffectState.satisfied_unattributed ∷ EffectState.unprovable ∷ []

-- `TERMINAL_EFFECT_STATES.includes(state)`
unfoldable pub is_terminal : EffectState → Bool
unfolding includes
is_terminal s = includes terminal_effect_states s
