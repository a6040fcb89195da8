-- ===== src/Model/Internal.antt =====
-- src/model/internalState.ts: the lifecycle of one logical action inside the program.
use nyst.Base.{ℕ, Bool, true, List, [], ◌∷◌, ◌≡◌, ◌↔◌, arith, eqb, Eq, eq_by_rank, includes}

-- `INTERNAL_STATES`
pub data InternalState : Type 0 where
  intent_recorded prepared dispatching observing reconciling resolved abandoned_before_dispatch :
      InternalState

abbrev pub internal_state_rank : InternalState → ℕ
internal_state_rank InternalState.intent_recorded = 0
internal_state_rank InternalState.prepared = 1
internal_state_rank InternalState.dispatching = 2
internal_state_rank InternalState.observing = 3
internal_state_rank InternalState.reconciling = 4
internal_state_rank InternalState.resolved = 5
internal_state_rank InternalState.abandoned_before_dispatch = 6

pub internal_state_rank_iff :
    (a b : InternalState) → (eqb (internal_state_rank a) (internal_state_rank b) ≡ true) ↔ (a ≡ b)
internal_state_rank_iff a b = ground arith

instance abbrev pub internal_state_eq : Eq InternalState
internal_state_eq = eq_by_rank internal_state_rank internal_state_rank_iff

-- `LEGAL`, which `legalNextStates` reads.
unfoldable pub legal_next_states : InternalState → List InternalState
legal_next_states InternalState.intent_recorded =
    InternalState.prepared ∷ InternalState.abandoned_before_dispatch ∷ []
legal_next_states InternalState.prepared =
    InternalState.dispatching ∷ InternalState.abandoned_before_dispatch ∷ []
legal_next_states InternalState.dispatching = InternalState.observing ∷ []
legal_next_states InternalState.observing = InternalState.reconciling ∷ []
legal_next_states InternalState.reconciling = InternalState.observing ∷ InternalState.resolved ∷ []
legal_next_states InternalState.resolved = []
legal_next_states InternalState.abandoned_before_dispatch = []

-- `assertTransition` throws unless this holds.
unfoldable pub is_legal : InternalState → InternalState → Bool
unfolding legal_next_states includes
is_legal from to = includes (legal_next_states from) to
