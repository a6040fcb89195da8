-- ===== src/Store/Runtime/Machine.antt =====
-- The dispatch state of one action as a state machine, and the invariant of its reachable states.
use nyst.Base.{ℕ, ◌+◌, ◌<◌, ◌≤◌, String, true, Option, none, some, ◌≡◌, ◌≢◌, is_some, arith}
use nyst.Model.EffectState.{EffectState}
use nyst.Model.Resolution.{DispatchStatus, RuntimeState, dispatch_status_eq}
use nyst.Store.Runtime.{fresh_state, claimed_state}

-- What one operation does to the dispatch state of the action that it names.
pub data Move (r n : RuntimeState) : Type 0 where
  claim : (token : String) → r.dispatch_attempts < 2 → n ≡ claimed_state token r → Move r n
  finish :
      (status : DispatchStatus)
      → status ≢ DispatchStatus.claimed
      → n ≡ record r { dispatch_status = status; dispatch_claim_token = none }
      → Move r n
  set :
      (status : DispatchStatus)
      → status ≢ DispatchStatus.claimed
      → n ≡ record r { dispatch_status = status }
      → Move r n
  compensate :
      (token : String)
      → r.compensation_attempts ≡ 0
      → n ≡ record r { compensation_claim_token = some token; compensation_attempts = 1 }
      → Move r n
  compensated : n ≡ record r { compensation_claim_token = none } → Move r n
  resolve :
      (state : EffectState) (check : Option String) (evidence : ℕ)
      → n ≡ record r {
        resolution_sequence = r.resolution_sequence + 1;
        next_check_at = check;
        last_effect_state = some state;
        evidence_sequence = evidence;
      }
      → Move r n

-- A dispatch is attempted at most twice and a compensation at most once, and a claimed
-- dispatch has an owner.
pub record IsSound (r : RuntimeState) : Type 0 where
  pub budget : r.dispatch_attempts ≤ 2
  pub owned : r.dispatch_status ≡ DispatchStatus.claimed → is_some r.dispatch_claim_token ≡ true
  pub compensated_once : r.compensation_attempts ≤ 1
  pub compensation_owned : is_some r.compensation_claim_token ≡ true → r.compensation_attempts ≡ 1

pub fresh-IsSound : (id : String) → IsSound (fresh_state id)
unfolding fresh_state
fresh-IsSound id = ground arith

pub Move-IsSound : {r n : RuntimeState} → Move r n → IsSound r → IsSound n
unfolding claimed_state
Move-IsSound (claim token few e) v = ground arith
Move-IsSound (finish status u e) v = ground arith
Move-IsSound (set status u e) v = ground arith
Move-IsSound (compensate token zero_ e) v = ground arith
Move-IsSound (compensated e) v = ground arith
Move-IsSound (resolve state check evidence e) v = ground arith
