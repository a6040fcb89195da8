-- ===== src/Store/Runtime.antt =====
-- `MemoryRuntime` of src/store/memoryStore.ts: the durable ownership of dispatches. `text_lt a b`
-- stands for `a.localeCompare(b) < 0`, and the token that `newUuid` draws is an argument.
pub mod Claims
pub mod Granted
pub mod Machine
pub mod Effects
use nyst.Base.{
  ℕ, ◌+◌, String, Bool, true, false, not, ◌&&◌, ◌||◌, Option, none, some, List, includes, Map, put,
  Result, ok, err, is_some, leb, ltb, ◌==◌, string_eq, nat_eq, option_eq, if◌then◌else◌,
}
use nyst.Model.EffectState.{EffectState}
use nyst.Model.Control.{ContinuationDisposition, continuation_eq}
use nyst.Model.Resolution.{OutcomeResolution, DispatchStatus, RuntimeState, dispatch_status_eq}
use nyst.Store.{
  Store, StoreError, unknown_action, runtime_missing, stale_dispatch_claim, stale_dispatch_status,
  stale_compensation_claim,
}
use nyst.Store.Evidence.{latest_sequence}
use nyst.Store.Resolutions.{latest}

-- `DispatchGuard` of src/store/store.ts
pub record ContinuationBasis : Type 0 where
  pub source_action : String
  pub source_resolution : String
  pub source_sequence : ℕ
  pub source_evidence : ℕ

pub record DispatchGuard : Type 0 where
  pub resolution_sequence : Option ℕ
  pub evidence_sequence : Option ℕ
  pub continuation : Option ContinuationBasis

-- `DispatchClaim` of src/runtime/runtimeState.ts
pub record DispatchClaim : Type 0 where
  pub claimed : Bool
  pub token : Option String
  pub state : RuntimeState

unfoldable pub fresh_state : String → RuntimeState
fresh_state id = record {
  action_id = id;
  dispatch_status = DispatchStatus.not_started;
  dispatch_attempts = 0;
  dispatch_claim_token = none;
  compensation_claim_token = none;
  compensation_attempts = 0;
  resolution_sequence = 0;
  evidence_sequence = 0;
  next_check_at = none;
  last_effect_state = none;
}

-- A guard that names no sequence is met by any.
unfoldable pub meets : Option ℕ → ℕ → Bool
meets none n = true
meets (some m) n = n == m

-- `continuationCurrent`, once the source's state and latest resolution are read
unfoldable pub basis_current :
    ContinuationBasis → Option RuntimeState → Option OutcomeResolution → ℕ → Bool
basis_current c none newest evidence = false
basis_current c (some r) none evidence = false
basis_current c (some r) (some newest) evidence =
    (newest.resolution_id == c.source_resolution)
    && (newest.control.continuation == ContinuationDisposition.allowed)
    && (r.resolution_sequence == c.source_sequence)
    && (evidence == c.source_evidence)

unfoldable pub claimed_state : String → RuntimeState → RuntimeState
claimed_state token r = record r {
  dispatch_status = DispatchStatus.claimed;
  dispatch_claim_token = some token;
  dispatch_attempts = r.dispatch_attempts + 1;
}

module _ {Json : Type 0} where
  unfoldable pub write : String → RuntimeState → Store Json → Store Json
  write id next s = record s { runtime = put id next s.runtime }

  -- `initialize`
  unfoldable pub initialize : String → Store Json → Result StoreError (RuntimeState × Store Json)
  unfolding fresh_state write
  initialize id s = if not (is_some (s.by_id id)) then err unknown_action else elim (s.runtime id) [
    | some existing ↦ ok (existing, s)
    | none ↦ ok (fresh_state id, write id (fresh_state id) s)
  ]

  unfoldable pub with_evidence : String → RuntimeState → Store Json → RuntimeState
  unfolding latest_sequence
  with_evidence id r s = record r { evidence_sequence = latest_sequence id s }

  -- `get`
  unfoldable pub get : String → Store Json → Option RuntimeState
  unfolding with_evidence
  get id s = elim (s.runtime id) [ none ↦ none | some r ↦ some (with_evidence id r s) ]

  unfoldable pub continuation_current :
      (String → String → Bool) → Option DispatchGuard → Store Json → Bool
  unfolding basis_current latest latest_sequence
  continuation_current text_lt none s = true
  continuation_current text_lt (some g) s = elim g.continuation [
    | none ↦ true
    | some c ↦
        basis_current c (s.runtime c.source_action) (latest text_lt c.source_action s)
          (latest_sequence c.source_action s)
  ]

  unfoldable pub guard_met : String → Option DispatchGuard → RuntimeState → Store Json → Bool
  unfolding meets latest_sequence
  guard_met id none r s = true
  guard_met id (some g) r s =
      meets g.resolution_sequence r.resolution_sequence
      && meets g.evidence_sequence (latest_sequence id s)

  unfoldable pub may_claim :
      (String → String → Bool)
      → String
      → List DispatchStatus
      → Option DispatchGuard
      → RuntimeState
      → Store Json
      → Bool
  unfolding continuation_current guard_met includes
  may_claim text_lt id allowed guard r s =
      includes allowed r.dispatch_status
      && not (leb 2 r.dispatch_attempts)
      && continuation_current text_lt guard s
      && guard_met id guard r s

  -- `claimDispatch`
  unfoldable pub claim_dispatch :
      (String → String → Bool)
      → String
      → String
      → List DispatchStatus
      → Option DispatchGuard
      → Store Json
      → Result StoreError (DispatchClaim × Store Json)
  unfolding may_claim with_evidence claimed_state write
  claim_dispatch text_lt fresh id allowed guard s = elim (s.runtime id) [
    | none ↦ err runtime_missing
    | some r ↦
        if may_claim text_lt id allowed guard r s
        then ok (
          record { claimed = true; token = some fresh; state = claimed_state fresh r },
          write id (claimed_state fresh r) s,
        )
        else ok (record { claimed = false; token = none; state = with_evidence id r s }, s)
  ]

  -- `finishDispatch`: the status is not `claimed`.
  unfoldable pub finish_dispatch :
      String → String → DispatchStatus → Store Json → Result StoreError (RuntimeState × Store Json)
  unfolding write
  finish_dispatch id token status s = elim (s.runtime id) [
    | none ↦ err stale_dispatch_claim
    | some r ↦
        if (r.dispatch_status == DispatchStatus.claimed) && (r.dispatch_claim_token == some token)
        then (let next = record r { dispatch_status = status; dispatch_claim_token = none } in
            ok (next, write id next s))
        else err stale_dispatch_claim
  ]

  -- `setDispatchStatus`: the new status is not `claimed`.
  unfoldable pub set_dispatch_status :
      String
      → DispatchStatus
      → DispatchStatus
      → Store Json
      → Result StoreError (RuntimeState × Store Json)
  unfolding write
  set_dispatch_status id from to s = elim (s.runtime id) [
    | none ↦ err stale_dispatch_status
    | some r ↦
        if r.dispatch_status == from
        then (let next = record r { dispatch_status = to } in ok (next, write id next s))
        else err stale_dispatch_status
  ]

  -- `claimCompensation`
  unfoldable pub claim_compensation :
      String → String → Store Json → Result StoreError (DispatchClaim × Store Json)
  unfolding write
  claim_compensation fresh id s = elim (s.runtime id) [
    | none ↦ err runtime_missing
    | some r ↦
        if is_some r.compensation_claim_token || ltb 0 r.compensation_attempts
        then ok (record { claimed = false; token = none; state = r }, s)
        else (let next = record r {
          compensation_claim_token = some fresh;
          compensation_attempts = 1;
        } in
            ok (record { claimed = true; token = some fresh; state = next }, write id next s))
  ]

  -- `finishCompensation`
  unfoldable pub finish_compensation :
      String → String → Store Json → Result StoreError (RuntimeState × Store Json)
  unfolding write
  finish_compensation id token s = elim (s.runtime id) [
    | none ↦ err stale_compensation_claim
    | some r ↦
        if r.compensation_claim_token == some token
        then (let next = record r { compensation_claim_token = none } in ok (next, write id next s))
        else err stale_compensation_claim
  ]

  -- `nextResolutionSequence`
  unfoldable pub next_resolution_sequence :
      String → EffectState → Option String → Store Json → Result StoreError (ℕ × Store Json)
  unfolding latest_sequence write
  next_resolution_sequence id state next_check s = elim (s.runtime id) [
    | none ↦ err runtime_missing
    | some r ↦
        (let next = record r {
          resolution_sequence = r.resolution_sequence + 1;
          next_check_at = next_check;
          last_effect_state = some state;
          evidence_sequence = latest_sequence id s;
        } in
          ok (r.resolution_sequence + 1, write id next s))
  ]
