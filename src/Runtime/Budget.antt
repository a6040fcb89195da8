-- ===== src/Runtime/Budget.antt =====
-- How often an action was claimed for its provider, which the store counts, and how often it was
-- sent, which the store cannot see.
pub mod Claims
pub mod Once
use nyst.Base.{
  ℕ, suc, ◌+◌, ◌≤◌, String, Bool, true, false, Option, none, some, List, [], ◌∷◌, ◌≡◌, refl, sym,
  ap, ◌∙◌, subst, inl, inr, Map, put, put_self, put_other, ok, Bool-cases, Option-cases, arith,
  ◌==◌, ==_iff, string_eq, if◌then◌else◌,
}
use nyst.Model.Action.{ActionRecord}
use nyst.Model.Evidence.{NewEvidence, EvidenceRecord}
use nyst.Model.Resolution.{DispatchStatus, RuntimeState}
use nyst.Store.{Store, StoreError}
use nyst.Store.Actions.{NewActionIntent, Recorded}
use nyst.Store.Actions.Lifecycle.{Advanced, transition-Advanced, prepare-Advanced}
use nyst.Store.Actions.Identity.{Outcome, replayed, created, record_intent-Outcome}
use nyst.Store.Evidence.AppendOnly.{Appended, known, added, append-Appended}
use nyst.Store.Resolutions.Distinct.{save-Saved}
use nyst.Store.Runtime.{
  DispatchGuard, DispatchClaim, fresh_state, claimed_state, write, claim_dispatch,
  claim_compensation,
}
use nyst.Store.Runtime.Claims.{claim_dispatch_lem}
use nyst.Store.Runtime.Machine.{Move, claim, finish, set, compensate, compensated, resolve}
use nyst.Store.Runtime.Effects.{
  Effect, unchanged, began, moved, initialize-Effect, claim_dispatch-Effect, finish_dispatch-Effect,
  set_dispatch_status-Effect, claim_compensation-Effect, finish_compensation-Effect,
  next_resolution_sequence-Effect,
}
use nyst.Store.Trace.{
  Step, did_record, did_transition, did_prepare, did_append, did_save, did_initialize, did_claim,
  did_finish, did_set, did_claim_compensation, did_finish_compensation, did_resolve, Steps, start,
  then_step,
}
use nyst.Runtime.Host.{Call}

abbrev pub same_call : Call → Call → Bool
same_call (Call.dispatched i) (Call.dispatched j) = i == j
same_call (Call.compensated i) (Call.compensated j) = i == j
same_call _ _ = false

-- How often a call was made.
unfoldable pub made : Call → List Call → ℕ
made c [] = 0
made c (d ∷ cs) = let rest = made c cs in if same_call d c then suc rest else rest

-- The action that a call is about, and the claims that its dispatch state has counted for it.
abbrev pub subject : Call → String
subject (Call.dispatched id) = id
subject (Call.compensated id) = id

abbrev pub spent : Call → RuntimeState → ℕ
spent (Call.dispatched id) r = r.dispatch_attempts
spent (Call.compensated id) r = r.compensation_attempts

abbrev pub spent_of : Call → Option RuntimeState → ℕ
spent_of c none = 0
spent_of c (some r) = spent c r

unfoldable pub account : {Json : Type 0} → Call → Store Json → ℕ
account c s = spent_of c (s.runtime (subject c))

-- No move takes a claim back.
spent-Move : (c : Call) (r n : RuntimeState) → Move r n → spent c r ≤ spent c n
unfolding claimed_state
spent-Move (Call.dispatched id) r n (claim token few e) = ground arith
spent-Move (Call.dispatched id) r n (finish status u e) = ground arith
spent-Move (Call.dispatched id) r n (set status u e) = ground arith
spent-Move (Call.dispatched id) r n (compensate token zero_ e) = ground arith
spent-Move (Call.dispatched id) r n (compensated e) = ground arith
spent-Move (Call.dispatched id) r n (resolve state check evidence e) = ground arith
spent-Move (Call.compensated id) r n (claim token few e) = ground arith
spent-Move (Call.compensated id) r n (finish status u e) = ground arith
spent-Move (Call.compensated id) r n (set status u e) = ground arith
spent-Move (Call.compensated id) r n (compensate token zero_ e) = ground arith
spent-Move (Call.compensated id) r n (compensated e) = ground arith
spent-Move (Call.compensated id) r n (resolve state check evidence e) = ground arith

module _ {Json : Type 0} (c : Call) (s : Store Json) where
  -- A dispatch state is written.
  pub account-write :
      (id : String) (n : RuntimeState)
      → spent_of c (s.runtime id) ≤ spent c n
      → account c s ≤ account c (write id n s)
  unfolding account write
  account-write id n more = elim (Bool-cases (id == subject c)) [
    | inl here ↦
        let p : id ≡ subject c = (==_iff id (subject c)).0 here in
        let q : put id n s.runtime (subject c) ≡ some n =
          subst (λ k. put id n s.runtime k ≡ some n) p (put_self id n s.runtime) in
        rw q (subst (λ k. spent_of c (s.runtime k) ≤ spent c n) p more)
    | inr other ↦ rw (put_other id n s.runtime (subject c) other) (omega arith)
  ]

  account-Effect : (id : String) (t : Store Json) → Effect id s t → account c s ≤ account c t
  account-Effect id t (unchanged e) = rw e (omega arith)
  account-Effect id t (began stored missing e) =
      rw e (account-write id (fresh_state id) (rw missing (omega arith)))
  account-Effect id t (moved r n found m e) =
      rw e (account-write id n (rw found (spent-Move c r n m)))

  account_same : (t : Store Json) → t.runtime ≡ s.runtime → account c s ≤ account c t
  unfolding account
  account_same t e = rw e (omega arith)

module _ {Json : Type 0} (text_lt : String → String → Bool) (hash : Json → String)
    (s t : Store Json) where
  Outcome-runtime :
      {schema : ActionRecord Json → Bool} {fresh : String} {i : NewActionIntent Json}
      {x : Recorded Json}
      → Outcome schema fresh i s t x
      → t.runtime ≡ s.runtime
  Outcome-runtime (replayed id q found same old kept) = ap (λ (u : Store Json). u.runtime) kept
  Outcome-runtime (created free made' flag stored) = ap (λ (u : Store Json). u.runtime) stored

  Appended-runtime :
      {fresh : String} {ev : NewEvidence Json} {x : EvidenceRecord Json}
      → Appended hash fresh ev s t x
      → t.runtime ≡ s.runtime
  Appended-runtime (known text found kept) = ap (λ (u : Store Json). u.runtime) kept
  Appended-runtime (added exists new backed made' stored) =
      ap (λ (u : Store Json). u.runtime) stored

  pub account-Step : (c : Call) → Step text_lt hash s t → account c s ≤ account c t
  account-Step c (did_record schema fresh i x new e) =
      account_same c s t (Outcome-runtime (record_intent-Outcome schema fresh i s t x e))
  account-Step c (did_transition id from to n e) =
      account_same c s t
        (ap (λ (u : Store Json). u.runtime) (transition-Advanced id s t n from to e).stored)
  account-Step c (did_prepare schema id p n e) =
      account_same c s t
        (ap (λ (u : Store Json). u.runtime) (prepare-Advanced id s t n schema p e).stored)
  account-Step c (did_append schema fresh ev x e) =
      account_same c s t (Appended-runtime (append-Appended schema hash fresh ev s t x e))
  account-Step c (did_save schema r e) =
      account_same c s t (ap (λ (u : Store Json). u.runtime) (save-Saved schema r s t e).stored)
  account-Step c (did_initialize id x e) = account-Effect c s id t (initialize-Effect id s t x e)
  account-Step c (did_claim fresh id allowed guard d e) =
      account-Effect c s id t (claim_dispatch-Effect id s t text_lt fresh allowed guard d e)
  account-Step c (did_finish id token status x u e) =
      account-Effect c s id t (finish_dispatch-Effect id s t token status x u e)
  account-Step c (did_set id from to x u e) =
      account-Effect c s id t (set_dispatch_status-Effect id s t from to x u e)
  account-Step c (did_claim_compensation fresh id d e) =
      account-Effect c s id t (claim_compensation-Effect id s t fresh d e)
  account-Step c (did_finish_compensation id token x e) =
      account-Effect c s id t (finish_compensation-Effect id s t token x e)
  account-Step c (did_resolve id state check x e) =
      account-Effect c s id t (next_resolution_sequence-Effect id s t state check x e)

module _ {Json : Type 0} (text_lt : String → String → Bool) (hash : Json → String) where
  pub account-Steps :
      (c : Call) (s t : Store Json) → Steps text_lt hash s t → account c s ≤ account c t
  account-Steps c s t start = omega arith
  account-Steps c s t (then_step {t = u} run step) =
      omega (arith, account-Steps c s u run, account-Step text_lt hash u t c step)

  pub Steps-trans :
      (s t u : Store Json)
      → Steps text_lt hash s t
      → Steps text_lt hash t u
      → Steps text_lt hash s u
  Steps-trans s t u a start = a
  Steps-trans s t u a (then_step {t = v} b step) = then_step (Steps-trans s t v a b) step
