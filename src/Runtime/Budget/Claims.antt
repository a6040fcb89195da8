-- ===== src/Runtime/Budget/Claims.antt =====
-- A claim that is granted is counted.
use nyst.Base.{
  suc, ◌≤◌, String, Bool, true, false, Option, some, List, ◌≡◌, refl, sym, ap, ◌∙◌, inl, inr,
  put_self, Result, ok, ok-injective, is_some, ltb, ◌||◌, Bool-cases, Option-cases, arith,
  string_eq,
}
use nyst.Model.Resolution.{DispatchStatus, RuntimeState}
use nyst.Store.{Store, StoreError}
use nyst.Store.Runtime.{
  DispatchGuard, DispatchClaim, claimed_state, write, claim_dispatch, claim_compensation,
}
use nyst.Store.Runtime.Claims.{claim_dispatch_lem}
use nyst.Runtime.Host.{Call}
use nyst.Runtime.Budget.{subject, spent, account}

module _ {Json : Type 0} (s t : Store Json) (c : DispatchClaim) where
  same_result :
      (d : DispatchClaim) (u : Store Json)
      → ◌≡◌ {A = Result StoreError (DispatchClaim × Store Json)} (ok (d, u)) (ok (c, t))
      → (c ≡ d) × (t ≡ u)
  same_result d u e =
      let p = sym (ok-injective {E = StoreError} e) in
      (
        ap (λ (z : DispatchClaim × Store Json). z.0) p,
        ap (λ (z : DispatchClaim × Store Json). z.1) p,
      )

  refused_claim :
      (d : DispatchClaim) (u : Store Json) {A : Type 0}
      → ◌≡◌ {A = Result StoreError (DispatchClaim × Store Json)} (ok (d, u)) (ok (c, t))
      → d.claimed ≡ false
      → c.claimed ≡ true
      → A
  refused_claim d u e no' yes' =
      absurd (cc (ap (λ (x : DispatchClaim). x.claimed) (same_result d u e).0, no', yes'))

  -- The dispatch state of the subject is written with one more claim.
  counted :
      (x : Call) (id : String) (r n : RuntimeState)
      → id ≡ subject x
      → s.runtime id ≡ some r
      → suc (spent x r) ≤ spent x n
      → t ≡ write id n s
      → suc (account x s) ≤ account x t
  unfolding account write
  counted x id r n p found more e = rw (e, sym p, found, put_self id n s.runtime) more

  pub account-claim_dispatch :
      (text_lt : String → String → Bool) (fresh id : String) (allowed : List DispatchStatus)
      (guard : Option DispatchGuard)
      → claim_dispatch text_lt fresh id allowed guard s ≡ ok (c, t)
      → c.claimed ≡ true
      → suc (account (Call.dispatched id) s) ≤ account (Call.dispatched id) t
  account-claim_dispatch text_lt fresh id allowed guard e granted =
      elim (Option-cases (s.runtime id)) [
        | inl missing ↦ absurd (unfold claim_dispatch in cc (rw (missing, claim_dispatch) at e))
        | inr (r, found) ↦ elim (claim_dispatch_lem text_lt fresh id allowed guard s r found) [
          | inl open' ↦
              counted (Call.dispatched id) id r (claimed_state fresh r) refl found
                (unfold claimed_state in omega arith) (same_result _ _ (sym open'.4 ∙ e)).1
          | inr shut ↦ refused_claim _ _ (sym shut.1 ∙ e) refl granted
        ]
      ]

  pub account-claim_compensation :
      (fresh id : String)
      → claim_compensation fresh id s ≡ ok (c, t)
      → c.claimed ≡ true
      → suc (account (Call.compensated id) s) ≤ account (Call.compensated id) t
  unfolding claim_compensation
  account-claim_compensation fresh id e granted = elim (Option-cases (s.runtime id)) [
    | inl missing ↦ absurd (cc (rw (missing, claim_compensation) at e))
    | inr (r, found) ↦
        elim (Bool-cases (is_some r.compensation_claim_token || ltb 0 r.compensation_attempts)) [
          | inl taken ↦
              refused_claim _ _ (rw taken at (rw (found, claim_compensation) at e)) refl granted
          | inr free ↦
              counted (Call.compensated id) id r _ refl found (ground arith)
                (same_result _ _ (rw free at (rw (found, claim_compensation) at e))).1
        ]
  ]
