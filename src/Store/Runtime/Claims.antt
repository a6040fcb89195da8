-- ===== src/Store/Runtime/Claims.antt =====
-- When a dispatch claim is granted, and what it excludes.
use nyst.Base.{
  ◌<◌, ◌≤◌, String, Bool, true, false, Option, none, some, List, ◌≡◌, ◌↔◌, refl, sym, ap, ◌∙◌,
  subst, ◌⊎◌, inl, inr, includes, ok, ok-injective, put_self, Bool-cases, Option-cases, arith,
}
use nyst.Model.Resolution.{DispatchStatus, RuntimeState, dispatch_status_eq}
use nyst.Store.{Store, StoreError}
use nyst.Store.Runtime.{
  DispatchGuard, DispatchClaim, claimed_state, with_evidence, write, continuation_current,
  guard_met, may_claim, claim_dispatch,
}

module _ {Json : Type 0} (text_lt : String → String → Bool) (fresh id : String)
    (allowed : List DispatchStatus) (guard : Option DispatchGuard) (s : Store Json) where
  may_claim_iff :
      (r : RuntimeState)
      → (may_claim text_lt id allowed guard r s ≡ true) ↔ (
          (includes allowed r.dispatch_status ≡ true)
          × (r.dispatch_attempts < 2)
          × (continuation_current text_lt guard s ≡ true)
          × (guard_met id guard r s ≡ true))
  unfolding may_claim
  may_claim_iff r = ground arith

  may_not_claim :
      (r : RuntimeState)
      → may_claim text_lt id allowed guard r s ≡ false
      → (includes allowed r.dispatch_status ≡ false)
        ⊎ (2 ≤ r.dispatch_attempts)
        ⊎ (continuation_current text_lt guard s ≡ false)
        ⊎ (guard_met id guard r s ≡ false)
  unfolding may_claim
  may_not_claim r h = ground arith

  -- A claim on an action with a dispatch state is granted exactly if its status is allowed, fewer
  -- than two attempts were made, and both guards hold. Then the status is `claimed`, the token is
  -- the fresh one and one more attempt is counted; otherwise nothing is stored.
  pub claim_dispatch_lem :
      (r : RuntimeState)
      → s.runtime id ≡ some r
      → ((includes allowed r.dispatch_status ≡ true)
          × (r.dispatch_attempts < 2)
          × (continuation_current text_lt guard s ≡ true)
          × (guard_met id guard r s ≡ true)
          × (claim_dispatch text_lt fresh id allowed guard s
              ≡ ok (
                record { claimed = true; token = some fresh; state = claimed_state fresh r },
                write id (claimed_state fresh r) s,
              )))
        ⊎ (((includes allowed r.dispatch_status ≡ false)
              ⊎ (2 ≤ r.dispatch_attempts)
              ⊎ (continuation_current text_lt guard s ≡ false)
              ⊎ (guard_met id guard r s ≡ false))
            × (claim_dispatch text_lt fresh id allowed guard s
                ≡ ok (record { claimed = false; token = none; state = with_evidence id r s }, s)))
  unfolding claim_dispatch
  claim_dispatch_lem r found = elim (Bool-cases (may_claim text_lt id allowed guard r s)) [
    | inl granted ↦
        let (open_, few, source, own) = (may_claim_iff r).0 granted in
        inl (open_, few, source, own, rw (found, claim_dispatch) (rw granted refl))
    | inr refused ↦ inr (may_not_claim r refused, rw (found, claim_dispatch) (rw refused refl))
  ]

granted_state :
    {Json : Type 0} (text_lt : String → String → Bool) (first id : String)
    (allowed : List DispatchStatus) (guard : Option DispatchGuard) (s t : Store Json)
    (c : DispatchClaim)
    → claim_dispatch text_lt first id allowed guard s ≡ ok (c, t)
    → c.claimed ≡ true
    → (r : RuntimeState) × (t.runtime id ≡ some (claimed_state first r)) × (r.dispatch_attempts < 2)
unfolding write
granted_state {Json} text_lt first id allowed guard s t c e h = elim (Option-cases (s.runtime id)) [
  | inl missing ↦ absurd (unfold claim_dispatch in cc (rw (missing, claim_dispatch) at e))
  | inr (r, found) ↦ elim (claim_dispatch_lem text_lt first id allowed guard s r found) [
    | inl granted ↦
        let same = ok-injective {E = StoreError} (sym granted.4 ∙ e) in
        (
          r,
          subst (λ (x : Store Json). x.runtime id ≡ some (claimed_state first r))
              (ap (λ (x : DispatchClaim × Store Json). x.1) same)
              (put_self id (claimed_state first r) s.runtime),
          granted.1,
        )
    | inr refused ↦
        let same = ok-injective {E = StoreError} (sym refused.1 ∙ e) in
        absurd (cc (ap (λ (x : DispatchClaim × Store Json). x.0.claimed) same, h))
  ]
]

-- While an action is claimed, no other claim on it is granted, and a refused claim stores nothing:
-- whatever the tokens, guards and statuses of the two claims, as long as the second does not allow
-- the status `claimed`.
pub claim-exclusive :
    {Json : Type 0} (text_lt : String → String → Bool) (first second id : String)
    (allowed allowed' : List DispatchStatus) (guard guard' : Option DispatchGuard)
    (s t : Store Json) (c : DispatchClaim)
    → claim_dispatch text_lt first id allowed guard s ≡ ok (c, t)
    → c.claimed ≡ true
    → includes allowed' DispatchStatus.claimed ≡ false
    → (c' : DispatchClaim) × (claim_dispatch text_lt second id allowed' guard' t ≡ ok (c', t))
      × (c'.claimed ≡ false)
      × (c'.token ≡ none)
unfolding claimed_state
claim-exclusive text_lt first second id allowed allowed' guard guard' s t c e h n =
    let (r, found, few) = granted_state text_lt first id allowed guard s t c e h in
    elim (claim_dispatch_lem text_lt second id allowed' guard' t (claimed_state first r) found) [
      | inl granted ↦ absurd (cc (granted.0, n))
      | inr refused ↦ (_, refused.1, refl, refl)
    ]
