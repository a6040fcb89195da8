-- ===== src/Store/Runtime/Effects.antt =====
-- Every operation of the runtime ledger is a move of the machine, or changes nothing.
use nyst.Base.{
  ℕ, String, Bool, true, Option, none, some, List, ◌≡◌, ◌≢◌, refl, sym, ap, ◌∙◌, ◌||◌, ◌&&◌, inl,
  inr, MapAll, put-MapAll, Result, ok, ok-injective, is_some, ltb, Bool-cases, Option-cases, arith,
  ◌==◌, option_eq, string_eq,
}
use nyst.Model.EffectState.{EffectState}
use nyst.Model.Resolution.{DispatchStatus, RuntimeState, dispatch_status_eq}
use nyst.Store.{Store, StoreError}
use nyst.Store.Runtime.{
  DispatchGuard, DispatchClaim, fresh_state, claimed_state, write, initialize, claim_dispatch,
  finish_dispatch, set_dispatch_status, claim_compensation, finish_compensation,
  next_resolution_sequence,
}
use nyst.Store.Runtime.Claims.{claim_dispatch_lem}
use nyst.Store.Runtime.Machine.{
  Move, claim, finish, set, compensate, compensated, resolve, IsSound, fresh-IsSound, Move-IsSound,
}

pub data Effect {Json : Type 0} (id : String) (s t : Store Json) : Type 0 where
  unchanged : t ≡ s → Effect id s t
  began :
      is_some (s.by_id id) ≡ true
      → s.runtime id ≡ none
      → t ≡ write id (fresh_state id) s
      → Effect id s t
  moved : (r n : RuntimeState) → s.runtime id ≡ some r → Move r n → t ≡ write id n s → Effect id s t

stored :
    {Json X : Type 0} (x y : X) (s t : Store Json)
    → ◌≡◌ {A = Result StoreError (X × Store Json)} (ok (x, s)) (ok (y, t))
    → t ≡ s
stored {Json} {X} x y s t e =
    ap (λ (p : X × Store Json). p.1) (sym (ok-injective {E = StoreError} e))

module _ {Json : Type 0} (id : String) (s t : Store Json) where
  pub initialize-Effect : (x : RuntimeState) → initialize id s ≡ ok (x, t) → Effect id s t
  unfolding initialize
  initialize-Effect x e = elim (Bool-cases (is_some (s.by_id id))) [
    | inr unknown ↦ absurd (cc (rw (unknown, initialize) at e))
    | inl known ↦ elim (Option-cases (s.runtime id)) [
      | inl missing ↦ began known missing (stored _ x _ t (rw (known, missing, initialize) at e))
      | inr (r, found) ↦ unchanged (stored _ x _ t (rw (known, found, initialize) at e))
    ]
  ]

  pub claim_dispatch-Effect :
      (text_lt : String → String → Bool) (fresh : String) (allowed : List DispatchStatus)
      (guard : Option DispatchGuard) (c : DispatchClaim)
      → claim_dispatch text_lt fresh id allowed guard s ≡ ok (c, t)
      → Effect id s t
  claim_dispatch-Effect text_lt fresh allowed guard c e = elim (Option-cases (s.runtime id)) [
    | inl missing ↦ absurd (unfold claim_dispatch in cc (rw (missing, claim_dispatch) at e))
    | inr (r, found) ↦ elim (claim_dispatch_lem text_lt fresh id allowed guard s r found) [
      | inl granted ↦
          moved r (claimed_state fresh r) found (claim fresh granted.1 refl)
            (stored _ c _ t (sym granted.4 ∙ e))
      | inr refused ↦ unchanged (stored _ c _ t (sym refused.1 ∙ e))
    ]
  ]

  pub finish_dispatch-Effect :
      (token : String) (status : DispatchStatus) (x : RuntimeState)
      → status ≢ DispatchStatus.claimed
      → finish_dispatch id token status s ≡ ok (x, t)
      → Effect id s t
  unfolding finish_dispatch
  finish_dispatch-Effect token status x u e = elim (Option-cases (s.runtime id)) [
    | inl missing ↦ absurd (cc (rw (missing, finish_dispatch) at e))
    | inr (r, found) ↦
        elim (Bool-cases (
          (r.dispatch_status == DispatchStatus.claimed)
          && (r.dispatch_claim_token == some token))) [
            | inl own ↦
                moved r _ found (finish status u refl)
                  (stored _ x _ t (rw own at (rw (found, finish_dispatch) at e)))
            | inr other ↦ absurd (cc (rw other at (rw (found, finish_dispatch) at e)))
          ]
  ]

  pub set_dispatch_status-Effect :
      (from to : DispatchStatus) (x : RuntimeState)
      → to ≢ DispatchStatus.claimed
      → set_dispatch_status id from to s ≡ ok (x, t)
      → Effect id s t
  unfolding set_dispatch_status
  set_dispatch_status-Effect from to x u e = elim (Option-cases (s.runtime id)) [
    | inl missing ↦ absurd (cc (rw (missing, set_dispatch_status) at e))
    | inr (r, found) ↦ elim (Bool-cases (r.dispatch_status == from)) [
      | inl same ↦
          moved r _ found (set to u refl)
            (stored _ x _ t (rw same at (rw (found, set_dispatch_status) at e)))
      | inr other ↦ absurd (cc (rw other at (rw (found, set_dispatch_status) at e)))
    ]
  ]

  pub claim_compensation-Effect :
      (fresh : String) (c : DispatchClaim)
      → claim_compensation fresh id s ≡ ok (c, t)
      → Effect id s t
  unfolding claim_compensation
  claim_compensation-Effect fresh c e = elim (Option-cases (s.runtime id)) [
    | inl missing ↦ absurd (cc (rw (missing, claim_compensation) at e))
    | inr (r, found) ↦
        elim (Bool-cases (is_some r.compensation_claim_token || ltb 0 r.compensation_attempts)) [
          | inl taken ↦
              unchanged (stored _ c _ t (rw taken at (rw (found, claim_compensation) at e)))
          | inr free ↦
              moved r _ found (compensate fresh (ground arith) refl)
                (stored _ c _ t (rw free at (rw (found, claim_compensation) at e)))
        ]
  ]

  pub finish_compensation-Effect :
      (token : String) (x : RuntimeState)
      → finish_compensation id token s ≡ ok (x, t)
      → Effect id s t
  unfolding finish_compensation
  finish_compensation-Effect token x e = elim (Option-cases (s.runtime id)) [
    | inl missing ↦ absurd (cc (rw (missing, finish_compensation) at e))
    | inr (r, found) ↦ elim (Bool-cases (r.compensation_claim_token == some token)) [
      | inl own ↦
          moved r _ found (compensated refl)
            (stored _ x _ t (rw own at (rw (found, finish_compensation) at e)))
      | inr other ↦ absurd (cc (rw other at (rw (found, finish_compensation) at e)))
    ]
  ]

  pub next_resolution_sequence-Effect :
      (state : EffectState) (check : Option String) (x : ℕ)
      → next_resolution_sequence id state check s ≡ ok (x, t)
      → Effect id s t
  unfolding next_resolution_sequence
  next_resolution_sequence-Effect state check x e = elim (Option-cases (s.runtime id)) [
    | inl missing ↦ absurd (cc (rw (missing, next_resolution_sequence) at e))
    | inr (r, found) ↦
        moved r _ found (resolve state check _ refl)
          (stored _ x _ t (rw (found, next_resolution_sequence) at e))
  ]

-- Every dispatch state of the store is sound.
abbrev pub RuntimeSound : {Json : Type 0} → Store Json → Type 0
RuntimeSound s = MapAll (λ k r. IsSound r) s.runtime

pub Effect-RuntimeSound :
    {Json : Type 0} (id : String) (s t : Store Json)
    → Effect id s t
    → RuntimeSound s
    → RuntimeSound t
unfolding write
Effect-RuntimeSound id s t (unchanged e) h = rw e h
Effect-RuntimeSound id s t (began known missing e) h =
    rw e (put-MapAll (λ k r. IsSound r) s.runtime id (fresh_state id) h (fresh-IsSound id))
Effect-RuntimeSound id s t (moved r n found m e) h =
    rw e (put-MapAll (λ k r. IsSound r) s.runtime id n h (Move-IsSound m (h id r found)))

-- Nothing but the dispatch states changes.
pub Effect-elsewhere :
    {Json : Type 0} {id : String} {s t : Store Json}
    → Effect id s t
    → (t.by_id ≡ s.by_id)
      × (t.by_identity ≡ s.by_identity)
      × (t.evidence ≡ s.evidence)
      × (t.resolutions ≡ s.resolutions)
unfolding write
Effect-elsewhere (unchanged e) = rw e (refl, refl, refl, refl)
Effect-elsewhere (began known missing e) = rw e (refl, refl, refl, refl)
Effect-elsewhere (moved r n found m e) = rw e (refl, refl, refl, refl)
