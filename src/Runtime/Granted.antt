-- ===== src/Runtime/Granted.antt =====
-- A dispatch of src/runtime/nystRuntime.ts sends nothing before its claim is granted: what that
-- claim says of the store at that moment, whatever happened to the store in between.
use nyst.Base.{
  String, true, false, Option, some, List, ◌≡◌, refl, ◌⊎◌, inl, inr, Result, ok, err, Bool-cases,
}
use nyst.Model.Action.{ActionRecord}
use nyst.Model.Resolution.{DispatchStatus, RuntimeState}
use nyst.Store.{Store, StoreError}
use nyst.Store.Runtime.{DispatchGuard, DispatchClaim, claim_dispatch}
use nyst.Store.Runtime.Granted.{IsGranted, claimed-IsGranted}
use nyst.Store.Trace.{Steps, start, then_step, did_claim, did_claim_compensation}
use nyst.Runtime.Exec.{Exec, resume, ◌>>=◌}
use nyst.Runtime.Exec.Preserves.{Preserves-bind, Preserves-pure}
use nyst.Runtime.Host.{Host, World, Call, dispatched, elapse, landed, call}
use nyst.Runtime.Dispatch.{owned_token, after_claim, dispatch}
use nyst.Runtime.Discipline.{Stable, hit-Preserves, await_owner-Preserves, host_rules}
use nyst.Runtime.Discipline.Spending.{Spending, Leads, Leads-bind, answer-Due}
use nyst.Runtime.Discipline.Requests.{after_claim-Leads}
use nyst.Runtime.Budget.{Steps-trans}
use nyst.Runtime.Budget.Once.{Peaceful}

module _ {Json : Type 0} (h : Host Json) {A B : Type 0} (P : World Json → Type 0) where
  landed-ends :
      (v : World Json) (r : Result StoreError (A × Store Json)) (f : A → Exec (World Json) B)
      → P v
      → ((a : A) (t : Store Json) → r ≡ ok (a, t) → P (f a (record v { store = t })).1)
      → P (resume f (landed h v r).0 (landed h v r).1).1
  unfolding landed resume
  landed-ends v (err e) f p k = p
  landed-ends v (ok (a, t)) f p k = k a t refl

  -- An operation of the store, which may throw.
  pub call-ends :
      (g : _ → Store Json → Result StoreError (A × Store Json)) (f : A → Exec (World Json) B)
      (w : World Json)
      → P (elapse h w)
      → ((a : A) (t : Store Json)
          → g (elapse h w).tick (elapse h w).store ≡ ok (a, t)
          → P (f a (record (elapse h w) { store = t })).1)
      → P ((call h g >>= f) w).1
  unfolding call ◌>>=◌
  call-ends g f w p k = landed-ends (elapse h w) (g (elapse h w).tick (elapse h w).store) f p k

module _ {Json : Type 0} (h : Host Json) (origin : Store Json) (id : String)
    (allowed : List DispatchStatus) (guard : Option DispatchGuard) where
  -- On the run from `origin` to `now`, a claim with this guard was granted.
  pub record Claimed (now : Store Json) : Type 0 where
    pub at : Store Json
    pub after : Store Json
    pub fresh : String
    pub claim : DispatchClaim
    pub state : RuntimeState
    pub reached : Steps h.text_lt h.hash origin at
    pub started : at.runtime id ≡ some state
    pub granted : IsGranted h.text_lt fresh id allowed guard at after state claim
    pub followed : Steps h.text_lt h.hash after now

module _ {Json : Type 0} (h : Host Json) (peaceful : Peaceful h) (w : World Json) where
  -- Nothing was sent since `w`.
  abbrev pub Quiet : World Json → Type 0
  Quiet v = Steps h.text_lt h.hash w.store v.store × (v.calls ≡ w.calls)

  pub Quiet-Stable : Stable h Quiet
  Quiet-Stable = record {
    waited = λ v (run, same).
        (Steps-trans h.text_lt h.hash w.store v.store _ run (peaceful v.tick v.store), same);
    stepped = λ v t step (run, same). (then_step run step, same);
  }

  module _ (id : String) (allowed : List DispatchStatus) (guard : Option DispatchGuard) where
    abbrev Paid : List Call → Store Json → Type 0
    Paid cs s = Claimed h w.store id allowed guard s

    followed_on :
        (s t : Store Json)
        → Steps h.text_lt h.hash s t
        → Claimed h w.store id allowed guard s
        → Claimed h w.store id allowed guard t
    followed_on s t more x = record {
      at = x.at;
      after = x.after;
      fresh = x.fresh;
      claim = x.claim;
      state = x.state;
      started = x.started;
      reached = x.reached;
      granted = x.granted;
      followed = Steps-trans h.text_lt h.hash x.after s t x.followed more;
    }

    Paid-Spending : Spending h Paid
    Paid-Spending = record {
      stepped = λ cs s t step x. followed_on s t (then_step start step) x;
      waited = λ cs n s x. followed_on s _ (peaceful n s) x;
      forgot = λ c cs s x. x;
      dispatch_granted = λ fresh i ok_ g c cs s t e u x.
          followed_on s t (then_step start (did_claim fresh i ok_ g c e)) x;
      compensation_granted = λ fresh i c cs s t e u x.
          followed_on s t (then_step start (did_claim_compensation fresh i c e)) x;
    }

  -- Cases of a dispatch: what is known of one, its action, and the guard of its claim.
  module _ (I : Type 0) (E : I → Type 0) (act : I → ActionRecord Json)
      (allowed : List DispatchStatus) (guard : I → Option DispatchGuard) where
    -- Nothing was sent, or the claim of a case was granted.
    abbrev pub QuietOrPaid : World Json → Type 0
    QuietOrPaid v =
        Quiet v ⊎ ((i : I) × E i × Claimed h w.store (act i).action_id allowed (guard i) v.store)

    pub QuietOrPaid-Stable : Stable h QuietOrPaid
    QuietOrPaid-Stable = record {
      waited = λ v p. elim p [
        | inl q ↦ inl (Quiet-Stable.waited v q)
        | inr (i, e, x) ↦ inr (
          i,
          e,
          followed_on (act i).action_id allowed (guard i) v.store _ (peaceful v.tick v.store) x,
        )
      ];
      stepped = λ v t step p. elim p [
        | inl q ↦ inl (Quiet-Stable.stepped v t step q)
        | inr (i, e, x) ↦ inr (
          i,
          e,
          followed_on (act i).action_id allowed (guard i) v.store t (then_step start step) x,
        )
      ];
    }

    paid_after :
        (i : I)
        → E i
        → (c : DispatchClaim) (v : World Json)
        → Claimed h w.store (act i).action_id allowed (guard i) v.store
        → QuietOrPaid (after_claim h (act i) (owned_token c) v).1
    paid_after i e c v x =
        let spending = Paid-Spending (act i).action_id allowed (guard i) in
        inr (
          i,
          e,
          (after_claim-Leads h spending (act i) (owned_token c)).after v
              (answer-Due h spending (dispatched (act i).action_id) c v (λ u. x) x),
        )

    refused_after :
        (a : ActionRecord Json) (c : DispatchClaim) (v : World Json)
        → c.claimed ≡ false
        → Quiet v
        → Quiet (after_claim h a (owned_token c) v).1
    unfolding owned_token after_claim
    refused_after a c v no' q = rw no' (
        (Preserves-bind _ _ (await_owner-Preserves h Quiet-Stable a.action_id)
            (λ b. Preserves-pure false)).after
          v q)

    claimed_now :
        (i : I) (v : World Json) (c : DispatchClaim) (t : Store Json)
        → Quiet v
        → claim_dispatch h.text_lt (h.new_id v.tick) (act i).action_id allowed (guard i) v.store
          ≡ ok (c, t)
        → c.claimed ≡ true
        → Claimed h w.store (act i).action_id allowed (guard i) t
    claimed_now i v c t q e yes' =
        let (r, found, granted) =
          claimed-IsGranted h.text_lt (h.new_id v.tick) (act i).action_id allowed (guard i) v.store
            t c e yes' in
        record {
          at = v.store;
          after = t;
          fresh = h.new_id v.tick;
          claim = c;
          state = r;
          reached = q.0;
          started = found;
          granted = granted;
          followed = start;
        }

    -- A dispatch sends nothing, or its claim was granted.
    pub dispatch-Paid :
        (i : I) → E i → Leads Quiet QuietOrPaid (dispatch h (act i) allowed (guard i))
    unfolding dispatch
    dispatch-Paid i e =
        Leads-bind _ _ (search host_rules)
          (λ u.
            Leads-bind _ _ (hit-Preserves h Quiet-Stable _ (act i))
              (λ u. record {
                after = λ v q.
                    let q1 = Quiet-Stable.waited v q in
                    call-ends h QuietOrPaid _ _ v (inl q1) λ c t granted.
                      elim (Bool-cases c.claimed) [
                        | inl yes' ↦ paid_after i e c _ (claimed_now i _ c t q1 granted yes')
                        | inr no' ↦ inl (
                            refused_after (act i) c _ no'
                              (then_step q1.0 (did_claim _ _ allowed (guard i) c granted), q1.1))
                      ];
              })
              (λ v q. inl q))
          (λ v q. inl q)
