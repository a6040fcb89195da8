-- ===== src/Runtime/Discipline/Spending.antt =====
-- A claim that is granted pays for one call of a provider: between the claim and the call, the call
-- is owed.
use nyst.Base.{
  ℕ, String, true, Option, none, some, List, ◌∷◌, ◌≡◌, refl, inl, inr, Result, ok, err, Bool-cases,
}
use nyst.Model.Resolution.{DispatchStatus}
use nyst.Store.{Store, StoreError}
use nyst.Store.Runtime.{DispatchGuard, DispatchClaim, claim_dispatch, claim_compensation}
use nyst.Store.Trace.{Step}
use nyst.Runtime.Exec.{Failure, Exec, rescue, resume, ◌>>=◌}
use nyst.Runtime.Exec.Preserves.{Preserves, settle_after, resume_after}
use nyst.Runtime.Host.{Host, World, Call, dispatched, compensated, elapse, landed, call, send}
use nyst.Runtime.Dispatch.{owned_token}
use nyst.Runtime.Discipline.{Stable}

-- What holds of the calls that were made and the store.
pub record Spending {Json : Type 0} (h : Host Json) (P : List Call → Store Json → Type 0)
    : Type 0 where
  pub stepped : (cs : List Call) (s t : Store Json) → Step h.text_lt h.hash s t → P cs s → P cs t
  pub waited : (cs : List Call) (n : ℕ) (s : Store Json) → P cs s → P cs (h.others n s)
  pub forgot : (c : Call) (cs : List Call) (s : Store Json) → P (c ∷ cs) s → P cs s
  pub dispatch_granted :
      (fresh id : String) (allowed : List DispatchStatus) (guard : Option DispatchGuard)
      (c : DispatchClaim) (cs : List Call) (s t : Store Json)
      → claim_dispatch h.text_lt fresh id allowed guard s ≡ ok (c, t)
      → c.claimed ≡ true
      → P cs s
      → P (dispatched id ∷ cs) t
  pub compensation_granted :
      (fresh id : String) (c : DispatchClaim) (cs : List Call) (s t : Store Json)
      → claim_compensation fresh id s ≡ ok (c, t)
      → c.claimed ≡ true
      → P cs s
      → P (compensated id ∷ cs) t

-- From `Q` before to `R` after, whether the method returns or throws.
pub record Leads {S A : Type 0} (Q R : S → Type 0) (m : Exec S A) : Type 0 where
  pub after : (w : S) → Q w → R (m w).1

module _ {S A B : Type 0} {Q R : S → Type 0} where
  leads_resume :
      (f : A → Exec S B) (r : Result Failure A) (w : S)
      → ((a : A) → Leads Q R (f a))
      → ((v : S) → Q v → R v)
      → Q w
      → R (resume f r w).1
  unfolding resume
  leads_resume f (ok a) w k weaken q = (k a).after w q
  leads_resume f (err e) w k weaken q = weaken w q

  pub Leads-bind :
      (m : Exec S A) (f : A → Exec S B)
      → Preserves Q m
      → ((a : A) → Leads Q R (f a))
      → ((v : S) → Q v → R v)
      → Leads Q R (m >>= f)
  unfolding ◌>>=◌
  Leads-bind m f k l weaken = record {
    after = λ w q. leads_resume f (m w).0 (m w).1 l weaken (k.after w q);
  }

  pub Leads-then :
      (m : Exec S A) (f : A → Exec S B)
      → Leads Q R m
      → ((a : A) → Preserves R (f a))
      → Leads Q R (m >>= f)
  unfolding ◌>>=◌
  Leads-then m f k l = record { after = λ w q. resume_after f (m w).0 (m w).1 l (k.after w q) }

module _ {S A : Type 0} {Q R : S → Type 0} where
  pub Leads-rescue :
      (m : Exec S A) (handle : Failure → Exec S A)
      → Leads Q R m
      → ((e : Failure) → Preserves R (handle e))
      → Leads Q R (rescue m handle)
  unfolding rescue
  Leads-rescue m handle k l = record {
    after = λ w q. settle_after handle (m w).0 (m w).1 l (k.after w q);
  }

module _ {Json : Type 0} (P : List Call → Store Json → Type 0) where
  abbrev pub Held : World Json → Type 0
  Held w = P w.calls w.store

  abbrev pub Owed : Call → World Json → Type 0
  Owed c w = P (c ∷ w.calls) w.store

  abbrev pub Due : Call → Option String → World Json → Type 0
  Due c none = Held
  Due c (some token) = Owed c

module _ {Json : Type 0} (h : Host Json) {P : List Call → Store Json → Type 0}
    (spending : Spending h P) where
  pub Held-Stable : Stable h (Held P)
  Held-Stable = record {
    waited = λ w p. spending.waited w.calls w.tick w.store p;
    stepped = λ w t step p. spending.stepped w.calls w.store t step p;
  }

  pub Owed-Stable : (c : Call) → Stable h (Owed P c)
  Owed-Stable c = record {
    waited = λ w p. spending.waited (c ∷ w.calls) w.tick w.store p;
    stepped = λ w t step p. spending.stepped (c ∷ w.calls) w.store t step p;
  }

  -- The call settles what is owed.
  pub send-Leads :
      {A : Type 0} (c : Call) (f : ℕ → Result Failure A) → Leads (Owed P c) (Held P) (send h c f)
  unfolding send
  send-Leads c f = record { after = λ w p. spending.waited (c ∷ w.calls) w.tick w.store p }

  Owed-Due : (c : Call) (token : Option String) (w : World Json) → Owed P c w → Due P c token w
  Owed-Due c none w p = spending.forgot c w.calls w.store p
  Owed-Due c (some token) w p = p

  -- What a claim that was answered leaves due.
  pub answer-Due :
      (c : Call) (claim : DispatchClaim) (w : World Json)
      → (claim.claimed ≡ true → Owed P c w)
      → Held P w
      → Due P c (owned_token claim) w
  unfolding owned_token
  answer-Due c claim w granted p = elim (Bool-cases claim.claimed) [
    | inl yes' ↦ Owed-Due c (owned_token claim) w (granted yes')
    | inr no' ↦ rw no' p
  ]

  landed-Due :
      {B : Type 0} (c : Call) (k : DispatchClaim → Exec (World Json) B) (w : World Json)
      (r : Result StoreError (DispatchClaim × Store Json))
      → ((claim : DispatchClaim) (t : Store Json)
          → r ≡ ok (claim, t)
          → Due P c (owned_token claim) (record w { store = t }))
      → ((claim : DispatchClaim) → Leads (Due P c (owned_token claim)) (Held P) (k claim))
      → Held P w
      → Held P (resume k (landed h w r).0 (landed h w r).1).1
  unfolding landed resume
  landed-Due c k w (err e) due leads p = p
  landed-Due c k w (ok (claim, t)) due leads p = (leads claim).after _ (due claim t refl)

  -- A claim, and what is done with its answer.
  pub claim-bind :
      {B : Type 0} (c : Call) (f : ℕ → Store Json → Result StoreError (DispatchClaim × Store Json))
      (k : DispatchClaim → Exec (World Json) B)
      → ((w : World Json) (claim : DispatchClaim) (t : Store Json)
          → f w.tick w.store ≡ ok (claim, t)
          → Held P w
          → Due P c (owned_token claim) (record w { store = t }))
      → ((claim : DispatchClaim) → Leads (Due P c (owned_token claim)) (Held P) (k claim))
      → Preserves (Held P) (call h f >>= k)
  unfolding call ◌>>=◌
  claim-bind c f k due leads = record {
    after = λ w p.
        let v : World Json = elapse h w in
        let q : Held P v = spending.waited w.calls w.tick w.store p in
        landed-Due c k v (f v.tick v.store) (λ claim t e. due v claim t e q) leads q;
  }
