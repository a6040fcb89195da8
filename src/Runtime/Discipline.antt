-- ===== src/Runtime/Discipline.antt =====
-- What a runtime does to its world, as far as the store is concerned: it takes steps of the store.
-- A property of the world that waiting and any step of the store keep is kept by the methods that
-- send nothing to a provider.
pub mod Parts
pub mod Spending
pub mod Reconciling
pub mod Requests
pub mod Serving
use nyst.Base.{
  ℕ, String, Bool, true, false, Option, none, some, List, ◌∷◌, ◌≡◌, ◌≢◌, refl, Result, ok, err, inl,
  inr, Result-cases,
}
use nyst.Model.Internal.{InternalState}
use nyst.Model.EffectState.{EffectState}
use nyst.Model.Evidence.{NewEvidence, EvidenceRecord}
use nyst.Model.Action.{ActionRecord, DispatchPlan}
use nyst.Model.Resolution.{DispatchStatus, OutcomeResolution}
use nyst.Store.{Store, StoreError}
use nyst.Store.Trace.{Step}
use nyst.Runtime.Exec.{Failure, Exec}
use nyst.Runtime.Exec.Preserves.{Preserves, exec_rules}
use nyst.Runtime.Host.{
  Host, World, FaultPoint, elapse, landed, call, read, ask, hit, assert_dispatch_eligibility,
  require_action, require_provider, require_spec, ask_clock, await_owner,
}

pub record Stable {Json : Type 0} (h : Host Json) (P : World Json → Type 0) : Type 0 where
  pub waited : (w : World Json) → P w → P (elapse h w)
  pub stepped :
      (w : World Json) (t : Store Json)
      → Step h.text_lt h.hash w.store t
      → P w
      → P (record w { store = t })

module _ {Json : Type 0} (h : Host Json) {P : World Json → Type 0} (stable : Stable h P) where
  module _ {A : Type 0} where
    pub landed_keeps :
        (w : World Json) (r : Result StoreError (A × Store Json))
        → ((a : A) (t : Store Json) → r ≡ ok (a, t) → Step h.text_lt h.hash w.store t)
        → P w
        → P (landed h w r).1
    unfolding landed
    landed_keeps w (err e) steps p = p
    landed_keeps w (ok (a, t)) steps p = stable.stepped w t (steps a t refl) p

    pub call-Preserves :
        (f : ℕ → Store Json → Result StoreError (A × Store Json))
        → ((n : ℕ) (s : Store Json) (a : A) (t : Store Json)
            → f n s ≡ ok (a, t)
            → Step h.text_lt h.hash s t)
        → Preserves P (call h f)
    unfolding call
    call-Preserves f steps = record {
      after = λ w p.
          let v : World Json = elapse h w in
          landed_keeps v (f v.tick v.store) (λ a t e. steps v.tick v.store a t e)
            (stable.waited w p);
    }

    pub read-Preserves : (f : Store Json → A) → Preserves P (read h f)
    unfolding read
    read-Preserves f = record { after = λ w p. stable.waited w p }

    pub ask-Preserves : (f : ℕ → Result Failure A) → Preserves P (ask h f)
    unfolding ask
    ask-Preserves f = record { after = λ w p. stable.waited w p }

  pub hit-Preserves : (p : FaultPoint) (a : ActionRecord Json) → Preserves P (hit h p a)
  unfolding hit
  hit-Preserves p a = search (ask-Preserves)

  pub assert-Preserves : (a : ActionRecord Json) → Preserves P (assert_dispatch_eligibility h a)
  unfolding assert_dispatch_eligibility
  assert-Preserves a = search (ask-Preserves)

  pub require_action-Preserves : (id : String) → Preserves P (require_action h id)
  unfolding require_action
  require_action-Preserves id = search (exec_rules, read-Preserves)

  pub require_provider-Preserves : (id : String) → Preserves P (require_provider h id)
  unfolding require_provider
  require_provider-Preserves id = search (exec_rules)

  pub require_spec-Preserves : (a : ActionRecord Json) → Preserves P (require_spec h a)
  unfolding require_spec
  require_spec-Preserves a = search (exec_rules)

  pub ask_clock-Preserves : Preserves P (ask_clock h)
  unfolding ask_clock
  ask_clock-Preserves = search (ask-Preserves)

  pub await_owner-Preserves : (id : String) → Preserves P (await_owner h id)
  unfolding await_owner
  await_owner-Preserves id = search (ask-Preserves)

pub ruleset host_rules = (
  exec_rules, read-Preserves, ask-Preserves, hit-Preserves, assert-Preserves,
  require_action-Preserves, require_provider-Preserves, require_spec-Preserves, ask_clock-Preserves,
  await_owner-Preserves,
)
