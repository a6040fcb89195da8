-- ===== src/Runtime/Lifecycle/Converges.antt =====
-- `normalizeLifecycle` of src/runtime/nystRuntime.ts ends within its four attempts while no other
-- client changes the action.
use nyst.Base.{
  ℕ, suc, String, true, false, some, ◌≡◌, ◌≢◌, refl, ◌∙◌, put, put_self, is_some, inl, inr,
  Bool-cases, ==_iff, ok, includes, string_eq, ◌==◌,
}
use nyst.Model.Internal.{InternalState, internal_state_eq}
use nyst.Model.Action.{ActionRecord}
use nyst.Store.{Store}
use nyst.Store.Actions.{transition}
use nyst.Runtime.Exec.{pure, or_fail, rescue, settle, resume, ◌>>=◌}
use nyst.Runtime.Host.{Host, World, elapse, landed, call, read, require_action}
use nyst.Runtime.Lifecycle.{advance, ignore_stale, normalize, normalize_lifecycle}

module _ {Json : Type 0} (h : Host Json) (id : String)
    (quiet : (n : ℕ) (s : Store Json) → (h.others n s).by_id id ≡ s.by_id id) where
  require_lem :
      (w : World Json) (a : ActionRecord Json)
      → w.store.by_id id ≡ some a
      → require_action h id w ≡ (ok a, elapse h w)
  unfolding require_action read ◌>>=◌ resume or_fail pure
  require_lem w a e = rw (quiet w.tick w.store ∙ e) refl

  differ : (x y : InternalState) → (x == y) ≡ false → x ≢ y
  differ x y e same = absurd (cc ((==_iff x y).1 same, e))

  other_state : (x y : InternalState) → x ≢ y → (x == y) ≡ false
  other_state x y n = elim (Bool-cases (x == y)) [
    | inl same ↦ absurd (n ((==_iff x y).0 same))
    | inr other ↦ other
  ]

  normalize_rest :
      (n : ℕ) (w : World Json) (a : ActionRecord Json)
      → w.store.by_id id ≡ some a
      → a.internal_state ≢ InternalState.prepared
      → a.internal_state ≢ InternalState.dispatching
      → normalize h (suc n) id w ≡ (ok tt, elapse h w)
  unfolding normalize ◌>>=◌ resume pure
  normalize_rest n w a e p q = rw (require_lem w a e) (
      rw (other_state a.internal_state InternalState.prepared p)
        (rw (other_state a.internal_state InternalState.dispatching q) refl))

  -- The world in which the action has come to a state.
  abbrev arrived : World Json → ActionRecord Json → InternalState → World Json
  arrived w a to = record (elapse h w) {
    store = record (elapse h w).store {
      by_id = put id (record a { internal_state = to }) (elapse h w).store.by_id;
    };
  }

  -- The two transitions of a planned action.
  abbrev Goes : InternalState → InternalState → Type 0
  Goes from to =
      (s : Store Json) (a : ActionRecord Json)
      → s.by_id id ≡ some a
      → a.internal_state ≡ from
      → is_some a.dispatch_plan ≡ true
      → transition id from to s
        ≡ ok (
          record a { internal_state = to },
          record s { by_id = put id (record a { internal_state = to }) s.by_id },
        )

  to_dispatching : Goes InternalState.prepared InternalState.dispatching
  unfolding transition includes
  to_dispatching s a e at planned = rw (e, transition) (rw at (rw planned refl))

  to_observing : Goes InternalState.dispatching InternalState.observing
  unfolding transition includes
  to_observing s a e at planned = rw (e, transition) (rw at refl)

  advance_lem :
      (from to : InternalState) (w : World Json) (a : ActionRecord Json)
      → Goes from to
      → w.store.by_id id ≡ some a
      → a.internal_state ≡ from
      → is_some a.dispatch_plan ≡ true
      → rescue (advance h id from to) (ignore_stale h) w ≡ (ok tt, arrived w a to)
  unfolding rescue advance call landed settle ◌>>=◌ resume pure
  advance_lem from to w a goes e at planned =
      rw (goes (elapse h w).store a (quiet w.tick w.store ∙ e) at planned) refl

  normalize-prepared :
      (n : ℕ) (w : World Json) (a : ActionRecord Json)
      → w.store.by_id id ≡ some a
      → a.internal_state ≡ InternalState.prepared
      → is_some a.dispatch_plan ≡ true
      → normalize h (suc n) id w
        ≡ normalize h n id (arrived (elapse h w) a InternalState.dispatching)
  unfolding normalize ◌>>=◌ resume
  normalize-prepared n w a e at planned = rw (require_lem w a e) (
      rw at (
        rw (advance_lem _ _ (elapse h w) a to_dispatching (quiet w.tick w.store ∙ e) at planned)
          refl))

  normalize-dispatching :
      (n : ℕ) (w : World Json) (a : ActionRecord Json)
      → w.store.by_id id ≡ some a
      → a.internal_state ≡ InternalState.dispatching
      → is_some a.dispatch_plan ≡ true
      → normalize h (suc n) id w ≡ normalize h n id (arrived (elapse h w) a InternalState.observing)
  unfolding normalize ◌>>=◌ resume
  normalize-dispatching n w a e at planned = rw (require_lem w a e) (
      rw at (
        rw (advance_lem _ _ (elapse h w) a to_observing (quiet w.tick w.store ∙ e) at planned)
          refl))

  -- Where the action ends.
  abbrev pub Settled : World Json → Type 0
  Settled w =
      (b : ActionRecord Json) × (w.store.by_id id ≡ some b)
      × (b.internal_state ≢ InternalState.prepared)
      × (b.internal_state ≢ InternalState.dispatching)

  abbrev Converged : ℕ → World Json → Type 0
  Converged n w = ((normalize h n id w).0 ≡ ok tt) × Settled (normalize h n id w).1

  Converged-rest :
      (n : ℕ) (w : World Json) (a : ActionRecord Json)
      → w.store.by_id id ≡ some a
      → a.internal_state ≢ InternalState.prepared
      → a.internal_state ≢ InternalState.dispatching
      → Converged (suc n) w
  Converged-rest n w a e p q =
      rw (normalize_rest n w a e p q) (refl, (a, quiet w.tick w.store ∙ e, p, q))

  Converged-dispatching :
      (n : ℕ) (w : World Json) (a : ActionRecord Json)
      → w.store.by_id id ≡ some a
      → a.internal_state ≡ InternalState.dispatching
      → is_some a.dispatch_plan ≡ true
      → Converged (suc (suc n)) w
  Converged-dispatching n w a e at planned = rw (normalize-dispatching (suc n) w a e at planned) (
      Converged-rest n _ (record a { internal_state = InternalState.observing }) (put_self id _ _)
        (λ q. cc) (λ q. cc))

  Converged-prepared :
      (n : ℕ) (w : World Json) (a : ActionRecord Json)
      → w.store.by_id id ≡ some a
      → a.internal_state ≡ InternalState.prepared
      → is_some a.dispatch_plan ≡ true
      → Converged (suc (suc (suc n))) w
  Converged-prepared n w a e at planned = rw (normalize-prepared (suc (suc n)) w a e at planned) (
      Converged-dispatching n _ (record a { internal_state = InternalState.dispatching })
        (put_self id _ _) refl planned)

  -- While no other client changes the action, and once its plan is persisted, the four attempts are
  -- enough: the method returns, and the action is neither `prepared` nor `dispatching` any more.
  pub lifecycle-converges :
      (w : World Json) (a : ActionRecord Json)
      → w.store.by_id id ≡ some a
      → is_some a.dispatch_plan ≡ true
      → ((normalize_lifecycle h id w).0 ≡ ok tt) × Settled (normalize_lifecycle h id w).1
  unfolding normalize_lifecycle
  lifecycle-converges w a e planned =
      elim (Bool-cases (a.internal_state == InternalState.prepared)) [
        | inl prepared' ↦ Converged-prepared 1 w a e ((==_iff _ _).0 prepared') planned
        | inr p ↦ elim (Bool-cases (a.internal_state == InternalState.dispatching)) [
          | inl dispatching' ↦ Converged-dispatching 2 w a e ((==_iff _ _).0 dispatching') planned
          | inr q ↦ Converged-rest 3 w a e (differ _ _ p) (differ _ _ q)
        ]
      ]
