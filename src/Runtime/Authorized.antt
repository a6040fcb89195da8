-- ===== src/Runtime/Authorized.antt =====
-- A call of a provider that a decision must authorize: src/runtime/nystRuntime.ts makes it only on
-- the current resolution of the action, and only if that resolution says so.
pub mod Retry
pub mod Dependent
use nyst.Base.{String, Bool, true, false, some, ◌≡◌, refl, inl, ==_iff, string_eq, if◌then◌else◌}
use nyst.Model.Action.{ActionRecord}
use nyst.Model.Resolution.{OutcomeResolution}
use nyst.Store.{Store}
use nyst.Store.Resolutions.{latest}
use nyst.Runtime.Exec.{Exec, pure, ◌>>=◌}
use nyst.Runtime.Exec.Preserves.{Preserves}
use nyst.Runtime.Host.{Host, World, elapse, require_action}
use nyst.Runtime.Host.Ends.{or_fail-ends, guard-ends, read-ends, assoc-ends, pure-ends}
use nyst.Runtime.Operations.{require_current_resolution}
use nyst.Runtime.Discipline.Spending.{Leads}

module _ {S A : Type 0} {Q R : S → Type 0} where
  pub Leads-if :
      (b : Bool) (m n : Exec S A) → Leads Q R m → Leads Q R n → Leads Q R (if b then m else n)
  Leads-if true m n k l = k
  Leads-if false m n k l = l

  pub Leads-of : (m : Exec S A) → Preserves Q m → ((v : S) → Q v → R v) → Leads Q R m
  Leads-of m k weaken = record { after = λ v q. weaken _ (k.after v q) }

module _ {S B : Type 0} (P : S → Type 0) where
  -- A test that is left out where it is not needed.
  pub unless-ends :
      (b : Bool) (n : Exec S Unit) (f : Unit {0} → Exec S B) (w : S)
      → (b ≡ true → P (f tt w).1)
      → P ((n >>= f) w).1
      → P (((if b then pure tt else n) >>= f) w).1
  unless-ends true n f w k p = pure-ends P tt f w (k refl)
  unless-ends false n f w k p = p

module _ {Json : Type 0} (h : Host Json) {A : Type 0} (P : World Json → Type 0) where
  pub require_action-ends :
      (id : String) (f : ActionRecord Json → Exec (World Json) A) (w : World Json)
      → P (elapse h w)
      → ((a : ActionRecord Json) → (elapse h w).store.by_id id ≡ some a → P (f a (elapse h w)).1)
      → P ((require_action h id >>= f) w).1
  unfolding require_action
  require_action-ends id f w p k =
      assoc-ends P _ _ f w (read-ends h P _ _ w (or_fail-ends P _ _ f (elapse h w) p k))

  -- The current resolution is the named one.
  pub current-ends :
      (id resolution : String) (f : OutcomeResolution → Exec (World Json) A) (w : World Json)
      → P (elapse h w)
      → ((r : OutcomeResolution)
          → latest h.text_lt id (elapse h w).store ≡ some r
          → r.resolution_id ≡ resolution
          → P (f r (elapse h w)).1)
      → P ((require_current_resolution h id resolution >>= f) w).1
  unfolding require_current_resolution
  current-ends id resolution f w p k =
      let v : World Json = elapse h w in
      assoc-ends P _ _ f w (
        read-ends h P _ _ w (
          assoc-ends P _ _ f v (
            or_fail-ends P _ _ _ v p λ r found. assoc-ends P _ _ f v (
              guard-ends P _ _ _ v p λ same.
                pure-ends P r f v (k r found ((==_iff r.resolution_id resolution).0 same))))))
