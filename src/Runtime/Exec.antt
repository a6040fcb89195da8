-- ===== src/Runtime/Exec.antt =====
-- Asynchronous methods that may throw: what was done before a throw stays done, so that the state
-- comes back beside the failure too.
pub mod Preserves
pub mod Returns
use nyst.Base.{Bool, true, false, Option, none, some, Result, ok, err}
use nyst.Store.{StoreError, stale_transition}

-- What the methods of the runtime throw. `thrown` stands for any error of a host or a provider.
pub data Failure : Type 0 where
  stored : StoreError → Failure
  thrown process_crash missing_effect_spec stale_decision unknown_action no_provider : Failure
  no_dispatch_plan lacks_dispatch_plan unstable_plan invalid_claim runtime_missing : Failure
  foreign_evidence malformed_input malformed_assessment malformed_decision id_taken : Failure
  continuation_blocked retry_unauthorized retry_not_safe retry_unavailable : Failure
  compensation_unsupported compensation_taken no_convergence spec_mismatch : Failure
  unresolvable_state : Failure

-- `error instanceof ProcessCrashError`
unfoldable pub is_crash : Failure → Bool
is_crash Failure.process_crash = true
is_crash _ = false

-- `/Stale transition/.test(message)`: the store throws such a message for a stale transition only.
unfoldable pub is_stale : Failure → Bool
is_stale (Failure.stored stale_transition) = true
is_stale _ = false

abbrev pub Exec : Type 0 → Type 0 → Type 0
Exec S A = S → Result Failure A × S

module _ {S A : Type 0} where
  unfoldable pub pure : A → Exec S A
  pure a w = (ok a, w)

  unfoldable pub raise : Failure → Exec S A
  raise e w = (err e, w)

  -- A value that is there, or the failure.
  unfoldable pub or_fail : Failure → Option A → Exec S A
  or_fail e none = raise e
  or_fail e (some a) = pure a

  -- `try { m } catch (error) { handle }`
  unfoldable pub settle : (Failure → Exec S A) → Result Failure A → Exec S A
  settle handle (ok a) w = (ok a, w)
  settle handle (err e) w = handle e w

  unfoldable pub rescue : Exec S A → (Failure → Exec S A) → Exec S A
  unfolding settle
  rescue m handle w = settle handle (m w).0 (m w).1

module _ {S A B : Type 0} where
  unfoldable pub resume : (A → Exec S B) → Result Failure A → Exec S B
  resume f (ok a) w = f a w
  resume f (err e) w = (err e, w)

  infixl 10 ◌>>=◌ ◌>>◌
  unfoldable pub ◌>>=◌ : Exec S A → (A → Exec S B) → Exec S B
  unfolding resume
  ◌>>=◌ m f w = resume f (m w).0 (m w).1

  abbrev pub ◌>>◌ : Exec S A → Exec S B → Exec S B
  m >> n = m >>= λ _. n

module _ {S : Type 0} where
  unfoldable pub guard : Bool → Failure → Exec S Unit
  guard true e = pure tt
  guard false e = raise e
