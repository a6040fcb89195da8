-- ===== src/Runtime/Exec/Preserves.antt =====
-- What holds before a method holds after it, whether it returns or throws: a rule for each way to
-- build one.
use nyst.Base.{Bool, true, false, Option, none, some, Result, ok, err, if◌then◌else◌}
use nyst.Runtime.Exec.{Failure, Exec, pure, raise, or_fail, settle, rescue, resume, ◌>>=◌, guard}

pub record Preserves {S A : Type 0} (P : S → Type 0) (m : Exec S A) : Type 0 where
  pub after : (w : S) → P w → P (m w).1

module _ {S A : Type 0} {P : S → Type 0} where
  pub Preserves-pure : (a : A) → Preserves P (pure a)
  unfolding pure
  Preserves-pure a = record { after = λ w p. p }

  pub Preserves-raise : (e : Failure) → Preserves P (raise {A = A} e)
  unfolding raise
  Preserves-raise e = record { after = λ w p. p }

  pub Preserves-or_fail : (e : Failure) (o : Option A) → Preserves P (or_fail e o)
  unfolding or_fail
  Preserves-or_fail e none = Preserves-raise e
  Preserves-or_fail e (some a) = Preserves-pure a

  pub Preserves-if :
      (b : Bool) (m n : Exec S A) → Preserves P m → Preserves P n → Preserves P (if b then m else n)
  Preserves-if true m n p q = p
  Preserves-if false m n p q = q

  pub settle_after :
      (handle : Failure → Exec S A) (r : Result Failure A) (w : S)
      → ((e : Failure) → Preserves P (handle e))
      → P w
      → P (settle handle r w).1
  unfolding settle
  settle_after handle (ok a) w k p = p
  settle_after handle (err e) w k p = (k e).after w p

  pub Preserves-rescue :
      (m : Exec S A) (handle : Failure → Exec S A)
      → Preserves P m
      → ((e : Failure) → Preserves P (handle e))
      → Preserves P (rescue m handle)
  unfolding rescue
  Preserves-rescue m handle k l = record {
    after = λ w p. settle_after handle (m w).0 (m w).1 l (k.after w p);
  }

module _ {S : Type 0} {P : S → Type 0} where
  pub Preserves-guard : (b : Bool) (e : Failure) → Preserves P (guard b e)
  unfolding guard
  Preserves-guard true e = Preserves-pure tt
  Preserves-guard false e = Preserves-raise e

module _ {S A B : Type 0} {P : S → Type 0} where
  pub resume_after :
      (f : A → Exec S B) (r : Result Failure A) (w : S)
      → ((a : A) → Preserves P (f a))
      → P w
      → P (resume f r w).1
  unfolding resume
  resume_after f (ok a) w k p = (k a).after w p
  resume_after f (err e) w k p = p

  pub Preserves-bind :
      (m : Exec S A) (f : A → Exec S B)
      → Preserves P m
      → ((a : A) → Preserves P (f a))
      → Preserves P (m >>= f)
  unfolding ◌>>=◌
  Preserves-bind m f k l = record { after = λ w p. resume_after f (m w).0 (m w).1 l (k.after w p) }

pub ruleset exec_rules = (
  Preserves-pure, Preserves-raise, Preserves-or_fail, Preserves-if, Preserves-rescue,
  Preserves-guard, Preserves-bind,
)
