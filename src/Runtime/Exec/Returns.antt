-- ===== src/Runtime/Exec/Returns.antt =====
-- What a method that returns has done: a rule for each way to begin one.
use nyst.Base.{Result, err, Bool, true, false, Option, none, some, ok, ◌≡◌, refl}
use nyst.Runtime.Exec.{Failure, Exec, pure, raise, or_fail, resume, ◌>>=◌, guard}

module _ {S A : Type 0} where
  pub guard-returns :
      (b : Bool) (x : Failure) (f : Unit {0} → Exec S A) (w : S) (r : A)
      → ((guard b x >>= f) w).0 ≡ ok r
      → (b ≡ true) × ((f tt w).0 ≡ ok r)
  unfolding guard pure raise ◌>>=◌ resume
  guard-returns true x f w r e = (refl, e)
  guard-returns false x f w r e = absurd (cc e)

module _ {S A B : Type 0} where
  pub or_fail-returns :
      (x : Failure) (o : Option A) (f : A → Exec S B) (w : S) (r : B)
      → ((or_fail x o >>= f) w).0 ≡ ok r
      → (a : A) × (o ≡ some a) × ((f a w).0 ≡ ok r)
  unfolding or_fail pure raise ◌>>=◌ resume
  or_fail-returns x none f w r e = absurd (cc e)
  or_fail-returns x (some a) f w r e = (a, refl, e)

  resumed :
      (f : A → Exec S B) (x : Result Failure A) (w : S) (r : B)
      → (resume f x w).0 ≡ ok r
      → (a : A) × (x ≡ ok a) × ((f a w).0 ≡ ok r)
  unfolding resume
  resumed f (ok a) w r e = (a, refl, e)
  resumed f (err x) w r e = absurd (cc e)

  pub bind-returns :
      (m : Exec S A) (f : A → Exec S B) (w : S) (r : B)
      → ((m >>= f) w).0 ≡ ok r
      → (a : A) × ((m w).0 ≡ ok a) × ((f a (m w).1).0 ≡ ok r)
  unfolding ◌>>=◌
  bind-returns m f w r e = resumed f (m w).0 (m w).1 r e
