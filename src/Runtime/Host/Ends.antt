-- ===== src/Runtime/Host/Ends.antt =====
-- Where a method ends, whether it returns or throws, from a world that is known: a rule for each way
-- to begin one.
use nyst.Base.{ℕ, Bool, true, false, Option, none, some, Result, ok, err, ◌≡◌, refl}
use nyst.Store.{Store}
use nyst.Runtime.Exec.{Failure, Exec, pure, raise, or_fail, resume, guard, ◌>>=◌}
use nyst.Runtime.Exec.Preserves.{Preserves, resume_after}
use nyst.Runtime.Host.{Host, World, elapse, read, ask}

module _ {S A B : Type 0} (P : S → Type 0) where
  pub or_fail-ends :
      (x : Failure) (o : Option A) (f : A → Exec S B) (w : S)
      → P w
      → ((a : A) → o ≡ some a → P (f a w).1)
      → P ((or_fail x o >>= f) w).1
  unfolding or_fail pure raise ◌>>=◌ resume
  or_fail-ends x none f w p k = p
  or_fail-ends x (some a) f w p k = k a refl

  -- What is known of the method alone.
  pub ends-bind :
      (m : Exec S A) (f : A → Exec S B) (w : S)
      → P (m w).1
      → ((a : A) → Preserves P (f a))
      → P ((m >>= f) w).1
  unfolding ◌>>=◌
  ends-bind m f w p k = resume_after f (m w).0 (m w).1 k p

module _ {S A B C : Type 0} (P : S → Type 0) where
  resume_assoc :
      (r : Result Failure A) (f : A → Exec S B) (g : B → Exec S C) (v : S)
      → P (resume (λ a. f a >>= g) r v).1
      → P (resume g (resume f r v).0 (resume f r v).1).1
  unfolding resume ◌>>=◌
  resume_assoc (ok a) f g v p = p
  resume_assoc (err x) f g v p = p

  -- A sequence whose first part is a sequence.
  pub assoc-ends :
      (m : Exec S A) (f : A → Exec S B) (g : B → Exec S C) (w : S)
      → P ((m >>= λ a. f a >>= g) w).1
      → P (((m >>= f) >>= g) w).1
  unfolding ◌>>=◌
  assoc-ends m f g w p = resume_assoc (m w).0 f g (m w).1 p

module _ {S A B : Type 0} (P : S → Type 0) where
  pub pure-ends : (a : A) (f : A → Exec S B) (w : S) → P (f a w).1 → P ((pure a >>= f) w).1
  unfolding pure ◌>>=◌ resume
  pure-ends a f w p = p

module _ {S B : Type 0} (P : S → Type 0) where
  pub guard-ends :
      (b : Bool) (x : Failure) (f : Unit {0} → Exec S B) (w : S)
      → P w
      → (b ≡ true → P (f tt w).1)
      → P ((guard b x >>= f) w).1
  unfolding guard pure raise ◌>>=◌ resume
  guard-ends true x f w p k = k refl
  guard-ends false x f w p k = p

module _ {Json : Type 0} (h : Host Json) {A B : Type 0} (P : World Json → Type 0) where
  pub read-ends :
      (g : Store Json → A) (f : A → Exec (World Json) B) (w : World Json)
      → P (f (g (elapse h w).store) (elapse h w)).1
      → P ((read h g >>= f) w).1
  unfolding read ◌>>=◌ resume
  read-ends g f w p = p

  asked :
      (x : Result Failure A) (f : A → Exec (World Json) B) (v : World Json)
      → P v
      → ((a : A) → P (f a v).1)
      → P (resume f x v).1
  unfolding resume
  asked (ok a) f v p k = k a
  asked (err x) f v p k = p

  pub ask-ends :
      (g : ℕ → Result Failure A) (f : A → Exec (World Json) B) (w : World Json)
      → P (elapse h w)
      → ((a : A) → P (f a (elapse h w)).1)
      → P ((ask h g >>= f) w).1
  unfolding ask ◌>>=◌
  ask-ends g f w p k = asked (g (elapse h w).tick) f (elapse h w) p k
