-- ===== src/Runtime/Host/Returns.antt =====
-- What a method that returns has asked of its host and its store.
use nyst.Base.{ℕ, Option, none, some, Result, ok, err, ◌≡◌, refl}
use nyst.Model.Action.{ActionRecord}
use nyst.Store.{Store, StoreError}
use nyst.Runtime.Exec.{Failure, Exec, resume, ◌>>=◌}
use nyst.Runtime.Host.{Host, World, FaultPoint, refusing, elapse, landed, call, read, ask, hit}

module _ {Json : Type 0} (h : Host Json) where
  module _ {A B : Type 0} where
    pub read-returns :
        (g : Store Json → A) (f : A → Exec (World Json) B) (w : World Json) (r : B)
        → ((read h g >>= f) w).0 ≡ ok r
        → (f (g (elapse h w).store) (elapse h w)).0 ≡ ok r
    unfolding read ◌>>=◌ resume
    read-returns g f w r e = e

    asked :
        (x : Result Failure A) (f : A → Exec (World Json) B) (w : World Json) (r : B)
        → (resume f x w).0 ≡ ok r
        → (a : A) × (x ≡ ok a) × ((f a w).0 ≡ ok r)
    unfolding resume
    asked (ok a) f w r e = (a, refl, e)
    asked (err x) f w r e = absurd (cc e)

    pub ask-returns :
        (g : ℕ → Result Failure A) (f : A → Exec (World Json) B) (w : World Json) (r : B)
        → ((ask h g >>= f) w).0 ≡ ok r
        → (a : A) × (g (elapse h w).tick ≡ ok a) × ((f a (elapse h w)).0 ≡ ok r)
    unfolding ask ◌>>=◌
    ask-returns g f w r e = asked (g (elapse h w).tick) f (elapse h w) r e

    called :
        (x : Result StoreError (A × Store Json)) (f : A → Exec (World Json) B) (v : World Json)
        (r : B)
        → (resume f (landed h v x).0 (landed h v x).1).0 ≡ ok r
        → (a : A) × (t : Store Json) × (x ≡ ok (a, t)) × ((f a (record v { store = t })).0 ≡ ok r)
    unfolding resume landed
    called (err x) f v r e = absurd (cc e)
    called (ok (a, t)) f v r e = (a, t, refl, e)

    pub call-returns :
        (g : ℕ → Store Json → Result StoreError (A × Store Json)) (f : A → Exec (World Json) B)
        (w : World Json) (r : B)
        → ((call h g >>= f) w).0 ≡ ok r
        → (a : A) × (t : Store Json) × (g (elapse h w).tick (elapse h w).store ≡ ok (a, t))
          × ((f a (record (elapse h w) { store = t })).0 ≡ ok r)
    unfolding call ◌>>=◌
    call-returns g f w r e = called (g (elapse h w).tick (elapse h w).store) f (elapse h w) r e

  module _ {B : Type 0} where
    hit_refused :
        (o : Option Failure) (f : Unit {0} → Exec (World Json) B) (v : World Json) (r : B)
        → (resume f (refusing o) v).0 ≡ ok r
        → (f tt v).0 ≡ ok r
    unfolding refusing resume
    hit_refused none f v r e = e
    hit_refused (some x) f v r e = absurd (cc e)

    pub hit-returns :
        (p : FaultPoint) (a : ActionRecord Json) (f : Unit {0} → Exec (World Json) B)
        (w : World Json) (r : B)
        → ((hit h p a >>= f) w).0 ≡ ok r
        → (f tt (elapse h w)).0 ≡ ok r
    unfolding hit ask ◌>>=◌
    hit-returns p a f w r e = hit_refused (h.fault (elapse h w).tick p a) f (elapse h w) r e
