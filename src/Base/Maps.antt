-- ===== src/Base/Maps.antt =====
-- A JavaScript `Map` with string keys, as a function, and the results of fallible operations.
use Prim.Native.String.{String}
use mathlib.Core.Path.{◌≡◌, refl, subst, ap}
use mathlib.Core.Logic.{◌⊎◌, inl, inr}
use mathlib.Core.Bool.{false}
use mathlib.Core.Option.{Option, some}
use native.Mathlib.Omega.{arith}
use text.Mathlib.TextEquality.{eq_iff}
use nyst.Base.Tests.{if◌then◌else◌, Bool-cases}
use nyst.Base.Equality.{◌==◌, string_eq}

abbrev pub Map {ℓ} : Type ℓ → Type ℓ
Map V = String → Option V

-- `map.set(key, value)`
unfoldable pub put {ℓ} : {V : Type ℓ} → String → V → Map V → Map V
put key v m = λ j. if key == j then some v else m j

-- A value, or the error that was thrown.
pub data Result {ℓ κ} (E : Type ℓ) (A : Type κ) : Type (ℓ ⊔ κ) where
  ok : A → Result E A
  err : E → Result E A

module _ {ℓ} {V : Type ℓ} (key : String) (v : V) (m : Map V) where
  pub put_self : put key v m key ≡ some v
  unfolding put
  put_self = ground (arith, eq_iff key key)

  pub put_other : (j : String) → (key == j) ≡ false → put key v m j ≡ m j
  unfolding put
  put_other j h = ground arith

-- Every entry of the map satisfies the predicate.
abbrev pub MapAll {ℓ} : {V : Type ℓ} → (String → V → Type 0) → Map V → Type ℓ
MapAll {V} P m = (key : String) (v : V) → m key ≡ some v → P key v

module _ {ℓ} {V : Type ℓ} (P : String → V → Type 0) (m : Map V) (key : String) (v : V) where
  pub put-MapAll : MapAll P m → P key v → MapAll P (put key v m)
  unfolding put
  put-MapAll h p j w e = elim (Bool-cases (key == j)) [
    | inl same ↦
        let q : v ≡ w = ground arith in
        subst (λ k. P k w) ((eq_iff key j).0 same) (subst (P key) q p)
    | inr other ↦ h j w (ground arith)
  ]

pub ok-injective {ℓ κ} :
    {E : Type ℓ} {A : Type κ} {a b : A} → ◌≡◌ {A = Result E A} (ok a) (ok b) → a ≡ b
ok-injective {E = E} {A = A} {a = a} h = ap (from_ok a) h
  where
    from_ok : A → Result E A → A
    from_ok d (ok a) = a
    from_ok d (err e) = d

pub Result-cases {ℓ κ} :
    {E : Type ℓ} {A : Type κ} (r : Result E A) → ((a : A) × (r ≡ ok a)) ⊎ ((e : E) × (r ≡ err e))
Result-cases (ok a) = inl (a, refl)
Result-cases (err e) = inr (e, refl)
