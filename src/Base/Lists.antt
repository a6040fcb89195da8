-- ===== src/Base/Lists.antt =====
-- Lists: the array methods that the source uses, with their laws.
use Prim.Native.Nat.{ℕ, zero, suc}
use mathlib.Core.Path.{◌≡◌, refl, sym}
use mathlib.Core.Logic.{◌⊎◌, inl, inr}
use mathlib.Core.Bool.{Bool, true, false, ◌&&◌, ◌||◌}
use mathlib.Core.Option.{Option, none, some}
use mathlib.Core.List.{List, [], ◌∷◌, ◌++◌, Memᴰ, map}
use native.Mathlib.Omega.{arith}
use nyst.Base.Tests.{if◌then◌else◌, Bool-cases, Option-cases}
use nyst.Base.Equality.{Eq, ◌==◌, ==_iff}

module _ {ℓ} {A : Type ℓ} where
  abbrev pub length : List A → ℕ
  length [] = 0
  length (x ∷ xs) = suc (length xs)

  -- `xs.length === 0`
  abbrev pub is_empty : List A → Bool
  is_empty [] = true
  is_empty (x ∷ xs) = false

  abbrev pub get_elem? : List A → ℕ → Option A
  get_elem? [] i = none
  get_elem? (x ∷ xs) zero = some x
  get_elem? (x ∷ xs) (suc i) = get_elem? xs i

  -- `xs.some(p)`
  unfoldable pub any : (A → Bool) → List A → Bool
  any p [] = false
  any p (x ∷ xs) = p x || any p xs

  -- `xs.every(p)`
  unfoldable pub all : (A → Bool) → List A → Bool
  all p [] = true
  all p (x ∷ xs) = p x && all p xs

  -- `xs.filter(p)`
  unfoldable pub filter : (A → Bool) → List A → List A
  filter p [] = []
  filter p (x ∷ xs) = let rest = filter p xs in if p x then x ∷ rest else rest

  -- `xs[0] ?? null`
  abbrev pub head? : List A → Option A
  head? [] = none
  head? (x ∷ xs) = some x

  pub any-mem : (p : A → Bool) (xs : List A) → any p xs ≡ true → (x : A) × Memᴰ x xs × (p x ≡ true)
  unfolding any
  any-mem p [] h = cc
  any-mem p (x ∷ xs) h = elim (Bool-cases (p x)) [
    | inl e ↦ (x, Memᴰ.head refl, e)
    | inr e ↦ let (y, m, q) = any-mem p xs (rw e at h) in (y, Memᴰ.tail m, q)
  ]

  pub mem-any : (p : A → Bool) {x : A} (xs : List A) → Memᴰ x xs → p x ≡ true → any p xs ≡ true
  unfolding any
  mem-any p (y ∷ xs) (Memᴰ.head e) h = rw (← e, h) refl
  mem-any p (y ∷ xs) (Memᴰ.tail m) h = rw (mem-any p xs m h) (ground arith)
  mem-any p [] m h = elim m [ ]

  pub any-imp :
      (p q : A → Bool) (xs : List A)
      → ((x : A) → p x ≡ true → q x ≡ true)
      → any p xs ≡ true
      → any q xs ≡ true
  any-imp p q xs f h = let (x, m, e) = any-mem p xs h in mem-any q xs m (f x e)

  pub Memᴰ-cases : {x y : A} {xs : List A} → Memᴰ x (y ∷ xs) → (x ≡ y) ⊎ Memᴰ x xs
  Memᴰ-cases (Memᴰ.head e) = inl e
  Memᴰ-cases (Memᴰ.tail m) = inr m

  pub mem-filter :
      (p : A → Bool) {x : A} (xs : List A) → Memᴰ x (filter p xs) → Memᴰ x xs × (p x ≡ true)
  unfolding filter
  mem-filter p [] m = elim m [ ]
  mem-filter p (y ∷ xs) m = elim (Bool-cases (p y)) [
    | inl e ↦ elim (Memᴰ-cases (rw (e, filter) at m)) [
      | inl f ↦ (Memᴰ.head f, rw f e)
      | inr k ↦ let (k', q) = mem-filter p xs k in (Memᴰ.tail k', q)
    ]
    | inr e ↦ let (k, q) = mem-filter p xs (rw (e, filter) at m) in (Memᴰ.tail k, q)
  ]

  pub filter-mem :
      (p : A → Bool) {x : A} (xs : List A) → Memᴰ x xs → p x ≡ true → Memᴰ x (filter p xs)
  unfolding filter
  filter-mem p [] m h = elim m [ ]
  filter-mem p (y ∷ xs) (Memᴰ.head f) h = rw (← f, h) (Memᴰ.head refl)
  filter-mem p (y ∷ xs) (Memᴰ.tail m) h = elim (Bool-cases (p y)) [
    | inl e ↦ rw e (Memᴰ.tail (filter-mem p xs m h))
    | inr e ↦ rw e (filter-mem p xs m h)
  ]

  -- The values that a list of optional values holds: `.filter((x) => x !== null)`.
  unfoldable pub present : List (Option A) → List A
  present [] = []
  present (none ∷ xs) = present xs
  present (some x ∷ xs) = x ∷ present xs

  pub present-map-mem {κ} :
      {B : Type κ} (f : B → Option A) (xs : List B) {a : A}
      → Memᴰ a (present (map f xs))
      → (x : B) × Memᴰ x xs × (f x ≡ some a)
  unfolding present
  present-map-mem f [] m = elim m [ ]
  present-map-mem f (x ∷ xs) m = elim (Option-cases (f x)) [
    | inl e ↦ let (y, k, q) = present-map-mem f xs (rw (e, present) at m) in (y, Memᴰ.tail k, q)
    | inr (b, e) ↦ elim (Memᴰ-cases (rw (e, present) at m)) [
      | inl same ↦ (x, Memᴰ.head refl, rw same e)
      | inr k ↦ let (y, k', q) = present-map-mem f xs k in (y, Memᴰ.tail k', q)
    ]
  ]

module _ {ℓ κ} {A : Type ℓ} (P : A → Type κ) where
  abbrev pub All : List A → Type κ
  All [] = Unit
  All (x ∷ xs) = P x × All xs

  pub All-mem : {a : A} (xs : List A) → All xs → Memᴰ a xs → P a
  All-mem [] h m = elim m [ ]
  All-mem (x ∷ xs) h (Memᴰ.head e) = rw e h.0
  All-mem (x ∷ xs) h (Memᴰ.tail m) = All-mem xs h.1 m

  pub All-append : (xs ys : List A) → All xs → All ys → All (xs ++ ys)
  All-append [] ys h k = k
  All-append (x ∷ xs) ys h k = (h.0, All-append xs ys h.1 k)

module _ {ℓ} {A : Type ℓ} ⦃e : Eq A⦄ where
  -- `xs.includes(a)`, and `set.has(a)` on the set of `xs`.
  unfoldable pub includes : List A → A → Bool
  includes [] a = false
  includes (x ∷ xs) a = (x == a) || includes xs a

  pub includes-append :
      (xs ys : List A) (a : A) → includes (xs ++ ys) a ≡ (includes xs a || includes ys a)
  unfolding includes
  includes-append [] ys a = refl
  includes-append (x ∷ xs) ys a = ground (arith, includes-append xs ys a)

  pub includes-mem : (xs : List A) (a : A) → includes xs a ≡ true → Memᴰ a xs
  unfolding includes
  includes-mem [] a h = cc
  includes-mem (x ∷ xs) a h = elim (Bool-cases (x == a)) [
    | inl f ↦ Memᴰ.head (sym ((==_iff x a).0 f))
    | inr f ↦ Memᴰ.tail (includes-mem xs a (rw f at h))
  ]

  pub mem-includes : {a : A} (xs : List A) → Memᴰ a xs → includes xs a ≡ true
  unfolding includes
  mem-includes [] m = elim m [ ]
  mem-includes {a} (x ∷ xs) (Memᴰ.head f) = rw ((==_iff x a).1 (sym f)) refl
  mem-includes {a} (x ∷ xs) (Memᴰ.tail m) = rw (mem-includes xs m) (ground arith)

  pub includes-map {κ} :
      {B : Type κ} (f : B → A) (xs : List B) (a : A)
      → includes (map f xs) a ≡ true
      → (x : B) × Memᴰ x xs × (f x ≡ a)
  unfolding includes
  includes-map f [] a h = cc
  includes-map f (x ∷ xs) a h = elim (Bool-cases (f x == a)) [
    | inl e ↦ (x, Memᴰ.head refl, (==_iff _ _).0 e)
    | inr e ↦ let (y, m, q) = includes-map f xs a (rw e at h) in (y, Memᴰ.tail m, q)
  ]

  -- `[...new Set(xs)]`: each value once, in the order of its first occurrence.
  unfoldable pub dedupe_onto : List A → List A → List A
  dedupe_onto seen [] = seen
  dedupe_onto seen (x ∷ xs) = dedupe_onto (if includes seen x then seen else seen ++ x ∷ []) xs

  unfoldable pub dedupe : List A → List A
  unfolding dedupe_onto includes
  dedupe xs = dedupe_onto [] xs
