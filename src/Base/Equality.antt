-- ===== src/Base/Equality.antt =====
-- Decidable equality as an interface, with instances for numbers, texts and optional values.
use Prim.Native.Nat.{ℕ}
use Prim.Native.String.{String}
use mathlib.Core.Path.{◌≡◌, refl, ap}
use mathlib.Core.Logic.{◌↔◌}
use mathlib.Core.Bool.{Bool, true, false}
use mathlib.Core.Option.{Option, none, some}
use text.Mathlib.Text.{◌==◌ as same_text}
use text.Mathlib.TextEquality.{eq_iff}
use nyst.Base.Tests.{eqb, eqb_iff}

-- A test that says whether two values of a type are the same one.
pub record Eq {κ} (T : Type κ) : Type κ where
  pub same : T → T → Bool
  pub same_iff : (x y : T) → (same x y ≡ true) ↔ (x ≡ y)

-- Equality of the values of an enumeration, by the numbers of its constructors.
abbrev pub eq_by_rank {κ} :
    {T : Type κ} (rank : T → ℕ) → ((x y : T) → (eqb (rank x) (rank y) ≡ true) ↔ (x ≡ y)) → Eq T
eq_by_rank rank rank_iff = record { same = λ x y. eqb (rank x) (rank y); same_iff = rank_iff }

-- Texts by their characters.
instance abbrev pub string_eq : Eq String
string_eq = record { same = same_text; same_iff = eq_iff }

-- Numbers, of which the program compares natural ones only.
instance abbrev pub nat_eq : Eq ℕ
nat_eq = record { same = eqb; same_iff = eqb_iff }

-- `===`, on the types that have such a test.
infix 50 ◌==◌
abbrev pub ◌==◌ {κ} : {T : Type κ} ⦃test : Eq T⦄ → T → T → Bool
◌==◌ ⦃test⦄ x y = test.same x y

module _ {κ} {T : Type κ} ⦃test : Eq T⦄ where
  pub ==_iff : (x y : T) → ((x == y) ≡ true) ↔ (x ≡ y)
  ==_iff x y = test.same_iff x y

  abbrev pub option_same : Option T → Option T → Bool
  option_same none none = true
  option_same (some x) (some y) = x == y
  option_same _ _ = false

  pub option_same_iff : (x y : Option T) → (option_same x y ≡ true) ↔ (x ≡ y)
  option_same_iff none none = (λ _. refl, λ _. refl)
  option_same_iff (some x) (some y) =
      (λ h. ap {B = Option T} some ((==_iff x y).0 h), λ h. (==_iff x y).1 (cc))
  option_same_iff none (some y) = (λ h. cc, λ h. cc)
  option_same_iff (some x) none = (λ h. cc, λ h. cc)

  -- `===` between values that may be `null`.
  instance abbrev pub option_eq : Eq (Option T)
  option_eq = record { same = option_same; same_iff = option_same_iff }
