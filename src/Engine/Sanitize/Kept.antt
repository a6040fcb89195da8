-- ===== src/Engine/Sanitize/Kept.antt =====
-- What the loops of `sanitizeAssessment` keep.
use nyst.Base.{
  false, Option, none, List, [], ◌∷◌, ◌++◌, ◌≡◌, ◌∙◌, All, All-append, includes, append-nil,
  append_assoc, Eq, Bool-cases, Option-cases, inl, inr,
}
use nyst.Engine.Adjustment.{Adjustment, adjustment_eq}
use nyst.Engine.Sanitize.{push_once, keep_backed}

module _ {ℓ} {A : Type ℓ} ⦃e : Eq A⦄ where
  -- The values of the list are distinct, and none is among those seen.
  abbrev pub IsFresh : List A → List A → Type 0
  IsFresh seen [] = Unit
  IsFresh seen (x ∷ xs) = (includes seen x ≡ false) × IsFresh (seen ++ x ∷ []) xs

  pub IsFresh-snoc :
      (seen xs : List A) (x : A)
      → IsFresh seen xs
      → includes (seen ++ xs) x ≡ false
      → IsFresh seen (xs ++ x ∷ [])
  IsFresh-snoc seen [] x h n = (rw append-nil at n, tt)
  IsFresh-snoc seen (y ∷ xs) x h n =
      (h.0, IsFresh-snoc (seen ++ y ∷ []) xs x h.1 (rw append_assoc n))

module _ {ℓ} {A : Type ℓ} ⦃e : Eq A⦄ where
  pub push_once-IsFresh : (x : A) (xs : List A) → IsFresh [] xs → IsFresh [] (push_once x xs)
  unfolding push_once
  push_once-IsFresh x xs h = elim (Bool-cases (includes xs x)) [
    | inl old ↦ rw old h
    | inr new ↦ rw new (IsFresh-snoc [] xs x h new)
  ]

  pub push_once-All :
      (P : A → Type 0) (x : A) (xs : List A) → P x → All P xs → All P (push_once x xs)
  unfolding push_once
  push_once-All P x xs p h = elim (Bool-cases (includes xs x)) [
    | inl old ↦ rw old h
    | inr new ↦ rw new (All-append P xs (x ∷ []) h (p, tt))
  ]

-- A loop result without refused values, each kept once.
abbrev pub IsKept {ℓ} : {A : Type ℓ} ⦃e : Eq A⦄ → (A → Option Adjustment) → List A → Type 0
IsKept reason xs = All (λ x. reason x ≡ none) xs × IsFresh [] xs

module _ {ℓ} {A : Type ℓ} ⦃e : Eq A⦄ (reason : A → Option Adjustment) where
  pub keep_backed-IsKept :
      (xs valid : List A) (adj : List Adjustment)
      → IsKept reason valid
      → IsKept reason (keep_backed reason xs valid adj).0
  unfolding keep_backed
  keep_backed-IsKept [] valid adj h = h
  keep_backed-IsKept (x ∷ xs) valid adj h = elim (Option-cases (reason x)) [
    | inl fine ↦
        rw (fine, keep_backed)
          (keep_backed-IsKept xs (push_once x valid) adj
            (push_once-All (λ y. reason y ≡ none) x valid fine h.0, push_once-IsFresh x valid h.1))
    | inr (code, bad) ↦ rw (bad, keep_backed) (keep_backed-IsKept xs valid (push_once code adj) h)
  ]

  keep_backed-of-IsFresh :
      (xs valid : List A) (adj : List Adjustment)
      → All (λ x. reason x ≡ none) xs
      → IsFresh valid xs
      → keep_backed reason xs valid adj ≡ (valid ++ xs, adj)
  unfolding keep_backed push_once
  keep_backed-of-IsFresh [] valid adj h n = rw append-nil
  keep_backed-of-IsFresh (x ∷ xs) valid adj h n =
      rw (h.0, keep_backed)
        (rw (n.0) (keep_backed-of-IsFresh xs (valid ++ x ∷ []) adj h.1 n.1 ∙ rw append_assoc))

  -- What was kept once is kept as it is, with no further adjustment.
  pub keep_backed-of-IsKept :
      (xs : List A) (adj : List Adjustment)
      → IsKept reason xs
      → keep_backed reason xs [] adj ≡ (xs, adj)
  keep_backed-of-IsKept xs adj h = keep_backed-of-IsFresh xs [] adj h.0 h.1
