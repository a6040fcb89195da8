-- ===== src/Engine/Ledger/Strongest.antt =====
-- `strongest` against its description.
use mathlib.Core.List.{Memᴰ}
use nyst.Base.{
  ◌≤◌, true, false, Option, some, none, [], ◌∷◌, ◌≡◌, refl, inl, inr, any, any-mem, mem-any,
  Bool-cases, ==_iff, arith,
}
use nyst.Model.Evidence.{EvidenceRecord, EvidenceStrength, strength_eq, strength_rank}
use nyst.Engine.Ledger.{Evidence, strongest, has_strength}

module _ {Json : Type 0} where
  none_left :
      (es : Evidence Json)
      → any (has_strength EvidenceStrength.authoritative) es ≡ false
      → any (has_strength EvidenceStrength.corroborative) es ≡ false
      → any (has_strength EvidenceStrength.circumstantial) es ≡ false
      → any (has_strength EvidenceStrength.transport_only) es ≡ false
      → es ≡ []
  unfolding any has_strength
  none_left [] n₁ n₂ n₃ n₄ = refl
  none_left (e ∷ es) n₁ n₂ n₃ n₄ = ground arith

module _ {Json : Type 0} (es : Evidence Json) where
  -- The strength of some record, and no record is stronger: `strength_rank` is 0 for the strongest.
  abbrev pub IsStrongest : Option EvidenceStrength → Type 0
  IsStrongest none = es ≡ []
  IsStrongest (some s) =
      ((e : EvidenceRecord Json) × Memᴰ e es × (e.strength ≡ s))
      × ((e : EvidenceRecord Json) → Memᴰ e es → strength_rank s ≤ strength_rank e.strength)

  attained :
      (s : EvidenceStrength)
      → any (has_strength s) es ≡ true
      → (e : EvidenceRecord Json) × Memᴰ e es × (e.strength ≡ s)
  unfolding has_strength
  attained s h = let (e, m, p) = any-mem (has_strength s) es h in (e, m, (==_iff e.strength s).0 p)

  missing :
      (s : EvidenceStrength) {e : EvidenceRecord Json}
      → Memᴰ e es
      → any (has_strength s) es ≡ false
      → ¬ (e.strength ≡ s)
  unfolding has_strength
  missing s {e} m h q = cc (h, mem-any (has_strength s) es m ((==_iff e.strength s).1 q))

  pub strongest-IsStrongest : IsStrongest (strongest es)
  unfolding strongest
  strongest-IsStrongest = elim (Bool-cases (any (has_strength EvidenceStrength.authoritative) es)) [
    | inl h ↦ rw h (attained _ h, λ e m. omega arith)
    | inr n₁ ↦ elim (Bool-cases (any (has_strength EvidenceStrength.corroborative) es)) [
      | inl h ↦
          rw (n₁, h)
            (attained _ h, λ e m. ground (arith, missing EvidenceStrength.authoritative m n₁))
      | inr n₂ ↦ elim (Bool-cases (any (has_strength EvidenceStrength.circumstantial) es)) [
        | inl h ↦
            rw (n₁, n₂, h)
              (
                attained _ h,
                λ e m. ground (
                  arith,
                  missing EvidenceStrength.authoritative m n₁,
                  missing EvidenceStrength.corroborative m n₂,
                ),
              )
        | inr n₃ ↦ elim (Bool-cases (any (has_strength EvidenceStrength.transport_only) es)) [
          | inl h ↦
              rw (n₁, n₂, n₃, h)
                (
                  attained _ h,
                  λ e m. ground (
                    arith,
                    missing EvidenceStrength.authoritative m n₁,
                    missing EvidenceStrength.corroborative m n₂,
                    missing EvidenceStrength.circumstantial m n₃,
                  ),
                )
          | inr n₄ ↦ rw (n₁, n₂, n₃, n₄) (none_left es n₁ n₂ n₃ n₄)
        ]
      ]
    ]
  ]
