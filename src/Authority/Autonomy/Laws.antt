-- ===== src/Authority/Autonomy/Laws.antt =====
-- When an agent may act alone.
use mathlib.Core.List.{Memᴰ}
use native.Mathlib.Nat.{le_trans}
use nyst.Base.{
  subst, eqb, if◌then◌else◌, ℕ, ◌+◌, ◌≤◌, String, Bool, true, false, not, ◌&&◌, ◌||◌, Option, none,
  some, List, [], ◌∷◌, ◌≡◌, refl, sym, ◌⊎◌, inl, inr, arith, is_some, ltb, Bool-cases, Option-cases,
  ◌==◌, ==_iff, string_eq, nat_eq, option_eq,
}
use nyst.Authority.Autonomy.{
  AutonomyDisposition, autonomy_eq, AutonomyRule, AutonomyRequest, rule_specificity, precedes,
  first_sorted, amount_refusal, count_refusal, window_refusal, is_true, refusal, decide,
}

-- The request keeps every bound that the rule puts on it.
pub record Within (rule : AutonomyRule) (request : AutonomyRequest) : Type 0 where
  pub reversible_if : rule.requires_reversible ≡ true → request.reversible ≡ some true
  pub no_incident_if : rule.requires_no_open_incident ≡ true → request.open_incident ≡ false
  pub outcome_if :
      is_some rule.requires_outcome_satisfied ≡ true → request.outcome_satisfied ≡ some true
  pub amount_within :
      (most : ℕ)
      → rule.max_amount_minor ≡ some most
      → (amount : ℕ) × (request.amount_minor ≡ some amount)
        × (amount ≤ most)
        × (is_some rule.currency ≡ true → request.asked_currency ≡ rule.currency)
  pub count_within :
      (most : ℕ) → rule.max_actions_per_window ≡ some most → request.actions_in_window + 1 ≤ most
  pub window_within :
      (most : ℕ)
      → rule.max_amount_minor_per_window ≡ some most
      → (amount : ℕ) × (request.amount_minor ≡ some amount)
        × (request.amount_in_window_minor + amount ≤ most)

module _ (rule : AutonomyRule) (request : AutonomyRequest) where
  is_true_lem : (o : Option Bool) → is_true o ≡ true → o ≡ some true
  unfolding is_true
  is_true_lem o h = ground arith

  currency_lem :
      (c : Option String)
      → (is_some c && not (request.asked_currency == c)) ≡ false
      → is_some c ≡ true
      → request.asked_currency ≡ c
  currency_lem c h k = (==_iff request.asked_currency c).0 (ground arith)

  amount_lem :
      amount_refusal rule request ≡ none
      → (most : ℕ) → rule.max_amount_minor ≡ some most
      → (amount : ℕ) × (request.amount_minor ≡ some amount)
        × (amount ≤ most)
        × (is_some rule.currency ≡ true → request.asked_currency ≡ rule.currency)
  unfolding amount_refusal
  amount_lem h most q = elim (Option-cases request.amount_minor) [
    | inl missing ↦ absurd (cc (rw (q, missing, amount_refusal) at h))
    | inr (amount, given) ↦
        elim (Bool-cases (is_some rule.currency && not (request.asked_currency == rule.currency))) [
          | inl foreign ↦ absurd (cc (rw foreign at (rw (q, given, amount_refusal) at h)))
          | inr same ↦ elim (Bool-cases (ltb most amount)) [
            | inl above ↦ absurd (cc (rw (same, above) at (rw (q, given, amount_refusal) at h)))
            | inr below ↦ (amount, given, ground arith, currency_lem rule.currency same)
          ]
        ]
  ]

  count_lem :
      count_refusal rule request ≡ none
      → (most : ℕ) → rule.max_actions_per_window ≡ some most
      → request.actions_in_window + 1 ≤ most
  unfolding count_refusal
  count_lem h most q = elim (Bool-cases (ltb most (request.actions_in_window + 1))) [
    | inl above ↦ absurd (cc (rw above at (rw (q, count_refusal) at h)))
    | inr below ↦ ground arith
  ]

  window_lem :
      window_refusal rule request ≡ none
      → (most : ℕ) → rule.max_amount_minor_per_window ≡ some most
      → (amount : ℕ) × (request.amount_minor ≡ some amount)
        × (request.amount_in_window_minor + amount ≤ most)
  unfolding window_refusal
  window_lem h most q = elim (Option-cases request.amount_minor) [
    | inl missing ↦ absurd (cc (rw (q, missing, window_refusal) at h))
    | inr (amount, given) ↦ elim (Bool-cases (ltb most (request.amount_in_window_minor + amount))) [
      | inl above ↦ absurd (cc (rw above at (rw (q, given, window_refusal) at h)))
      | inr below ↦ (amount, given, ground arith)
    ]
  ]

  pub refusal-Within : refusal rule request ≡ none → Within rule request
  unfolding refusal
  refusal-Within h = record {
    reversible_if = λ q. is_true_lem request.reversible (ground arith);
    no_incident_if = λ q. ground arith;
    outcome_if = λ q. is_true_lem request.outcome_satisfied (ground arith);
    amount_within = amount_lem (ground arith);
    count_within = count_lem (ground arith);
    window_within = window_lem (ground arith);
  }

  pub decide_lem :
      (decide rule request).determined ≡ AutonomyDisposition.autonomous
      → (rule.disposition ≡ AutonomyDisposition.autonomous) × (refusal rule request ≡ none)
  unfolding decide
  decide_lem h = ground arith

  pub decide-rule : (decide rule request).rule ≡ some rule
  unfolding decide
  decide-rule = ground arith

sooner_le : (a b : ℕ) (t : Bool) → (ltb b a || (eqb a b && t)) ≡ true → b ≤ a
sooner_le a b t h = ground arith

later_le : (a b : ℕ) (t : Bool) → (ltb b a || (eqb a b && t)) ≡ false → a ≤ b
later_le a b t h = ground arith

module _ (text_lt : String → String → Bool) where
  -- The first of the sort is one of the rules, and none is more specific.
  pub first_mem :
      (best : AutonomyRule) (rs : List AutonomyRule)
      → (first_sorted text_lt best rs ≡ best) ⊎ Memᴰ (first_sorted text_lt best rs) rs
  unfolding first_sorted
  first_mem best [] = inl refl
  first_mem best (r ∷ rs) = elim (Bool-cases (precedes text_lt r best)) [
    | inl sooner ↦ elim (first_mem r rs) [
      | inl q ↦ inr (Memᴰ.head (rw sooner q))
      | inr m ↦ inr (Memᴰ.tail (rw sooner m))
    ]
    | inr later ↦ elim (first_mem best rs) [
      | inl q ↦ inl (rw later q)
      | inr m ↦ inr (Memᴰ.tail (rw later m))
    ]
  ]

  -- The rule that is kept is at least as specific as both that are compared.
  kept_best :
      (r best : AutonomyRule)
      → rule_specificity best ≤ rule_specificity (if precedes text_lt r best then r else best)
  unfolding precedes
  kept_best r best = elim (Bool-cases (precedes text_lt r best)) [
    | inl sooner ↦
        subst (λ b. rule_specificity best ≤ rule_specificity (if b then r else best)) (sym sooner)
          (sooner_le (rule_specificity r) (rule_specificity best) _ sooner)
    | inr later ↦
        subst (λ b. rule_specificity best ≤ rule_specificity (if b then r else best)) (sym later)
          (omega arith)
  ]

  kept_new :
      (r best : AutonomyRule)
      → rule_specificity r ≤ rule_specificity (if precedes text_lt r best then r else best)
  unfolding precedes
  kept_new r best = elim (Bool-cases (precedes text_lt r best)) [
    | inl sooner ↦
        subst (λ b. rule_specificity r ≤ rule_specificity (if b then r else best)) (sym sooner)
          (omega arith)
    | inr later ↦
        subst (λ b. rule_specificity r ≤ rule_specificity (if b then r else best)) (sym later)
          (later_le (rule_specificity r) (rule_specificity best) _ later)
  ]

  pub first_best :
      (best : AutonomyRule) (rs : List AutonomyRule)
      → rule_specificity best ≤ rule_specificity (first_sorted text_lt best rs)
  unfolding first_sorted
  first_best best [] = omega arith
  first_best best (r ∷ rs) =
      le_trans (kept_best r best) (first_best (if precedes text_lt r best then r else best) rs)

  pub first_most :
      (best : AutonomyRule) (rs : List AutonomyRule) (c : AutonomyRule)
      → Memᴰ c rs
      → rule_specificity c ≤ rule_specificity (first_sorted text_lt best rs)
  unfolding first_sorted
  first_most best (r ∷ rs) c (Memᴰ.tail m) =
      first_most (if precedes text_lt r best then r else best) rs c m
  first_most best (r ∷ rs) c (Memᴰ.head e) =
      rw e
        (le_trans (kept_new r best) (first_best (if precedes text_lt r best then r else best) rs))
  first_most best [] c m = elim m [ ]
