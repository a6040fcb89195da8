-- ===== src/Authority/Autonomy/Line.antt =====
-- What the autonomy line grants, and which rule it applies.
use mathlib.Core.List.{Memᴰ}
use nyst.Base.{
  subst, ◌≤◌, String, Bool, true, some, some-injective, List, [], ◌∷◌, ◌≡◌, sym, ◌∙◌, inl, inr,
  mem-filter, filter-mem, Option-cases, string_eq, nat_eq, option_eq,
}
use nyst.Authority.Autonomy.{
  AutonomyDisposition, autonomy_eq, AutonomyRule, AutonomyRequest, rule_specificity, matches,
  first_sorted, winner, applicable, evaluate_autonomy_line,
}
use nyst.Authority.Autonomy.Laws.{
  Within, refusal-Within, decide_lem, decide-rule, first_mem, first_best, first_most,
}

module _ (text_lt : String → String → Bool) (rules : List AutonomyRule)
    (request : AutonomyRequest) where
  -- The rule that is applied: it is one of the rules, it covers the request, and no rule that
  -- covers it is more specific.
  pub record IsApplied (r : AutonomyRule) : Type 0 where
    pub listed : Memᴰ r rules
    pub covering : matches r request ≡ true
    pub most_specific :
        (c : AutonomyRule)
        → Memᴰ c rules
        → matches c request ≡ true
        → rule_specificity c ≤ rule_specificity r

  winner_mem : (rs : List AutonomyRule) (r : AutonomyRule) → winner text_lt rs ≡ some r → Memᴰ r rs
  unfolding winner
  winner_mem [] r h = absurd (cc h)
  winner_mem (x ∷ rs) r h =
      let q : first_sorted text_lt x rs ≡ r = some-injective _ _ h in
      elim (first_mem text_lt x rs) [
        | inl same ↦ Memᴰ.head (sym q ∙ same)
        | inr m ↦ Memᴰ.tail (subst (λ c. Memᴰ c rs) q m)
      ]

  winner_most :
      (rs : List AutonomyRule) (r c : AutonomyRule)
      → winner text_lt rs ≡ some r
      → Memᴰ c rs
      → rule_specificity c ≤ rule_specificity r
  unfolding winner
  winner_most [] r c h m = elim m [ ]
  winner_most (x ∷ rs) r c h (Memᴰ.head e) =
      rw (← some-injective _ _ h, e) (first_best text_lt x rs)
  winner_most (x ∷ rs) r c h (Memᴰ.tail m) =
      rw (← some-injective _ _ h) (first_most text_lt x rs c m)

  winner-IsApplied :
      (r : AutonomyRule) → winner text_lt (applicable rules request) ≡ some r → IsApplied r
  unfolding applicable
  winner-IsApplied r h =
      let (listed, covering) =
        mem-filter (λ (c : AutonomyRule). matches c request) rules
          (winner_mem (applicable rules request) r h) in
      record {
        listed = listed;
        covering = covering;
        most_specific = λ c m q.
            winner_most (applicable rules request) r c h
              (filter-mem (λ (c : AutonomyRule). matches c request) rules m q);
      }

  -- The rule that a determination names is the most specific of the rules that cover the request.
  pub rule-IsApplied :
      (r : AutonomyRule)
      → (evaluate_autonomy_line text_lt rules request).rule ≡ some r
      → IsApplied r
  unfolding evaluate_autonomy_line
  rule-IsApplied r h = elim (Option-cases (winner text_lt (applicable rules request))) [
    | inl nobody ↦ absurd (cc (rw (nobody, evaluate_autonomy_line) at h))
    | inr (w, won) ↦
        winner-IsApplied r
          (won ∙ sym (decide-rule w request) ∙ (rw (won, evaluate_autonomy_line) at h))
  ]

  -- An agent may act alone only under a rule that is the most specific of those that cover the
  -- request, that is autonomous, and whose every bound the request keeps: reversibility, incidents,
  -- the required outcome, the amount and its currency, the number of actions and the total amount in
  -- the window.
  pub autonomous-Within :
      (evaluate_autonomy_line text_lt rules request).determined ≡ AutonomyDisposition.autonomous
      → (r : AutonomyRule) × ((evaluate_autonomy_line text_lt rules request).rule ≡ some r)
        × IsApplied r
        × (r.disposition ≡ AutonomyDisposition.autonomous)
        × Within r request
  unfolding evaluate_autonomy_line
  autonomous-Within h = elim (Option-cases (winner text_lt (applicable rules request))) [
    | inl nobody ↦ absurd (cc (rw (nobody, evaluate_autonomy_line) at h))
    | inr (w, won) ↦
        let (granting, kept) = decide_lem w request (rw (won, evaluate_autonomy_line) at h) in
        (
          w,
          rw (won, evaluate_autonomy_line) (decide-rule w request),
          winner-IsApplied w won,
          granting,
          refusal-Within w request kept,
        )
  ]
