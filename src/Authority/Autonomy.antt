-- ===== src/Authority/Autonomy.antt =====
-- src/product/authority/autonomyLine.ts. Amounts and counts are natural numbers, as admission
-- accepts them. The sentence that a determination carries for a person is left out. `text_lt a b`
-- stands for `a.localeCompare(b) < 0`.
pub mod Laws
pub mod Line
mod Tests
use nyst.Base.{
  ℕ, ◌+◌, String, Bool, true, false, not, ◌&&◌, ◌||◌, Option, none, some, List, [], ◌∷◌, ◌≡◌, ◌↔◌,
  arith, eqb, ltb, filter, is_some, Eq, eq_by_rank, ◌==◌, string_eq, nat_eq, option_eq,
  if◌then◌else◌,
}

-- `AutonomyDisposition`
pub data AutonomyDisposition : Type 0 where
  autonomous human disabled : AutonomyDisposition

abbrev pub disposition_number : AutonomyDisposition → ℕ
disposition_number AutonomyDisposition.autonomous = 0
disposition_number AutonomyDisposition.human = 1
disposition_number AutonomyDisposition.disabled = 2

pub disposition_number_iff :
    (a b : AutonomyDisposition)
    → (eqb (disposition_number a) (disposition_number b) ≡ true) ↔ (a ≡ b)
disposition_number_iff a b = ground arith

instance abbrev pub autonomy_eq : Eq AutonomyDisposition
autonomy_eq = eq_by_rank disposition_number disposition_number_iff

pub record AutonomyRule : Type 0 where
  pub autonomy_rule_id : String
  pub agent_id : Option String
  pub effect_name : Option String
  pub outcome_spec : Option String
  pub resource_class : Option String
  pub max_amount_minor : Option ℕ
  pub currency : Option String
  pub max_actions_per_window : Option ℕ
  pub max_amount_minor_per_window : Option ℕ
  pub window_seconds : Option ℕ
  pub requires_reversible : Bool
  pub requires_no_open_incident : Bool
  pub requires_outcome_satisfied : Option String
  pub disposition : AutonomyDisposition
  pub rationale : String

pub record AutonomyRequest : Type 0 where
  pub asking_agent : Option String
  pub asked_effect : String
  pub asked_outcome : Option String
  pub asked_class : Option String
  pub amount_minor : Option ℕ
  pub asked_currency : Option String
  pub reversible : Option Bool
  pub actions_in_window : ℕ
  pub amount_in_window_minor : ℕ
  pub open_incident : Bool
  pub outcome_satisfied : Option Bool

-- The dimension that was decisive: `decided_by`.
pub data DecidedBy : Type 0 where
  no_rule_configured rule_disposition amount_per_action currency_mismatch action_count_window
        amount_window reversibility open_incident outcome_not_satisfied :
      DecidedBy

pub record AutonomyDetermination : Type 0 where
  pub determined : AutonomyDisposition
  pub rule : Option AutonomyRule
  pub decided_by : DecidedBy

-- `field ? points : 0`
unfoldable pub points : Option String → ℕ → ℕ
points none n = 0
points (some t) n = if t == "" then 0 else n

unfoldable pub rule_specificity : AutonomyRule → ℕ
unfolding points
rule_specificity rule =
    points rule.agent_id 8
    + points rule.effect_name 4
    + points rule.outcome_spec 2
    + points rule.resource_class 1

-- `field !== null && field !== value` does not hold.
unfoldable pub covers : Option String → Option String → Bool
covers none value = true
covers (some t) value = some t == value

unfoldable pub matches : AutonomyRule → AutonomyRequest → Bool
unfolding covers
matches rule request =
    covers rule.agent_id request.asking_agent
    && covers rule.effect_name (some request.asked_effect)
    && covers rule.outcome_spec request.asked_outcome
    && covers rule.resource_class request.asked_class

module _ (text_lt : String → String → Bool) where
  -- The comparison of the sort: the first comes strictly before the second.
  unfoldable pub precedes : AutonomyRule → AutonomyRule → Bool
  unfolding rule_specificity
  precedes left right =
      ltb (rule_specificity right) (rule_specificity left)
      || (eqb (rule_specificity left) (rule_specificity right)
          && text_lt left.autonomy_rule_id right.autonomy_rule_id)

  -- The first record of the stable sort: the first of the least.
  unfoldable pub first_sorted : AutonomyRule → List AutonomyRule → AutonomyRule
  unfolding precedes
  first_sorted best [] = best
  first_sorted best (r ∷ rs) = first_sorted (if precedes r best then r else best) rs

  -- `applicable[0] ?? null`
  unfoldable pub winner : List AutonomyRule → Option AutonomyRule
  unfolding first_sorted
  winner [] = none
  winner (r ∷ rs) = some (first_sorted r rs)

unfoldable pub applicable : List AutonomyRule → AutonomyRequest → List AutonomyRule
unfolding matches
applicable rules request = filter (λ (r : AutonomyRule). matches r request) rules

-- `value === true`, of a value that may be `null`
unfoldable pub is_true : Option Bool → Bool
is_true none = false
is_true (some b) = b

-- The tests of the bound on one amount, in their order.
unfoldable pub amount_refusal : AutonomyRule → AutonomyRequest → Option DecidedBy
amount_refusal rule request = elim rule.max_amount_minor [
  | none ↦ none
  | some most ↦ elim request.amount_minor [
    | none ↦ some DecidedBy.amount_per_action
    | some amount ↦
        if is_some rule.currency && not (request.asked_currency == rule.currency)
        then some DecidedBy.currency_mismatch
        else if ltb most amount
        then some DecidedBy.amount_per_action
        else none
  ]
]

unfoldable pub count_refusal : AutonomyRule → AutonomyRequest → Option DecidedBy
count_refusal rule request = elim rule.max_actions_per_window [
  | none ↦ none
  | some most ↦
      if ltb most (request.actions_in_window + 1) then some DecidedBy.action_count_window else none
]

unfoldable pub window_refusal : AutonomyRule → AutonomyRequest → Option DecidedBy
window_refusal rule request = elim rule.max_amount_minor_per_window [
  | none ↦ none
  | some most ↦ elim request.amount_minor [
    | none ↦ some DecidedBy.amount_window
    | some amount ↦
        if ltb most (request.amount_in_window_minor + amount)
        then some DecidedBy.amount_window
        else none
  ]
]

-- The first bound that an autonomous rule puts on the request and that does not hold.
unfoldable pub refusal : AutonomyRule → AutonomyRequest → Option DecidedBy
unfolding is_true amount_refusal count_refusal window_refusal
refusal rule request =
    if rule.requires_reversible && not (is_true request.reversible)
    then some DecidedBy.reversibility
    else if rule.requires_no_open_incident && request.open_incident
    then some DecidedBy.open_incident
    else if is_some rule.requires_outcome_satisfied && not (is_true request.outcome_satisfied)
    then some DecidedBy.outcome_not_satisfied
    else elim (amount_refusal rule request) [
      | some why ↦ some why
      | none ↦ elim (count_refusal rule request) [
        | some why ↦ some why
        | none ↦ window_refusal rule request
      ]
    ]

unfoldable pub decide : AutonomyRule → AutonomyRequest → AutonomyDetermination
unfolding refusal
decide r request =
    if r.disposition == AutonomyDisposition.disabled
    then record {
      determined = AutonomyDisposition.disabled;
      rule = some r;
      decided_by = DecidedBy.rule_disposition;
    }
    else if r.disposition == AutonomyDisposition.human
    then record {
      determined = AutonomyDisposition.human;
      rule = some r;
      decided_by = DecidedBy.rule_disposition;
    }
    else elim (refusal r request) [
      | some why ↦ record {
        determined = AutonomyDisposition.human;
        rule = some r;
        decided_by = why;
      }
      | none ↦ record {
        determined = AutonomyDisposition.autonomous;
        rule = some r;
        decided_by = DecidedBy.rule_disposition;
      }
    ]

-- `evaluateAutonomyLine`
unfoldable pub evaluate_autonomy_line :
    (String → String → Bool) → List AutonomyRule → AutonomyRequest → AutonomyDetermination
unfolding winner applicable decide
evaluate_autonomy_line text_lt rules request = elim (winner text_lt (applicable rules request)) [
  | none ↦ record {
    determined = AutonomyDisposition.human;
    rule = none;
    decided_by = DecidedBy.no_rule_configured;
  }
  | some r ↦ decide r request
]
