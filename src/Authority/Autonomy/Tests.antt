-- ===== src/Authority/Autonomy/Tests.antt =====
-- A line with two rules.
use nyst.Base.{String, Bool, true, false, none, some, List, [], ◌∷◌, ◌≡◌, refl, filter}
use nyst.Authority.Autonomy.{
  AutonomyDisposition, AutonomyRule, AutonomyRequest, DecidedBy, evaluate_autonomy_line,
}
use nyst.Authority.Autonomy.Laws.{Within}
use nyst.Authority.Autonomy.Line.{IsApplied, rule-IsApplied, autonomous-Within}

abbrev by_id : String → String → Bool
by_id a b = false

-- Anyone asks a person.
abbrev general : AutonomyRule
general = record {
  autonomy_rule_id = "r-1";
  agent_id = none;
  effect_name = none;
  outcome_spec = none;
  resource_class = none;
  max_amount_minor = none;
  currency = none;
  max_actions_per_window = none;
  max_amount_minor_per_window = none;
  window_seconds = none;
  requires_reversible = false;
  requires_no_open_incident = false;
  requires_outcome_satisfied = none;
  disposition = AutonomyDisposition.human;
  rationale = "ask";
}

-- One agent may pay up to 50 euros, and 100 in a day.
abbrev special : AutonomyRule
special = record general {
  autonomy_rule_id = "r-2";
  agent_id = some "agent-1";
  effect_name = some "payment.send";
  max_amount_minor = some 5000;
  currency = some "EUR";
  max_actions_per_window = some 3;
  max_amount_minor_per_window = some 10000;
  window_seconds = some 86400;
  requires_reversible = true;
  requires_no_open_incident = true;
  disposition = AutonomyDisposition.autonomous;
}

abbrev asked : AutonomyRequest
asked = record {
  asking_agent = some "agent-1";
  asked_effect = "payment.send";
  asked_outcome = none;
  asked_class = none;
  amount_minor = some 4000;
  asked_currency = some "EUR";
  reversible = some true;
  actions_in_window = 1;
  amount_in_window_minor = 4000;
  open_incident = false;
  outcome_satisfied = none;
}

abbrev line : List AutonomyRule
line = general ∷ special ∷ []

special_applies : (evaluate_autonomy_line by_id line asked).rule ≡ some special
unfolding evaluate_autonomy_line filter
special_applies = refl

alone : (evaluate_autonomy_line by_id line asked).determined ≡ AutonomyDisposition.autonomous
unfolding evaluate_autonomy_line filter
alone = refl

-- A third payment of the day would go over the total.
over_total :
    (evaluate_autonomy_line by_id line (record asked { amount_in_window_minor = 6001 })).decided_by
    ≡ DecidedBy.amount_window
unfolding evaluate_autonomy_line filter
over_total = refl

rule-IsApplied_example : IsApplied by_id line asked special
rule-IsApplied_example = rule-IsApplied by_id line asked special special_applies

autonomous-Within_example :
    (r : AutonomyRule) × ((evaluate_autonomy_line by_id line asked).rule ≡ some r)
    × IsApplied by_id line asked r
    × (r.disposition ≡ AutonomyDisposition.autonomous)
    × Within r asked
autonomous-Within_example = autonomous-Within by_id line asked alone
