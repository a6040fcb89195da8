-- ===== src/Outcome/Verdict.antt =====
-- `combineVerdict` and `evaluateOutcome` of src/product/outcome/invariantEngine.ts.
pub mod Observed
use nyst.Base.{
  ℕ, Bool, true, false, not, Option, none, some, String, List, [], ◌∷◌, ◌++◌, map, filter, dedupe,
  length, is_empty, head?, ◌==◌, string_eq, if◌then◌else◌,
}
use nyst.Outcome.Facts.{
  Invariant, InvariantResult, result_eq, InvariantEvaluation, InvariantContext, Script,
}
use nyst.Outcome.Engine.{concat_map, evaluate_invariant}

-- `OUTCOME_VERDICTS`
pub data OutcomeVerdict : Type 0 where
  satisfied unsatisfied indeterminate : OutcomeVerdict

-- `primary` is the evaluation whose sentence is the primary reason.
pub record OutcomeEvaluationResult : Type 0 where
  pub verdict : OutcomeVerdict
  pub required : List InvariantEvaluation
  pub optional : List InvariantEvaluation
  pub coverage_numerator : ℕ
  pub coverage_denominator : ℕ
  pub primary : Option InvariantEvaluation
  pub facts_used : List String
  pub evidence_ids : List String

unfoldable pub with_result : InvariantResult → List InvariantEvaluation → List InvariantEvaluation
with_result r es = filter (λ (e : InvariantEvaluation). e.result == r) es

unfoldable pub verdict_of : List InvariantEvaluation → OutcomeVerdict
unfolding with_result
verdict_of required =
    if not (is_empty (with_result InvariantResult.fails required))
    then OutcomeVerdict.unsatisfied
    else if not (is_empty (with_result InvariantResult.indeterminate required))
    then OutcomeVerdict.indeterminate
    else OutcomeVerdict.satisfied

-- `combineVerdict`
unfoldable pub combine_verdict :
    List InvariantEvaluation → List InvariantEvaluation → OutcomeEvaluationResult
unfolding verdict_of with_result concat_map
combine_verdict required optional = record {
  verdict = verdict_of required;
  required = required;
  optional = optional;
  coverage_numerator = length (
      filter (λ (e : InvariantEvaluation). not (e.result == InvariantResult.indeterminate))
        required);
  coverage_denominator = length required;
  primary = elim (head? (with_result InvariantResult.fails required)) [
    | some e ↦ some e
    | none ↦ head? (with_result InvariantResult.indeterminate required)
  ];
  facts_used =
      dedupe (concat_map (λ (e : InvariantEvaluation). e.facts_used) (required ++ optional));
  evidence_ids =
      dedupe (concat_map (λ (e : InvariantEvaluation). e.evidence_ids) (required ++ optional));
}

-- `evaluateOutcome`
unfoldable pub evaluate_outcome :
    Script → List Invariant → List Invariant → InvariantContext → OutcomeEvaluationResult
unfolding combine_verdict evaluate_invariant
evaluate_outcome js required optional c =
    combine_verdict (map (λ i. evaluate_invariant js i c) required)
      (map (λ i. evaluate_invariant js i c) optional)
