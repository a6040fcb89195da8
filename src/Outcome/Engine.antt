-- ===== src/Outcome/Engine.antt =====
-- `evaluateInvariant`, `evaluateQuantified`, `combineVerdict` and `evaluateOutcome` of
-- src/product/outcome/invariantEngine.ts.
pub mod Laws
use Prim.Native.String
use nyst.Base.{
  ℕ, String, Bool, true, false, not, ◌&&◌, ◌||◌, Option, none, some, List, [], ◌∷◌, ◌++◌, map,
  filter, present, dedupe, includes, length, is_empty, is_some, head?, any, ltb, ◌==◌, string_eq,
  nat_eq, option_eq, if◌then◌else◌,
}
use nyst.Outcome.Facts.{
  ℤ, FactValue, WorldFact, Invariant, InvariantOperator, InvariantResult, result_eq,
  InvariantEvaluation, InvariantContext, Script,
}
use nyst.Outcome.Selection.{Selection, is_within, evidence_of, oldest, select_fact}

abbrev pub same_integer : ℤ → ℤ → Bool
same_integer (ℤ.pos a) (ℤ.pos b) = a == b
same_integer (ℤ.negsuc a) (ℤ.negsuc b) = a == b
same_integer _ _ = false

abbrev pub same_list : List String → List String → Bool
same_list [] [] = true
same_list (x ∷ xs) (y ∷ ys) = (x == y) && same_list xs ys
same_list _ _ = false

abbrev pub same_time : Option ℕ → Option ℕ → Bool
same_time (some a) (some b) = a == b
same_time _ _ = false

abbrev pub same_boolean : Bool → Bool → Bool
same_boolean true b = b
same_boolean false b = not b

-- `compare`: `none` where the two values are not comparable.
unfoldable pub compare_values : Script → FactValue → FactValue → Option Bool
compare_values js FactValue.absent FactValue.absent = some true
compare_values js (FactValue.text a) (FactValue.text b) = some (a == b)
compare_values js (FactValue.integer a) (FactValue.integer b) = some (same_integer a b)
compare_values js (FactValue.boolean a) (FactValue.boolean b) = some (same_boolean a b)
compare_values js (FactValue.timestamp a) (FactValue.timestamp b) =
    some (same_time (js.time a) (js.time b))
compare_values js (FactValue.string_set a) (FactValue.string_set b) =
    some (same_list (js.sort a) (js.sort b))
compare_values js _ _ = none

abbrev pub is_absent : FactValue → Bool
is_absent FactValue.absent = true
is_absent _ = false

abbrev pub verdict : Bool → InvariantResult
verdict b = if b then InvariantResult.holds else InvariantResult.fails

-- `quantified`
abbrev pub is_quantified : InvariantOperator → Bool
is_quantified InvariantOperator.all = true
is_quantified InvariantOperator.any = true
is_quantified InvariantOperator.count = true
is_quantified InvariantOperator.zero = true
is_quantified _ = false

-- `memberOperator`
unfoldable pub member_operator : Invariant → InvariantOperator
member_operator i =
    if is_some i.expected then InvariantOperator.equals else InvariantOperator.exists

-- `base`
unfoldable pub base_evaluation : Invariant → InvariantResult → InvariantEvaluation
base_evaluation i r = record {
  invariant_id = i.invariant_id;
  statement = i.statement;
  operator = i.operator;
  result = r;
  facts_used = [];
  evidence_ids = [];
  oldest_observed_at = none;
  missing_facts = [];
  contradictions = [];
}

unfoldable pub count_results : InvariantResult → List InvariantEvaluation → ℕ
count_results r es = length (filter (λ (e : InvariantEvaluation). e.result == r) es)

-- The `switch` of `evaluateQuantified`.
unfoldable pub quantified_result : Invariant → List InvariantEvaluation → InvariantResult
unfolding count_results
quantified_result i es =
    let trues = count_results InvariantResult.holds es in
    let falses = count_results InvariantResult.fails es in
    let unknown = count_results InvariantResult.indeterminate es in
    elim i.operator [
      | InvariantOperator.all ↦
          if ltb 0 falses
          then InvariantResult.fails
          else if ltb 0 unknown
          then InvariantResult.indeterminate
          else InvariantResult.holds
      | InvariantOperator.any ↦
          if ltb 0 trues
          then InvariantResult.holds
          else if ltb 0 unknown
          then InvariantResult.indeterminate
          else InvariantResult.fails
      | InvariantOperator.count ↦
          if ltb 0 unknown
          then InvariantResult.indeterminate
          else verdict (trues == elim i.expected_count [ none ↦ 0 | some n ↦ n ])
      | InvariantOperator.zero ↦
          if ltb 0 unknown then InvariantResult.indeterminate else verdict (trues == 0)
      | _ ↦ InvariantResult.indeterminate
    ]

unfoldable pub concat_map :
    (InvariantEvaluation → List String) → List InvariantEvaluation → List String
concat_map f [] = []
concat_map f (e ∷ es) = f e ++ concat_map f es

abbrev pub members_of : Invariant → List String
members_of i = elim i.members [ none ↦ [] | some ms ↦ ms ]

abbrev pub is_any : InvariantOperator → Bool
is_any InvariantOperator.any = true
is_any _ = false

abbrev pub is_capability : InvariantOperator → Bool
is_capability InvariantOperator.capability_present = true
is_capability _ = false

-- The invariant of one member: `equals` or `exists` on the member.
unfoldable pub member_invariant : Invariant → String → Invariant
unfolding member_operator
member_invariant i m = record i { members = none; operator = member_operator i; subject_ref = m }

module _ (js : Script) where
  -- The `switch` of `evaluateInvariant`, on the fact that was selected.
  unfoldable pub fact_result : Invariant → InvariantContext → WorldFact → InvariantResult
  unfolding is_within compare_values
  fact_result i c f = elim i.operator [
    | InvariantOperator.exists ↦ verdict (not (is_absent f.value))
    | InvariantOperator.freshness ↦ verdict (is_within js i c f)
    | InvariantOperator.equals ↦ elim i.expected [
      | none ↦ InvariantResult.indeterminate
      | some v ↦ elim (compare_values js f.value v) [
        | none ↦ InvariantResult.indeterminate
        | some b ↦ verdict b
      ]
    ]
    | InvariantOperator.not_equals ↦ elim i.expected [
      | none ↦ InvariantResult.indeterminate
      | some v ↦ elim (compare_values js f.value v) [
        | none ↦ InvariantResult.indeterminate
        | some b ↦ verdict (not b)
      ]
    ]
    | _ ↦ InvariantResult.indeterminate
  ]

  unfoldable pub evaluate_selection : Invariant → InvariantContext → Selection → InvariantEvaluation
  unfolding base_evaluation fact_result evidence_of oldest
  evaluate_selection i c Selection.missing =
      record (base_evaluation i InvariantResult.indeterminate) {
        missing_facts = String.◌++◌ i.subject_ref (String.◌++◌ "#" i.property) ∷ [];
      }
  evaluate_selection i c (Selection.contradiction texts facts) =
      record (base_evaluation i InvariantResult.indeterminate) {
        contradictions = texts;
        facts_used = map (λ (f : WorldFact). f.fact_id) facts;
        evidence_ids = evidence_of facts;
        oldest_observed_at = oldest js (map (λ (f : WorldFact). f.observed_at) facts);
      }
  evaluate_selection i c (Selection.fact f) = record (base_evaluation i (fact_result i c f)) {
    facts_used = f.fact_id ∷ [];
    evidence_ids = evidence_of (f ∷ []);
    oldest_observed_at = some f.observed_at;
  }

  -- `evaluateInvariant` on an operator that neither quantifies nor is `capability_present`.
  unfoldable pub evaluate_single : Invariant → InvariantContext → InvariantEvaluation
  unfolding select_fact evaluate_selection
  evaluate_single i c = evaluate_selection i c (select_fact js i c)

  unfoldable pub per_member : Invariant → InvariantContext → List String → List InvariantEvaluation
  unfolding member_invariant
  per_member i c ms = map (λ m. evaluate_single (member_invariant i m) c) ms

  unfoldable pub evaluate_members : Invariant → InvariantContext → List String → InvariantEvaluation
  unfolding per_member quantified_result base_evaluation concat_map oldest
  evaluate_members i c ms =
      let es = per_member i c ms in
      record (base_evaluation i (quantified_result i es)) {
        facts_used = concat_map (λ (e : InvariantEvaluation). e.facts_used) es;
        evidence_ids = dedupe (concat_map (λ (e : InvariantEvaluation). e.evidence_ids) es);
        missing_facts = concat_map (λ (e : InvariantEvaluation). e.missing_facts) es;
        contradictions = concat_map (λ (e : InvariantEvaluation). e.contradictions) es;
        oldest_observed_at =
            oldest js (present (map (λ (e : InvariantEvaluation). e.oldest_observed_at) es));
      }

  -- `evaluateQuantified`
  unfoldable pub evaluate_quantified : Invariant → InvariantContext → InvariantEvaluation
  unfolding evaluate_members base_evaluation
  evaluate_quantified i c =
      if is_empty (members_of i)
      then base_evaluation i InvariantResult.indeterminate
      else if is_any i.operator && not i.any_is_safe
      then base_evaluation i InvariantResult.indeterminate
      else evaluate_members i c (members_of i)

  unfoldable pub evaluate_capability : Invariant → InvariantContext → InvariantEvaluation
  unfolding base_evaluation
  evaluate_capability i c = base_evaluation i (
      verdict (includes c.held_capabilities (elim i.capability [ none ↦ "" | some token ↦ token ])))

  -- `evaluateInvariant`
  unfoldable pub evaluate_invariant : Invariant → InvariantContext → InvariantEvaluation
  unfolding evaluate_capability evaluate_quantified evaluate_single
  evaluate_invariant i c =
      if is_capability i.operator
      then evaluate_capability i c
      else if is_quantified i.operator
      then evaluate_quantified i c
      else evaluate_single i c
