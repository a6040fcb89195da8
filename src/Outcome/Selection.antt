-- ===== src/Outcome/Selection.antt =====
-- `selectFact` and `compare` of src/product/outcome/invariantEngine.ts.
use Prim.Native.String
use nyst.Base.{
  ℕ, ◌+◌, ◌*◌, String, Bool, false, ◌&&◌, Option, none, some, List, [], ◌∷◌, map, filter, present,
  dedupe, length, leb, ltb, ◌==◌, string_eq, nat_eq, option_eq, if◌then◌else◌,
}
use nyst.Outcome.Facts.{FactValue, WorldFact, Invariant, InvariantContext, Script}

-- `Selection`
pub data Selection : Type 0 where
  fact : WorldFact → Selection
  missing : Selection
  contradiction : List String → List WorldFact → Selection

unfoldable pub max_age : Invariant → InvariantContext → ℕ
max_age i c = elim i.max_age_seconds [ none ↦ c.freshness_seconds | some n ↦ n ]

unfoldable pub is_about : Invariant → WorldFact → Bool
is_about i f = (f.subject_ref == i.subject_ref) && (f.property == i.property)

unfoldable pub describe : Script → FactValue → String
describe js FactValue.absent = "absent"
describe js (FactValue.string_set xs) = String.◌++◌ "[" (String.◌++◌ (js.join xs) "]")
describe js v = js.show v

unfoldable pub evidence_of : List WorldFact → List String
evidence_of facts = dedupe (present (map (λ (f : WorldFact). f.evidence_id) facts))

unfoldable pub usable_facts : Invariant → List WorldFact → List WorldFact
usable_facts i fresh =
    if i.accepts_corroborative then fresh else filter (λ f. f.authoritative) fresh

module _ (js : Script) where
  -- `ageSeconds <= maxAge`, in milliseconds; a time that is no number compares as false.
  unfoldable pub is_within : Invariant → InvariantContext → WorldFact → Bool
  unfolding max_age
  is_within i c f = elim (js.time f.observed_at) [
    | none ↦ false
    | some t ↦ leb c.now (t + 1000 * max_age i c)
  ]

  unfoldable pub is_fresh : Invariant → InvariantContext → WorldFact → Bool
  unfolding is_within
  is_fresh i c f =
      is_within i c f && elim (js.time f.fresh_until) [ none ↦ false | some t ↦ ltb c.now t ]

  -- The first of the newest: the head of the sort.
  unfoldable pub newest : WorldFact → List WorldFact → WorldFact
  newest best [] = best
  newest best (f ∷ fs) = newest (if js.text_lt best.observed_at f.observed_at then f else best) fs

  -- The least text: the head of the default sort.
  unfoldable pub least : String → List String → String
  least best [] = best
  least best (t ∷ ts) = least (if js.code_lt t best then t else best) ts

  unfoldable pub oldest : List String → Option String
  unfolding least
  oldest [] = none
  oldest (t ∷ ts) = some (least t ts)

  unfoldable pub disagreement : WorldFact → String
  unfolding describe
  disagreement f = String.◌++◌ f.provider (String.◌++◌ "=" (describe js f.value))

  unfoldable pub disagree : List WorldFact → Bool
  disagree authorities =
      ltb 1 (length (dedupe (map (λ (f : WorldFact). js.stringify f.value) authorities)))

  unfoldable pub choose : List WorldFact → Selection
  unfolding newest disagree disagreement
  choose [] = Selection.missing
  choose (f ∷ fs) =
      let authorities = filter (λ (x : WorldFact). x.authoritative) (f ∷ fs) in
      if disagree authorities
      then Selection.contradiction (dedupe (map disagreement authorities)) authorities
      else Selection.fact (newest f fs)

  -- `selectFact`: the three ways to miss a fact differ in their sentence only.
  unfoldable pub select_fact : Invariant → InvariantContext → Selection
  unfolding is_about is_fresh usable_facts choose
  select_fact i c = choose (usable_facts i (filter (is_fresh i c) (filter (is_about i) c.facts)))
