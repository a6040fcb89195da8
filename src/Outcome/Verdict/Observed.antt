-- ===== src/Outcome/Verdict/Observed.antt =====
-- What a satisfied outcome of src/product/outcome/invariantEngine.ts has seen of the world.
use mathlib.Core.List.{Memᴰ}
use mathlib.Core.List.Memᴰ
use nyst.Base.{
  String, true, false, not, ◌&&◌, List, [], ◌∷◌, map, filter, filter-mem, length, is_empty, ltb,
  Bool-cases, inl, inr, ◌≡◌, ◌≢◌, refl, sym, ap, ◌∙◌, arith, ◌==◌, ==_iff,
}
use nyst.Outcome.Facts.{
  WorldFact, Invariant, InvariantOperator, InvariantResult, result_eq, InvariantEvaluation,
  InvariantContext, Script,
}
use nyst.Outcome.Engine.{
  is_capability, is_quantified, is_any, members_of, base_evaluation, count_results,
  quantified_result, fact_result, evaluate_single, member_invariant, per_member, evaluate_members,
  evaluate_quantified, evaluate_invariant,
}
use nyst.Outcome.Engine.Laws.{IsUsable, single-IsUsable, unquantified}
use nyst.Outcome.Verdict.{
  OutcomeVerdict, with_result, verdict_of, combine_verdict, evaluate_outcome,
}

nothing_in : {A : Type 0} {x : A} (xs : List A) → ltb 0 (length xs) ≡ false → Memᴰ x xs → ⊥
nothing_in [] e m = elim m [ ]
nothing_in (x ∷ xs) e m = absurd (ground arith)

empty_lacks : {A : Type 0} {x : A} (xs : List A) → not (is_empty xs) ≡ false → Memᴰ x xs → ⊥
empty_lacks [] e m = elim m [ ]
empty_lacks (x ∷ xs) e m = absurd (cc e)

-- No evaluation has a result that is counted as zero.
uncounted :
    (r : InvariantResult) (es : List InvariantEvaluation) {e : InvariantEvaluation}
    → ltb 0 (count_results r es) ≡ false
    → Memᴰ e es
    → e.result ≢ r
unfolding count_results
uncounted r es {e} none' m same =
    nothing_in (filter (λ x. x.result == r) es) none'
      (filter-mem (λ x. x.result == r) es m ((==_iff e.result r).1 same))

other_result :
    (r : InvariantResult)
    → r ≢ InvariantResult.fails
    → r ≢ InvariantResult.indeterminate
    → r ≡ InvariantResult.holds
other_result InvariantResult.holds a b = refl
other_result InvariantResult.fails a b = absurd (a refl)
other_result InvariantResult.indeterminate a b = absurd (b refl)

seen_false :
    (r : InvariantResult)
    → r ≢ InvariantResult.holds
    → r ≢ InvariantResult.indeterminate
    → r ≡ InvariantResult.fails
seen_false InvariantResult.holds a b = absurd (a refl)
seen_false InvariantResult.fails a b = refl
seen_false InvariantResult.indeterminate a b = absurd (b refl)

module _ (i : Invariant) (es : List InvariantEvaluation)
    (done : quantified_result i es ≡ InvariantResult.holds) {e : InvariantEvaluation}
    (m : Memᴰ e es) where
  all_holds : i.operator ≡ InvariantOperator.all → e.result ≡ InvariantResult.holds
  unfolding quantified_result
  all_holds op = elim (Bool-cases (ltb 0 (count_results InvariantResult.fails es))) [
    | inl some' ↦ absurd (cc (rw (op, some', quantified_result) at done))
    | inr no_false ↦ elim (Bool-cases (ltb 0 (count_results InvariantResult.indeterminate es))) [
      | inl some' ↦ absurd (cc (rw (op, no_false, some', quantified_result) at done))
      | inr no_unknown ↦
          other_result e.result (uncounted _ es no_false m) (uncounted _ es no_unknown m)
    ]
  ]

  zero_fails : i.operator ≡ InvariantOperator.zero → e.result ≡ InvariantResult.fails
  unfolding quantified_result
  zero_fails op = elim (Bool-cases (ltb 0 (count_results InvariantResult.indeterminate es))) [
    | inl some' ↦ absurd (cc (rw (op, some', quantified_result) at done))
    | inr no_unknown ↦ elim (Bool-cases (ltb 0 (count_results InvariantResult.holds es))) [
      | inl some' ↦ absurd (ground (arith, rw (op, no_unknown, quantified_result) at done))
      | inr no_true ↦ seen_false e.result (uncounted _ es no_true m) (uncounted _ es no_unknown m)
    ]
  ]

module _ (js : Script) (c : InvariantContext) where
  -- A member of a quantified invariant that holds.
  member_result :
      (i : Invariant) (m : String)
      → is_quantified i.operator ≡ true
      → is_capability i.operator ≡ false
      → (evaluate_invariant js i c).result ≡ InvariantResult.holds
      → Memᴰ m (members_of i)
      → (quantified_result i (per_member js i c (members_of i)) ≡ InvariantResult.holds)
        × Memᴰ (evaluate_single js (member_invariant i m) c) (per_member js i c (members_of i))
  unfolding evaluate_invariant evaluate_quantified evaluate_members base_evaluation per_member
  member_result i m quant plain e k =
      let e' = rw (plain, quant, evaluate_invariant) at e in
      elim (Bool-cases (is_empty (members_of i))) [
        | inl none' ↦ absurd (cc (rw (none', evaluate_quantified) at e'))
        | inr some' ↦ elim (Bool-cases (is_any i.operator && not i.any_is_safe)) [
          | inl unsafe ↦ absurd (cc (rw (some', unsafe, evaluate_quantified) at e'))
          | inr safe ↦ (rw (some', safe, evaluate_quantified) at e', Memᴰ.map _ k)
        ]
      ]

  abbrev pub Rests : Invariant → InvariantResult → Type 0
  Rests i r = (f : WorldFact) × IsUsable js i c f × (fact_result js i c f ≡ r)

  holds-Rests :
      (i : Invariant)
      → is_quantified i.operator ≡ false
      → is_capability i.operator ≡ false
      → (evaluate_invariant js i c).result ≡ InvariantResult.holds
      → Rests i InvariantResult.holds
  holds-Rests i plain other e =
      single-IsUsable js i c InvariantResult.holds
        (ap (λ (x : InvariantEvaluation). x.result) (sym (unquantified js i c other plain)) ∙ e)
        (λ q. cc)

  all-Rests :
      (i : Invariant) (m : String)
      → i.operator ≡ InvariantOperator.all
      → (evaluate_invariant js i c).result ≡ InvariantResult.holds
      → Memᴰ m (members_of i)
      → Rests (member_invariant i m) InvariantResult.holds
  all-Rests i m op e k =
      let (done, found) = member_result i m (ap is_quantified op) (ap is_capability op) e k in
      single-IsUsable js (member_invariant i m) c InvariantResult.holds
        (all_holds i _ done found op) (λ q. cc)

  zero-Rests :
      (i : Invariant) (m : String)
      → i.operator ≡ InvariantOperator.zero
      → (evaluate_invariant js i c).result ≡ InvariantResult.holds
      → Memᴰ m (members_of i)
      → Rests (member_invariant i m) InvariantResult.fails
  zero-Rests i m op e k =
      let (done, found) = member_result i m (ap is_quantified op) (ap is_capability op) e k in
      single-IsUsable js (member_invariant i m) c InvariantResult.fails
        (zero_fails i _ done found op) (λ q. cc)

  required_holds :
      (required optional : List Invariant) (i : Invariant)
      → (evaluate_outcome js required optional c).verdict ≡ OutcomeVerdict.satisfied
      → Memᴰ i required
      → (evaluate_invariant js i c).result ≡ InvariantResult.holds
  unfolding evaluate_outcome combine_verdict verdict_of with_result
  required_holds required optional i e m =
      let es = map (λ x. evaluate_invariant js x c) required in
      let k : Memᴰ (evaluate_invariant js i c) es = Memᴰ.map _ m in
      elim (Bool-cases (not (is_empty (with_result InvariantResult.fails es)))) [
        | inl some' ↦ absurd (cc (rw (some', verdict_of) at e))
        | inr no_false ↦
            elim (Bool-cases (not (is_empty (with_result InvariantResult.indeterminate es)))) [
              | inl some' ↦ absurd (cc (rw (no_false, some', verdict_of) at e))
              | inr no_unknown ↦
                  other_result _
                    (λ q. empty_lacks _ no_false (
                      filter-mem (λ x. x.result == InvariantResult.fails) es k
                        ((==_iff _ InvariantResult.fails).1 q)))
                    (λ q. empty_lacks _ no_unknown (
                      filter-mem (λ x. x.result == InvariantResult.indeterminate) es k
                        ((==_iff _ InvariantResult.indeterminate).1 q)))
            ]
      ]

  -- A satisfied outcome has seen what it claims. Every required invariant that compares a fact holds
  -- of a usable observation, which is one of the facts, about its subject and property, fresh, and
  -- authoritative unless corroborative facts are accepted. Every member that an `all` invariant names
  -- has such an observation for which it holds, and every member that a `zero` invariant names has
  -- one for which it fails: nothing is claimed absent that was not seen to be absent.
  pub satisfied-Rests :
      (required optional : List Invariant) (i : Invariant)
      → (evaluate_outcome js required optional c).verdict ≡ OutcomeVerdict.satisfied
      → Memᴰ i required
      → (is_quantified i.operator ≡ false
          → is_capability i.operator ≡ false
          → Rests i InvariantResult.holds)
        × ((m : String)
            → Memᴰ m (members_of i)
            → (i.operator ≡ InvariantOperator.all
                → Rests (member_invariant i m) InvariantResult.holds)
              × (i.operator ≡ InvariantOperator.zero
                  → Rests (member_invariant i m) InvariantResult.fails))
  satisfied-Rests required optional i e m =
      let h = required_holds required optional i e m in
      (
        λ plain other. holds-Rests i plain other h,
        λ x k. (λ op. all-Rests i x op h k, λ op. zero-Rests i x op h k),
      )
