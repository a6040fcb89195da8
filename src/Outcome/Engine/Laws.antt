-- ===== src/Outcome/Engine/Laws.antt =====
-- What a result of the invariant engine rests on.
use mathlib.Core.List.{Memᴰ}
use nyst.Base.{
  ℕ, ◌+◌, ◌*◌, ◌≤◌, some, true, false, List, Option-cases, ◌⊎◌, ==_iff, [], ◌∷◌, filter, mem-filter,
  Bool-cases, inl, inr, ◌≡◌, ◌≢◌, refl, sym, ap, ◌∙◌, subst, arith, string_eq,
}
use nyst.Outcome.Facts.{
  WorldFact, Invariant, InvariantOperator, InvariantResult, result_eq, InvariantEvaluation,
  InvariantContext, Script,
}
use nyst.Outcome.Selection.{
  Selection, max_age, is_about, is_within, is_fresh, usable_facts, newest, disagree, choose,
  select_fact,
}
use nyst.Outcome.Engine.{
  verdict, is_capability, is_quantified, fact_result, base_evaluation, evaluate_selection,
  evaluate_single, evaluate_invariant,
}

module _ (js : Script) (i : Invariant) (c : InvariantContext) where
  -- An observation that the invariant may rest on: one of the facts, about its subject and property,
  -- fresh, and authoritative unless corroborative facts are accepted.
  pub record IsUsable (f : WorldFact) : Type 0 where
    pub known : Memᴰ f c.facts
    pub about : is_about i f ≡ true
    pub fresh : is_fresh js i c f ≡ true
    pub trusted : i.accepts_corroborative ≡ false → f.authoritative ≡ true

  newest-mem : (f : WorldFact) (fs : List WorldFact) → Memᴰ (newest js f fs) (f ∷ fs)
  unfolding newest
  newest-mem f [] = Memᴰ.head refl
  newest-mem f (x ∷ fs) = elim (Bool-cases (js.text_lt f.observed_at x.observed_at)) [
    | inl later ↦ rw later (Memᴰ.tail (newest-mem x fs))
    | inr other ↦ rw other (skip (newest-mem f fs))
  ]
    where
      skip : {y : WorldFact} → Memᴰ y (f ∷ fs) → Memᴰ y (f ∷ x ∷ fs)
      skip (Memᴰ.head e) = Memᴰ.head e
      skip (Memᴰ.tail m) = Memᴰ.tail (Memᴰ.tail m)

  choose-mem : (fs : List WorldFact) (f : WorldFact) → choose js fs ≡ Selection.fact f → Memᴰ f fs
  unfolding choose
  choose-mem [] f e = absurd (cc e)
  choose-mem (x ∷ fs) f e =
      elim (Bool-cases (disagree js (filter (λ y. y.authoritative) (x ∷ fs)))) [
        | inl apart ↦ absurd (cc (rw (apart, choose) at e))
        | inr agreed ↦
            let same : Selection.fact (newest js x fs) ≡ Selection.fact f =
              rw (agreed, choose) at e in
            let found : newest js x fs ≡ f = cc in
            subst (λ y. Memᴰ y (x ∷ fs)) found (newest-mem x fs)
      ]

  usable-mem :
      (fs : List WorldFact) (f : WorldFact)
      → Memᴰ f (usable_facts i fs)
      → Memᴰ f fs × (i.accepts_corroborative ≡ false → f.authoritative ≡ true)
  unfolding usable_facts
  usable-mem fs f m = elim (Bool-cases i.accepts_corroborative) [
    | inl any' ↦ (rw (any', usable_facts) at m, λ no'. absurd (cc))
    | inr strict ↦
        let (k, a) = mem-filter (λ y. y.authoritative) fs (rw (strict, usable_facts) at m) in
        (k, λ u. a)
  ]

  pub select-IsUsable : (f : WorldFact) → select_fact js i c ≡ Selection.fact f → IsUsable f
  unfolding select_fact
  select-IsUsable f e =
      let (m, trusted) = usable-mem _ f (choose-mem _ f e) in
      let (k, fresh) = mem-filter (is_fresh js i c) _ m in
      let (k', about) = mem-filter (is_about i) c.facts k in
      record { known = k'; about = about; fresh = fresh; trusted = trusted }

  -- A result that is not indeterminate rests on a usable observation.
  selection_result :
      (s : Selection) (r : InvariantResult)
      → (evaluate_selection js i c s).result ≡ r
      → r ≢ InvariantResult.indeterminate
      → (f : WorldFact) × (s ≡ Selection.fact f) × (fact_result js i c f ≡ r)
  unfolding evaluate_selection base_evaluation
  selection_result Selection.missing r e n = absurd (n (sym e))
  selection_result (Selection.contradiction texts facts) r e n = absurd (n (sym e))
  selection_result (Selection.fact f) r e n = (f, refl, e)

  pub single-IsUsable :
      (r : InvariantResult)
      → (evaluate_single js i c).result ≡ r
      → r ≢ InvariantResult.indeterminate
      → (f : WorldFact) × IsUsable f × (fact_result js i c f ≡ r)
  unfolding evaluate_single
  single-IsUsable r e n =
      let (f, found, result) = selection_result (select_fact js i c) r e n in
      (f, select-IsUsable f found, result)

  pub unquantified :
      is_capability i.operator ≡ false
      → is_quantified i.operator ≡ false
      → evaluate_invariant js i c ≡ evaluate_single js i c
  unfolding evaluate_invariant
  unquantified a b = rw (a, b) refl

  fact-freshness :
      (f : WorldFact)
      → i.operator ≡ InvariantOperator.freshness
      → fact_result js i c f ≡ verdict (is_within js i c f)
  unfolding fact_result
  fact-freshness f op = rw op refl

  fresh_within : (f : WorldFact) → is_fresh js i c f ≡ true → is_within js i c f ≡ true
  unfolding is_fresh
  fresh_within f e = ground (arith, e)

  -- A fact about the subject and the property of the invariant that was observed no longer ago than
  -- its window.
  pub record IsRecent : Type 0 where
    pub fact : WorldFact
    pub observed : ℕ
    pub known : Memᴰ fact c.facts
    pub subject : fact.subject_ref ≡ i.subject_ref
    pub property : fact.property ≡ i.property
    pub timed : js.time fact.observed_at ≡ some observed
    pub recent : c.now ≤ observed + 1000 * max_age i c

  within_time :
      (f : WorldFact)
      → is_within js i c f ≡ true
      → (t : ℕ) × (js.time f.observed_at ≡ some t) × (c.now ≤ t + 1000 * max_age i c)
  unfolding is_within
  within_time f e = elim (Option-cases (js.time f.observed_at)) [
    | inl timeless ↦ absurd (cc (rw (timeless, is_within) at e))
    | inr (t, timed) ↦ (t, timed, ground (arith, rw (timed, is_within) at e))
  ]

  named :
      (f : WorldFact)
      → is_about i f ≡ true
      → (f.subject_ref ≡ i.subject_ref) × (f.property ≡ i.property)
  unfolding is_about
  named f e = (
    (==_iff f.subject_ref i.subject_ref).0 (ground arith),
    (==_iff f.property i.property).0 (ground arith),
  )

  usable-IsRecent : (f : WorldFact) → IsUsable f → IsRecent
  usable-IsRecent f u =
      let (t, timed, recent) = within_time f (fresh_within f u.fresh) in
      record {
        fact = f;
        observed = t;
        known = u.known;
        subject = (named f u.about).0;
        property = (named f u.about).1;
        timed = timed;
        recent = recent;
      }

  -- An invariant of freshness is indeterminate, or it holds and rests on a fact about its subject
  -- and property that was observed no longer ago than its window: an observation that is too old
  -- is no observation, and the result is never false.
  pub freshness_lem :
      i.operator ≡ InvariantOperator.freshness
      → ((evaluate_invariant js i c).result ≡ InvariantResult.indeterminate)
        ⊎ (((evaluate_invariant js i c).result ≡ InvariantResult.holds) × IsRecent)
  freshness_lem op =
      let plain = unquantified (ap is_capability op) (ap is_quantified op) in
      let same = ap (λ (x : InvariantEvaluation). x.result) plain in
      elim (result_cases (evaluate_single js i c).result) [
        | inl open_ ↦ inl (same ∙ open_)
        | inr settled ↦
            let (f, usable, result) = single-IsUsable _ refl settled in
            let within = fresh_within f usable.fresh in
            inr (
              same ∙ sym result ∙ fact-freshness f op ∙ ap verdict within,
              usable-IsRecent f usable,
            )
      ]
    where
      result_cases :
          (r : InvariantResult)
          → (r ≡ InvariantResult.indeterminate) ⊎ (r ≢ InvariantResult.indeterminate)
      result_cases InvariantResult.holds = inr (λ q. cc)
      result_cases InvariantResult.fails = inr (λ q. cc)
      result_cases InvariantResult.indeterminate = inl refl
