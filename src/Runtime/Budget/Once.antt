-- ===== src/Runtime/Budget/Once.antt =====
-- What any sequence of requests to src/runtime/nystRuntime.ts does: it runs the store, and it calls
-- a provider no more often than its claims were counted.
use nyst.Base.{
  ℕ, suc, ◌+◌, ◌≤◌, String, true, List, [], ◌∷◌, ◌≡◌, ap, subst, inl, inr, Bool-cases, Option-cases,
  arith, ==_iff, string_eq,
}
use nyst.Store.{Store, empty_store}
use nyst.Store.Trace.{Step, Steps, start, then_step, Reachable, did_claim, did_claim_compensation}
use nyst.Store.Trace.Validity.{StoreValid}
use nyst.Store.Trace.Reached.{Reachable-StoreValid}
use nyst.Runtime.Host.{Host, World, Call}
use nyst.Runtime.Operations.Serve.{Request, serve}
use nyst.Runtime.Discipline.Serving.{serve-Preserves}
use nyst.Runtime.Discipline.Spending.{Spending}
use nyst.Runtime.Budget.{same_call, made, account, account-Step, account-Steps, Steps-trans}
use nyst.Runtime.Budget.Claims.{account-claim_dispatch, account-claim_compensation}

-- The others use the store by its operations.
abbrev pub Peaceful : {Json : Type 0} → Host Json → Type 0
Peaceful {Json} h = (n : ℕ) (s : Store Json) → Steps h.text_lt h.hash s (h.others n s)

same_call_iff : (c x : Call) → same_call c x ≡ true → c ≡ x
same_call_iff (Call.dispatched i) (Call.dispatched j) e = ap Call.dispatched ((==_iff i j).0 e)
same_call_iff (Call.dispatched i) (Call.compensated j) e = absurd (cc e)
same_call_iff (Call.compensated i) (Call.dispatched j) e = absurd (cc e)
same_call_iff (Call.compensated i) (Call.compensated j) e = ap Call.compensated ((==_iff i j).0 e)

module _ {Json : Type 0} (h : Host Json) (peaceful : Peaceful h) (origin : Store Json) where
  abbrev Covered : List Call → Store Json → Type 0
  Covered cs s =
      Steps h.text_lt h.hash origin s × ((x : Call) → made x cs + account x origin ≤ account x s)

  -- One more claim covers one more call.
  Covered-call :
      (c : Call) (cs : List Call) (s t : Store Json)
      → Step h.text_lt h.hash s t
      → suc (account c s) ≤ account c t
      → Covered cs s
      → Covered (c ∷ cs) t
  unfolding made
  Covered-call c cs s t step counted (run, covered) = (
    then_step run step,
    λ x. elim (Bool-cases (same_call c x)) [
      | inl same ↦
          let p : c ≡ x = same_call_iff c x same in
          rw same (omega (arith, covered x, subst (λ y. suc (account y s) ≤ account y t) p counted))
      | inr other ↦ rw other (omega (arith, covered x, account-Step h.text_lt h.hash s t x step))
    ],
  )

  Covered-Spending : Spending h Covered
  unfolding made
  Covered-Spending = record {
    stepped = λ cs s t step (run, covered). (
      then_step run step,
      λ x. omega (arith, covered x, account-Step h.text_lt h.hash s t x step),
    );
    waited = λ cs n s (run, covered). (
      Steps-trans h.text_lt h.hash origin s (h.others n s) run (peaceful n s),
      λ x.
          omega
            (arith, covered x, account-Steps h.text_lt h.hash x s (h.others n s) (peaceful n s)),
    );
    forgot = λ c cs s (run, covered). (run, λ x. ground (arith, covered x));
    dispatch_granted = λ fresh id allowed guard c cs s t e granted covered.
        Covered-call (Call.dispatched id) cs s t (did_claim fresh id allowed guard c e)
          (account-claim_dispatch s t c h.text_lt fresh id allowed guard e granted) covered;
    compensation_granted = λ fresh id c cs s t e granted covered.
        Covered-call (Call.compensated id) cs s t (did_claim_compensation fresh id c e)
          (account-claim_compensation s t c fresh id e granted) covered;
  }

  Covered-start : (n : ℕ) → Covered [] origin
  unfolding made
  Covered-start n = (start, λ x. omega arith)

-- A runtime that begins to serve.
abbrev pub begin : {Json : Type 0} → ℕ → Store Json → World Json
begin n s = record { store = s; tick = n; calls = [] }

-- Whatever requests a runtime serves, and whatever its hosts, its providers and the faults do, its
-- store changes by operations of the store only, as long as all others change it so too.
serve-Steps :
    {Json : Type 0} (h : Host Json)
    → Peaceful h
    → (rs : List (Request Json)) (n : ℕ) (s : Store Json)
    → Steps h.text_lt h.hash s (serve h rs (begin n s)).1.store
serve-Steps h peaceful rs n s =
    ((serve-Preserves h (Covered-Spending h peaceful s) rs).after (begin n s)
      (Covered-start h peaceful s n)).0

-- Whatever requests a runtime serves, in a store that all others change by its operations only: no
-- dispatch and no compensation is sent beyond the claims that the store has counted since the
-- runtime began. Observations are not counted.
pub made-le-claims :
    {Json : Type 0} (h : Host Json)
    → Peaceful h
    → (rs : List (Request Json)) (n : ℕ) (s : Store Json) (c : Call)
    → let w = (serve h rs (begin n s)).1 in made c w.calls + account c s ≤ account c w.store
made-le-claims h peaceful rs n s c =
    ((serve-Preserves h (Covered-Spending h peaceful s) rs).after (begin n s)
        (Covered-start h peaceful s n)).1
      c

budget_dispatch :
    {Json : Type 0} (s : Store Json)
    → StoreValid s
    → (id : String) → (account (Call.dispatched id) s ≤ 2) × (account (Call.compensated id) s ≤ 1)
unfolding account
budget_dispatch s v id = elim (Option-cases (s.runtime id)) [
  | inl missing ↦ rw missing (omega arith, omega arith)
  | inr (r, found) ↦
      rw found ((v.runtime_sound id r found).budget, (v.runtime_sound id r found).compensated_once)
]

-- In a store that is reached by its operations and that all others change so too, no sequence of
-- requests, with any crashes, faults and interleavings, sends an action to its provider more than
-- twice or compensates it more than once.
pub serve-Budget :
    {Json : Type 0} (h : Host Json)
    → Peaceful h
    → (s : Store Json) → Reachable h.text_lt h.hash s
    → (rs : List (Request Json)) (n : ℕ) (id : String)
    → let w = (serve h rs (begin n s)).1 in
      (made (Call.dispatched id) w.calls ≤ 2) × (made (Call.compensated id) w.calls ≤ 1)
serve-Budget h peaceful s reached rs n id =
    let w = (serve h rs (begin n s)).1 in
    let v = Reachable-StoreValid h.text_lt h.hash w.store (
      Steps-trans h.text_lt h.hash empty_store s w.store reached (serve-Steps h peaceful rs n s)) in
    let limits = budget_dispatch w.store v id in
    (
      omega (arith, limits.0, made-le-claims h peaceful rs n s (Call.dispatched id)),
      omega (arith, limits.1, made-le-claims h peaceful rs n s (Call.compensated id)),
    )
