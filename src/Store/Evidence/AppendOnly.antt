-- ===== src/Store/Evidence/AppendOnly.antt =====
-- The evidence ledger only grows.
use nyst.Base.{
  ℕ, ◌+◌, String, Bool, true, not, ◌&&◌, Option, none, some, List, [], ◌∷◌, ◌++◌, length, any, ◌≡◌,
  sym, ap, inl, inr, put, All, All-append, Result, ok, ok-injective, is_some, Bool-cases,
  Option-cases, arith, ◌==◌, ==_iff, option_eq, string_eq,
}
use nyst.Model.Evidence.{NewEvidence, EvidenceRecord}
use nyst.Store.{Store, StoreError}
use nyst.Store.Evidence.{
  is_text, list_for_action, find_event, duplicate_event, has_id, sealed, append,
}

module _ {Json : Type 0} where
  -- The sequence numbers count up from the one given.
  abbrev pub IsNumbered : ℕ → List (EvidenceRecord Json) → Type 0
  IsNumbered k [] = Unit
  IsNumbered k (e ∷ es) = (e.seq ≡ k + 1) × IsNumbered (k + 1) es

  pub IsNumbered-snoc :
      (k : ℕ) (es : List (EvidenceRecord Json)) (e : EvidenceRecord Json)
      → IsNumbered k es
      → e.seq ≡ k + length es + 1
      → IsNumbered k (es ++ e ∷ [])
  IsNumbered-snoc k [] e h q = (omega arith, tt)
  IsNumbered-snoc k (c ∷ es) e h q = (h.0, IsNumbered-snoc (k + 1) es e h.1 (omega arith))

  -- No two records stand for one provider event.
  abbrev pub HasEvent : Option String → EvidenceRecord Json → Type 0
  HasEvent event e = e.provider_event_id ≡ event

  abbrev pub IsUnique : List (EvidenceRecord Json) → Type 0
  IsUnique [] = Unit
  IsUnique (e ∷ es) =
      All
        (λ (c : EvidenceRecord Json).
          is_text e.provider_event_id ≡ true → ¬ HasEvent e.provider_event_id c)
        es
      × IsUnique es

  pub IsUnique-snoc :
      (es : List (EvidenceRecord Json)) (e : EvidenceRecord Json)
      → IsUnique es
      → (is_text e.provider_event_id ≡ true → find_event e.provider_event_id es ≡ none)
      → IsUnique (es ++ e ∷ [])
  unfolding find_event
  IsUnique-snoc [] e h new = (tt, tt)
  IsUnique-snoc (c ∷ es) e h new = (
    All-append _ es (e ∷ []) h.0 (λ t same. not_first t same (new (rw same t)), tt),
    IsUnique-snoc es e h.1 (λ t. later (new t)),
  )
    where
      not_first :
          is_text c.provider_event_id ≡ true
          → e.provider_event_id ≡ c.provider_event_id
          → find_event e.provider_event_id (c ∷ es) ≡ none
          → ⊥
      not_first t same q =
          let hit : (c.provider_event_id == e.provider_event_id) ≡ true =
            (==_iff c.provider_event_id e.provider_event_id).1 (sym same) in
          cc (rw hit at q)

      later :
          find_event e.provider_event_id (c ∷ es) ≡ none → find_event e.provider_event_id es ≡ none
      later q = ground arith

  -- What one successful `append` does: the event was known and nothing changes, or the record is
  -- added at the end of the list of its action, which exists.
  pub data Appended (hash : Json → String) (fresh : String) (ev : NewEvidence Json)
      (s t : Store Json) (x : EvidenceRecord Json) : Type 0 where
    known :
        is_text ev.provider_event_id ≡ true
        → find_event ev.provider_event_id (list_for_action ev.action_id s) ≡ some x
        → t ≡ s
        → Appended hash fresh ev s t x
    added :
        is_some (s.by_id ev.action_id) ≡ true
        → (is_text ev.provider_event_id ≡ true
            → find_event ev.provider_event_id (list_for_action ev.action_id s) ≡ none)
        → (is_text ev.supersedes_evidence_id ≡ true
            → any (has_id ev.supersedes_evidence_id) (list_for_action ev.action_id s) ≡ true)
        → x ≡ sealed hash fresh ev (list_for_action ev.action_id s)
        → t ≡ record s {
          evidence = put ev.action_id (list_for_action ev.action_id s ++ x ∷ []) s.evidence;
        }
        → Appended hash fresh ev s t x

module _ {Json : Type 0} (schema : EvidenceRecord Json → Bool) (hash : Json → String)
    (fresh : String) (ev : NewEvidence Json) (s t : Store Json) (x : EvidenceRecord Json) where
  result_of :
      (y : EvidenceRecord Json) (u : Store Json)
      → ◌≡◌ {A = Result StoreError (EvidenceRecord Json × Store Json)} (ok (y, u)) (ok (x, t))
      → (x ≡ y) × (t ≡ u)
  result_of y u e =
      let p = sym (ok-injective {E = StoreError} e) in
      (
        ap (λ (z : EvidenceRecord Json × Store Json). z.0) p,
        ap (λ (z : EvidenceRecord Json × Store Json). z.1) p,
      )

  duplicate_text :
      (c : EvidenceRecord Json)
      → duplicate_event ev (list_for_action ev.action_id s) ≡ some c
      → is_text ev.provider_event_id ≡ true
  unfolding duplicate_event
  duplicate_text c q = ground arith

  duplicate_found :
      (c : EvidenceRecord Json)
      → duplicate_event ev (list_for_action ev.action_id s) ≡ some c
      → find_event ev.provider_event_id (list_for_action ev.action_id s) ≡ some c
  unfolding duplicate_event
  duplicate_found c q = ground arith

  no_duplicate :
      duplicate_event ev (list_for_action ev.action_id s) ≡ none
      → is_text ev.provider_event_id ≡ true
      → find_event ev.provider_event_id (list_for_action ev.action_id s) ≡ none
  unfolding duplicate_event
  no_duplicate q h = ground arith

  -- An append that succeeds returns the record that already stands for the provider event, and then
  -- the store is as it was, or it adds the sealed record at the end of the ledger of an action that
  -- exists, and then the record it supersedes, if it names one, is in that ledger.
  pub append-Appended : append schema hash fresh ev s ≡ ok (x, t) → Appended hash fresh ev s t x
  unfolding append
  append-Appended e = elim (Bool-cases (is_some (s.by_id ev.action_id))) [
    | inr unknown ↦ absurd (cc (rw unknown at e))
    | inl exists ↦ elim (Option-cases (duplicate_event ev (list_for_action ev.action_id s))) [
      | inr (c, dup) ↦
          let (q, kept) = result_of _ _ (rw (exists, dup, append) at e) in
          known (duplicate_text c dup) (rw q (duplicate_found c dup)) kept
      | inl new ↦
          elim (Bool-cases (schema (sealed hash fresh ev (list_for_action ev.action_id s)))) [
            | inr refused ↦ absurd (cc (rw refused at (rw (exists, new, append) at e)))
            | inl fine ↦
                elim (Bool-cases (
                  is_text ev.supersedes_evidence_id
                  && not
                      (any (has_id ev.supersedes_evidence_id) (list_for_action ev.action_id s)))) [
                        | inl dangling ↦
                            absurd (cc (rw (fine, dangling) at (rw (exists, new, append) at e)))
                        | inr backed ↦
                            let (q, kept) =
                              result_of _ _
                                (rw (fine, backed) at (rw (exists, new, append) at e)) in
                            added exists (no_duplicate new) (λ h. ground arith) q (rw q kept)
                      ]
          ]
    ]
  ]
