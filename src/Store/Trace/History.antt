-- ===== src/Store/Trace/History.antt =====
-- What a run keeps: the identity, the input and the plan of every action, and every record of
-- evidence.
use nyst.Base.{
  String, Bool, true, none, some, some-injective, List, [], ◌∷◌, ◌++◌, ◌≡◌, refl, sym, ap, ◌∙◌,
  subst, inl, inr, Map, MapAll, put, put_self, put_other, is_some, Bool-cases, ◌==◌, ==_iff,
  string_eq, append_assoc, append-nil,
}
use nyst.Model.Evidence.{NewEvidence, EvidenceRecord}
use nyst.Model.Action.{ActionRecord}
use nyst.Store.{Store}
use nyst.Store.Actions.{NewActionIntent, Recorded}
use nyst.Store.Actions.Lifecycle.{has_dispatched, Advanced, Advance-keeps}
use nyst.Store.Actions.Identity.{Outcome, replayed, created}
use nyst.Store.Evidence.{list_for_action}
use nyst.Store.Evidence.AppendOnly.{Appended, known, added}
use nyst.Store.Trace.Validity.{StoreValid}

-- An identity that is written was free.
put-Identity :
    (m : Map String) (key id : String) → m key ≡ none → MapAll (λ k j. put key id m k ≡ some j) m
put-Identity m key id free k j found = elim (Bool-cases (key == k)) [
  | inl here ↦ absurd (cc (ap m ((==_iff key k).0 here), free, found))
  | inr other ↦ put_other key id m k other ∙ found
]

module _ {Json : Type 0} where
  -- The same action later: nothing of its intent has changed, its plan has not once it is recorded,
  -- and it has not gone back behind its dispatch.
  pub record SameAction (r n : ActionRecord Json) : Type 0 where
    pub same_id : n.action_id ≡ r.action_id
    pub same_effect : n.effect_name ≡ r.effect_name
    pub same_key : n.business_key ≡ r.business_key
    pub same_input : n.input_hash ≡ r.input_hash
    pub same_plan : is_some r.dispatch_plan ≡ true → n.dispatch_plan ≡ r.dispatch_plan
    pub still_dispatched :
        has_dispatched r.internal_state ≡ true → has_dispatched n.internal_state ≡ true
    pub same_value : n.input ≡ r.input
    pub same_spec : n.spec_version ≡ r.spec_version
    pub same_context : n.context ≡ r.context
    pub same_creation : n.created_at ≡ r.created_at
    pub same_clock : n.created_clock ≡ r.created_clock

  SameAction-refl : (r : ActionRecord Json) → SameAction r r
  SameAction-refl r = record {
    same_id = refl;
    same_effect = refl;
    same_key = refl;
    same_input = refl;
    same_plan = λ h. refl;
    still_dispatched = λ h. h;
    same_value = refl;
    same_spec = refl;
    same_context = refl;
    same_creation = refl;
    same_clock = refl;
  }

  SameAction-trans : (r n m : ActionRecord Json) → SameAction r n → SameAction n m → SameAction r m
  SameAction-trans r n m a b = record {
    same_id = b.same_id ∙ a.same_id;
    same_effect = b.same_effect ∙ a.same_effect;
    same_key = b.same_key ∙ a.same_key;
    same_input = b.same_input ∙ a.same_input;
    same_plan = λ h. b.same_plan (ap is_some (a.same_plan h) ∙ h) ∙ a.same_plan h;
    still_dispatched = λ h. b.still_dispatched (a.still_dispatched h);
    same_value = b.same_value ∙ a.same_value;
    same_spec = b.same_spec ∙ a.same_spec;
    same_context = b.same_context ∙ a.same_context;
    same_creation = b.same_creation ∙ a.same_creation;
    same_clock = b.same_clock ∙ a.same_clock;
  }

  abbrev pub Survives : Map (ActionRecord Json) → String → ActionRecord Json → Type 0
  Survives m id r = (n : ActionRecord Json) × (m id ≡ some n) × SameAction r n

  abbrev pub Extends :
      Map (List (EvidenceRecord Json)) → String → List (EvidenceRecord Json) → Type 0
  Extends m id es = (more : List (EvidenceRecord Json)) × (m id ≡ some (es ++ more))

  pub record Later (s t : Store Json) : Type 0 where
    pub actions_survive : MapAll (Survives t.by_id) s.by_id
    pub identities_stay : MapAll (λ k id. t.by_identity k ≡ some id) s.by_identity
    pub ledgers_extend : MapAll (Extends t.evidence) s.evidence

  pub Later-refl : (s : Store Json) → Later s s
  Later-refl s = record {
    actions_survive = λ k r e. (r, e, SameAction-refl r);
    identities_stay = λ k id e. e;
    ledgers_extend =
        λ k es e. ([], e ∙ ap (λ (l : List (EvidenceRecord Json)). some l) (sym (append-nil es)));
  }

  pub Later-trans : (s t u : Store Json) → Later s t → Later t u → Later s u
  Later-trans s t u a b = record {
    actions_survive = λ k r e.
        let (n, found, same) = a.actions_survive k r e in
        let (m, found', same') = b.actions_survive k n found in
        (m, found', SameAction-trans r n m same same');
    identities_stay = λ k id e. b.identities_stay k id (a.identities_stay k id e);
    ledgers_extend = λ k es e.
        let (more, found) = a.ledgers_extend k es e in
        let (more', found') = b.ledgers_extend k (es ++ more) found in
        (
          more ++ more',
          found' ∙ ap (λ (l : List (EvidenceRecord Json)). some l) (append_assoc es more more'),
        );
  }

  -- One action is written: it is the same action as before, or its id is new.
  put-Survives :
      (m : Map (ActionRecord Json)) (id : String) (n : ActionRecord Json)
      → ((r : ActionRecord Json) → m id ≡ some r → SameAction r n)
      → MapAll (Survives (put id n m)) m
  put-Survives m id n same j r found = elim (Bool-cases (id == j)) [
    | inl here ↦
        let p : id ≡ j = (==_iff id j).0 here in
        (n, subst (λ k. put id n m k ≡ some n) p (put_self id n m), same r (ap m p ∙ found))
    | inr other ↦ (r, put_other id n m j other ∙ found, SameAction-refl r)
  ]

  found_list :
      (s : Store Json) (id : String) (es : List (EvidenceRecord Json))
      → s.evidence id ≡ some es
      → list_for_action id s ≡ es
  unfolding list_for_action
  found_list s id es found = rw (found, list_for_action) refl

  -- A ledger that is written is written longer.
  put-Extends :
      (s : Store Json) (id : String) (x : EvidenceRecord Json)
      → MapAll (Extends (put id (list_for_action id s ++ x ∷ []) s.evidence)) s.evidence
  put-Extends s id x j es found = elim (Bool-cases (id == j)) [
    | inl here ↦
        let p : id ≡ j = (==_iff id j).0 here in
        let list : list_for_action id s ≡ es = found_list s id es (ap s.evidence p ∙ found) in
        (
          x ∷ [],
          subst (λ k. put id (list_for_action id s ++ x ∷ []) s.evidence k ≡ some (es ++ x ∷ [])) p
              (put_self id _ s.evidence
                ∙ ap (λ (l : List (EvidenceRecord Json)). some (l ++ x ∷ [])) list),
        )
    | inr other ↦ (
      [],
      put_other id _ s.evidence j other
          ∙ found
          ∙ ap (λ (l : List (EvidenceRecord Json)). some l) (sym (append-nil es)),
    )
  ]

  pub Advanced-Later :
      (id : String) (s t : Store Json) (n : ActionRecord Json)
      → Advanced id s t n
      → StoreValid s
      → Later s t
  Advanced-Later id s t n a v =
      let kept = Advance-keeps a.advance (v.actions_stored id a.before a.found).0 in
      let same : SameAction a.before n = record {
        same_id = kept.0;
        same_effect = kept.1;
        same_key = kept.2;
        same_input = kept.3;
        same_plan = kept.4;
        still_dispatched = kept.5;
        same_value = kept.6;
        same_spec = kept.7;
        same_context = kept.8;
        same_creation = kept.9;
        same_clock = kept.10;
      } in
      subst (Later s) (sym a.stored) (record {
        actions_survive = put-Survives s.by_id id n (λ r found.
            subst (λ m. SameAction m n) (some-injective _ _ (sym a.found ∙ found)) same);
        identities_stay = λ k j e. e;
        ledgers_extend = (Later-refl s).ledgers_extend;
      })

  pub Outcome-Later :
      (schema : ActionRecord Json → Bool) (fresh : String) (intent : NewActionIntent Json)
      (s t : Store Json) (x : Recorded Json)
      → s.by_id fresh ≡ none
      → Outcome schema fresh intent s t x
      → Later s t
  Outcome-Later schema fresh intent s t x new (replayed id q found same old kept) =
      rw kept (Later-refl s)
  Outcome-Later schema fresh intent s t x new (created free made flag stored) =
      subst (Later s) (sym stored) (record {
        actions_survive = put-Survives s.by_id fresh x.action (λ r found. absurd (cc (new, found)));
        identities_stay = put-Identity s.by_identity _ fresh free;
        ledgers_extend = (Later-refl s).ledgers_extend;
      })

  pub Appended-Later :
      (hash : Json → String) (fresh : String) (ev : NewEvidence Json) (s t : Store Json)
      (x : EvidenceRecord Json)
      → Appended hash fresh ev s t x
      → Later s t
  Appended-Later hash fresh ev s t x (known text found kept) = rw kept (Later-refl s)
  Appended-Later hash fresh ev s t x (added exists new backed made stored) =
      subst (Later s) (sym stored) (record {
        actions_survive = (Later-refl s).actions_survive;
        identities_stay = λ k j e. e;
        ledgers_extend = put-Extends s ev.action_id x;
      })

  pub elsewhere-Later :
      (s t : Store Json)
      → t.by_id ≡ s.by_id
      → t.by_identity ≡ s.by_identity
      → t.evidence ≡ s.evidence
      → Later s t
  elsewhere-Later s t actions identities ledgers = record {
    actions_survive = rw actions (Later-refl s).actions_survive;
    identities_stay = rw identities (λ k j e. e);
    ledgers_extend = rw ledgers (Later-refl s).ledgers_extend;
  }
