-- ===== src/Store/Trace/Validity.antt =====
-- The invariant of the store, and what keeps it.
use nyst.Base.{
  String, Bool, none, some, List, [], ◌∷◌, ◌++◌, ◌≡◌, refl, sym, ap, ◌∙◌, subst, inl, inr, Map,
  MapAll, put, put_self, put_other, put-MapAll, ok, Bool-cases, Option-cases, arith, ◌==◌, ==_iff,
  string_eq,
}
use nyst.Model.Evidence.{NewEvidence, EvidenceRecord}
use nyst.Model.Action.{ActionRecord}
use nyst.Model.Resolution.{OutcomeResolution}
use nyst.Store.{Store, empty_store}
use nyst.Store.Actions.{NewActionIntent, Recorded, identity_key, new_record}
use nyst.Store.Actions.Lifecycle.{
  Advanced, IsPlanned, new_record-IsPlanned, Advance-IsPlanned, Advance-keeps,
}
use nyst.Store.Actions.Identity.{Outcome, replayed, created}
use nyst.Store.Evidence.{list_for_action, sealed}
use nyst.Store.Evidence.AppendOnly.{
  IsNumbered, IsNumbered-snoc, IsUnique, IsUnique-snoc, Appended, known, added,
}
use nyst.Store.Resolutions.{save, resolutions_of}
use nyst.Store.Resolutions.Distinct.{IsDistinct, IsDistinct-snoc, save-Saved}
use nyst.Store.Runtime.Effects.{Effect, RuntimeSound, Effect-RuntimeSound, Effect-elsewhere}

module _ {Json : Type 0} where
  -- An action is stored under its own id, and it is planned before it is dispatched.
  abbrev pub IsStored : String → ActionRecord Json → Type 0
  IsStored id r = IsPlanned r × (r.action_id ≡ id)

  -- A ledger counts its records from 1 and holds every provider event once.
  abbrev pub IsLedger : String → List (EvidenceRecord Json) → Type 0
  IsLedger id es = IsNumbered 0 es × IsUnique es

  -- An identity names a stored action that has that identity.
  abbrev pub Names : Map (ActionRecord Json) → String → String → Type 0
  Names actions key id =
      (r : ActionRecord Json) × (actions id ≡ some r)
      × (identity_key r.effect_name r.business_key ≡ key)

  pub record StoreValid (s : Store Json) : Type 0 where
    pub runtime_sound : RuntimeSound s
    pub actions_stored : MapAll IsStored s.by_id
    pub ledgers_kept : MapAll IsLedger s.evidence
    pub identities_named : MapAll (Names s.by_id) s.by_identity
    pub resolutions_distinct : MapAll (λ k rs. IsDistinct rs) s.resolutions

  pub empty-StoreValid : StoreValid empty_store
  unfolding empty_store
  empty-StoreValid = record {
    runtime_sound = λ k v e. absurd (cc e);
    actions_stored = λ k v e. absurd (cc e);
    ledgers_kept = λ k v e. absurd (cc e);
    identities_named = λ k v e. absurd (cc e);
    resolutions_distinct = λ k v e. absurd (cc e);
  }

  -- A new action, and an action that advances, leave every identity where it was.
  put-Names :
      (m : Map (ActionRecord Json)) (id : String) (n : ActionRecord Json)
      → ((r : ActionRecord Json)
          → m id ≡ some r
          → identity_key n.effect_name n.business_key ≡ identity_key r.effect_name r.business_key)
      → (key j : String) → Names m key j
      → Names (put id n m) key j
  put-Names m id n same key j (r, found, q) = elim (Bool-cases (id == j)) [
    | inl here ↦
        let p : id ≡ j = (==_iff id j).0 here in
        (n, subst (λ k. put id n m k ≡ some n) p (put_self id n m), same r (ap m p ∙ found) ∙ q)
    | inr other ↦ (r, put_other id n m j other ∙ found, q)
  ]

  pub Advanced-StoreValid :
      (id : String) (s t : Store Json) (n : ActionRecord Json)
      → Advanced id s t n
      → StoreValid s
      → StoreValid t
  Advanced-StoreValid id s t n a v =
      let (planned, at_id) = v.actions_stored id a.before a.found in
      let kept = Advance-keeps a.advance planned in
      let same_identity : (r : ActionRecord Json)
          → s.by_id id ≡ some r
          → identity_key n.effect_name n.business_key ≡ identity_key r.effect_name r.business_key =
        λ r found. cc (kept.1, kept.2, a.found, found) in
      subst StoreValid (sym a.stored) (record {
        runtime_sound = v.runtime_sound;
        resolutions_distinct = v.resolutions_distinct;
        actions_stored =
            put-MapAll IsStored s.by_id id n v.actions_stored
              (Advance-IsPlanned a.advance planned, kept.0 ∙ at_id);
        ledgers_kept = v.ledgers_kept;
        identities_named = λ key j e.
            put-Names s.by_id id n (λ r found. same_identity r found) key j
              (v.identities_named key j e);
      })

  pub Outcome-StoreValid :
      (schema : ActionRecord Json → Bool) (fresh : String) (intent : NewActionIntent Json)
      (s t : Store Json) (x : Recorded Json)
      → s.by_id fresh ≡ none
      → Outcome schema fresh intent s t x
      → StoreValid s
      → StoreValid t
  Outcome-StoreValid schema fresh intent s t x new (replayed id q found same old kept) v = rw kept v
  Outcome-StoreValid schema fresh intent s t x new (created none_ made flag stored) v =
      let key = identity_key intent.effect_name intent.business_key in
      subst StoreValid (sym stored) (record {
        runtime_sound = v.runtime_sound;
        resolutions_distinct = v.resolutions_distinct;
        actions_stored = put-MapAll IsStored s.by_id fresh x.action v.actions_stored (
            subst (IsStored fresh) (sym made)
              (new_record-IsPlanned intent fresh, unfold new_record in refl));
        ledgers_kept = v.ledgers_kept;
        identities_named =
            put-MapAll (Names (put fresh x.action s.by_id)) s.by_identity key fresh
              (λ k j e.
                put-Names s.by_id fresh x.action (λ r found. absurd (cc (new, found))) k j
                  (v.identities_named k j e))
              (x.action, put_self fresh x.action s.by_id, rw made (unfold new_record in refl));
      })

  list_IsLedger :
      (s : Store Json) (id : String)
      → MapAll IsLedger s.evidence
      → IsLedger id (list_for_action id s)
  unfolding list_for_action
  list_IsLedger s id h = elim (Option-cases (s.evidence id)) [
    | inl missing ↦ rw (missing, list_for_action) (tt, tt)
    | inr (es, found) ↦ rw (found, list_for_action) (h id es found)
  ]

  pub Appended-StoreValid :
      (hash : Json → String) (fresh : String) (ev : NewEvidence Json) (s t : Store Json)
      (x : EvidenceRecord Json)
      → Appended hash fresh ev s t x
      → StoreValid s
      → StoreValid t
  Appended-StoreValid hash fresh ev s t x (known text found kept) v = rw kept v
  Appended-StoreValid hash fresh ev s t x (added exists new backed made stored) v =
      let list = list_for_action ev.action_id s in
      let old : IsLedger ev.action_id list = list_IsLedger s ev.action_id v.ledgers_kept in
      subst StoreValid (sym stored) (record {
        runtime_sound = v.runtime_sound;
        resolutions_distinct = v.resolutions_distinct;
        actions_stored = v.actions_stored;
        ledgers_kept = put-MapAll IsLedger s.evidence ev.action_id (list ++ x ∷ []) v.ledgers_kept (
          IsNumbered-snoc 0 list x old.0 rw made (unfold sealed in omega arith),
          IsUnique-snoc list x old.1 rw made (unfold sealed in new),
        );
        identities_named = v.identities_named;
      })

  -- An operation of the runtime ledger touches no other ledger.
  pub Effect-StoreValid :
      (id : String) (s t : Store Json) → Effect id s t → StoreValid s → StoreValid t
  Effect-StoreValid id s t e v =
      let sound : RuntimeSound t = Effect-RuntimeSound id s t e v.runtime_sound in
      let (actions, identities, ledgers, resolutions) = Effect-elsewhere e in
      record {
        runtime_sound = sound;
        actions_stored = rw actions v.actions_stored;
        ledgers_kept = rw ledgers v.ledgers_kept;
        resolutions_distinct = rw resolutions v.resolutions_distinct;
        identities_named = rw (actions, identities) v.identities_named;
      }

  list_IsDistinct :
      (s : Store Json) (id : String)
      → MapAll (λ k rs. IsDistinct rs) s.resolutions
      → IsDistinct (resolutions_of id s)
  unfolding resolutions_of
  list_IsDistinct s id h = elim (Option-cases (s.resolutions id)) [
    | inl missing ↦ rw (missing, resolutions_of) tt
    | inr (rs, found) ↦ rw (found, resolutions_of) (h id rs found)
  ]

  pub save-StoreValid :
      (schema : OutcomeResolution → Bool) (r : OutcomeResolution) (s t : Store Json)
      → save schema r s ≡ ok t
      → StoreValid s
      → StoreValid t
  save-StoreValid schema r s t e v =
      let saved = save-Saved schema r s t e in
      let list = resolutions_of r.action_id s in
      let old : IsDistinct list = list_IsDistinct s r.action_id v.resolutions_distinct in
      subst StoreValid (sym saved.stored) (record {
        runtime_sound = v.runtime_sound;
        actions_stored = v.actions_stored;
        ledgers_kept = v.ledgers_kept;
        identities_named = v.identities_named;
        resolutions_distinct =
            put-MapAll (λ k rs. IsDistinct rs) s.resolutions r.action_id (list ++ r ∷ [])
              v.resolutions_distinct (IsDistinct-snoc list r old saved.new_id saved.new_sequence);
      })
