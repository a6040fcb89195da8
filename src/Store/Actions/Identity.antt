-- ===== src/Store/Actions/Identity.antt =====
-- `recordIntent` as the law of logical identity.
use nyst.Base.{
  String, Bool, true, false, none, some, ◌≡◌, refl, sym, ap, inl, inr, put, Result, ok,
  ok-injective, Bool-cases, Option-cases, ◌==◌, ==_iff, string_eq,
}
use nyst.Model.Action.{ActionRecord}
use nyst.Model.Metadata.{holds_raw_credential}
use nyst.Store.{Store, StoreError}
use nyst.Store.Actions.{
  NewActionIntent, Recorded, identity_key, new_record, replay, create, record_intent,
}

module _ {Json : Type 0} (schema : ActionRecord Json → Bool) (fresh : String)
    (intent : NewActionIntent Json) (s t : Store Json) (x : Recorded Json) where
  -- How an intent comes to be recorded: it was there, or it is created under the fresh id.
  pub data Outcome : Type 0 where
    replayed :
        (id : String)
        → s.by_identity (identity_key intent.effect_name intent.business_key) ≡ some id
        → s.by_id id ≡ some x.action
        → x.action.input_hash ≡ intent.input_hash
        → x.created ≡ false
        → t ≡ s
        → Outcome
    created :
        s.by_identity (identity_key intent.effect_name intent.business_key) ≡ none
        → x.action ≡ new_record intent fresh
        → x.created ≡ true
        → t ≡ record s {
          by_id = put fresh x.action s.by_id;
          by_identity =
              put (identity_key intent.effect_name intent.business_key) fresh s.by_identity;
        }
        → Outcome

  result_of :
      (y : Recorded Json) (u : Store Json)
      → ◌≡◌ {A = Result StoreError (Recorded Json × Store Json)} (ok (y, u)) (ok (x, t))
      → (x ≡ y) × (t ≡ u)
  result_of y u e =
      let p = sym (ok-injective {E = StoreError} e) in
      (
        ap (λ (z : Recorded Json × Store Json). z.0) p,
        ap (λ (z : Recorded Json × Store Json). z.1) p,
      )

  -- An intent is recorded only by finding its identity, with the same input hash and the store as
  -- it was, or by creating a new action under the fresh id and nothing else, if no action has the
  -- identity.
  pub record_intent-Outcome : record_intent schema fresh intent s ≡ ok (x, t) → Outcome
  unfolding record_intent create replay
  record_intent-Outcome e = elim (Bool-cases (holds_raw_credential intent.context)) [
    | inl raw ↦ absurd (cc (rw raw at e))
    | inr clean ↦
        elim (Option-cases (s.by_identity (identity_key intent.effect_name intent.business_key))) [
          | inr (id, known) ↦ elim (Option-cases (s.by_id id)) [
            | inl lost ↦ absurd (cc (rw (lost, replay) at (rw (clean, known, record_intent) at e)))
            | inr (r, found) ↦ elim (Bool-cases (r.input_hash == intent.input_hash)) [
              | inl same ↦
                  let (q, kept) =
                    result_of _ _ (
                      rw same at (rw (found, replay) at (rw (clean, known, record_intent) at e))) in
                  replayed id known (rw q found)
                    (rw q ((==_iff r.input_hash intent.input_hash).0 same)) (rw q refl) kept
              | inr drift ↦
                  absurd (
                    cc
                      (rw drift at (rw (found, replay) at (rw (clean, known, record_intent) at e))))
            ]
          ]
          | inl new ↦ elim (Bool-cases (schema (new_record intent fresh))) [
            | inl fine ↦
                let (q, kept) =
                  result_of _ _ (rw fine at (rw (clean, new, record_intent, create) at e)) in
                created new (rw q refl) (rw q refl) (rw q kept)
            | inr refused ↦
                absurd (cc (rw refused at (rw (clean, new, record_intent, create) at e)))
          ]
        ]
  ]
