-- ===== src/Store/Resolutions/Distinct.antt =====
-- The resolutions of an action stay distinct.
use nyst.Base.{
  Bool, true, false, ◌&&◌, List, [], ◌∷◌, ◌++◌, ◌≡◌, ◌≢◌, sym, inl, inr, any, All, All-append, put,
  ok, ok-injective, is_some, Bool-cases, arith, ==_iff, string_eq, nat_eq, option_eq,
}
use nyst.Model.Resolution.{OutcomeResolution}
use nyst.Store.{Store, StoreError}
use nyst.Store.Resolutions.{sequence_of, has_resolution_id, has_sequence, resolutions_of, save}

-- Two resolutions differ in their ids, and in their sequence numbers where the later has one.
abbrev pub Differs : OutcomeResolution → OutcomeResolution → Type 0
Differs new old =
    (old.resolution_id ≢ new.resolution_id)
    × (is_some new.basis ≡ true → sequence_of old ≢ sequence_of new)

abbrev pub IsDistinct : List OutcomeResolution → Type 0
IsDistinct [] = Unit
IsDistinct (r ∷ rs) = All (λ (c : OutcomeResolution). Differs c r) rs × IsDistinct rs

any_none :
    {A : Type 0} (p : A → Bool) (x : A) (xs : List A)
    → any p (x ∷ xs) ≡ false
    → (p x ≡ false) × (any p xs ≡ false)
unfolding any
any_none p x xs h = ground arith

pub IsDistinct-snoc :
    (rs : List OutcomeResolution) (r : OutcomeResolution)
    → IsDistinct rs
    → any (has_resolution_id r.resolution_id) rs ≡ false
    → (is_some r.basis ≡ true → any (has_sequence (sequence_of r)) rs ≡ false)
    → IsDistinct (rs ++ r ∷ [])
unfolding has_resolution_id has_sequence
IsDistinct-snoc [] r h ids seqs = (tt, tt)
IsDistinct-snoc (c ∷ rs) r h ids seqs =
    let (other_id, later_ids) = any_none (has_resolution_id r.resolution_id) c rs ids in
    let split =
      λ (b : is_some r.basis ≡ true). any_none (has_sequence (sequence_of r)) c rs (seqs b) in
    (
      All-append _ rs (r ∷ []) h.0 (
        (
          λ q. cc (other_id, (==_iff c.resolution_id r.resolution_id).1 q),
          λ b q. cc ((split b).0, (==_iff (sequence_of c) (sequence_of r)).1 q),
        ),
        tt,
      ),
      IsDistinct-snoc rs r h.1 later_ids (λ b. (split b).1),
    )

module _ {Json : Type 0} (schema : OutcomeResolution → Bool) (r : OutcomeResolution)
    (s t : Store Json) where
  -- A resolution is saved for an action that exists, once, at the end of its history.
  pub record Saved : Type 0 where
    pub exists : is_some (s.by_id r.action_id) ≡ true
    pub new_id : any (has_resolution_id r.resolution_id) (resolutions_of r.action_id s) ≡ false
    pub new_sequence :
        is_some r.basis ≡ true
        → any (has_sequence (sequence_of r)) (resolutions_of r.action_id s) ≡ false
    pub stored : t ≡ record s {
      resolutions = put r.action_id (resolutions_of r.action_id s ++ r ∷ []) s.resolutions;
    }

  -- A resolution is saved only for an action that exists and only if no resolution of the action has
  -- its id or, where it has one, its sequence number; it is added at the end and nothing else changes.
  pub save-Saved : save schema r s ≡ ok t → Saved
  unfolding save
  save-Saved e = elim (Bool-cases (schema r)) [
    | inr refused ↦ absurd (cc (rw (refused, save) at e))
    | inl fine ↦ elim (Bool-cases (is_some (s.by_id r.action_id))) [
      | inr unknown ↦ absurd (cc (rw unknown at (rw (fine, save) at e)))
      | inl known ↦
          elim (Bool-cases
            (any (has_resolution_id r.resolution_id) (resolutions_of r.action_id s))) [
              | inl twice ↦ absurd (cc (rw (known, twice) at (rw (fine, save) at e)))
              | inr once ↦
                  elim (Bool-cases (
                    is_some r.basis
                    && any (has_sequence (sequence_of r)) (resolutions_of r.action_id s))) [
                      | inl taken ↦ absurd (cc (rw (known, once, taken) at (rw (fine, save) at e)))
                      | inr free ↦ record {
                        exists = known;
                        new_id = once;
                        new_sequence = λ b. ground arith;
                        stored = sym (
                            ok-injective {E = StoreError}
                              (rw (known, once, free) at (rw (fine, save) at e)));
                      }
                    ]
            ]
    ]
  ]
