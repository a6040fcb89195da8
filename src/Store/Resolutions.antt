-- ===== src/Store/Resolutions.antt =====
-- `MemoryResolutions` of src/store/memoryStore.ts. `text_lt a b` stands for
-- `a.localeCompare(b) < 0`.
pub mod Distinct
use nyst.Base.{
  ℕ, String, Bool, true, false, not, ◌&&◌, ◌||◌, Option, none, some, List, [], ◌∷◌, ◌++◌, any, Map,
  put, Result, ok, err, is_some, ltb, ◌==◌, string_eq, nat_eq, option_eq, if◌then◌else◌,
}
use nyst.Model.Resolution.{OutcomeResolution, ResolutionBasis}
use nyst.Store.{
  Store, StoreError, unknown_action, duplicate_resolution, duplicate_sequence, malformed_record,
}

-- `item.runtime?.resolution_sequence`
unfoldable pub sequence_of : OutcomeResolution → Option ℕ
sequence_of r = elim r.basis [ none ↦ none | some b ↦ some b.resolution_sequence ]

-- `r.runtime?.resolution_sequence ?? 0`
unfoldable pub sequence_or_zero : OutcomeResolution → ℕ
sequence_or_zero r = elim r.basis [ none ↦ 0 | some b ↦ b.resolution_sequence ]

unfoldable pub has_resolution_id : String → OutcomeResolution → Bool
has_resolution_id id r = r.resolution_id == id

unfoldable pub has_sequence : Option ℕ → OutcomeResolution → Bool
unfolding sequence_of
has_sequence n r = sequence_of r == n

module _ (text_lt : String → String → Bool) where
  -- The comparison of the sort in `latest`: the first comes strictly before the second.
  unfoldable pub sorts_before : OutcomeResolution → OutcomeResolution → Bool
  unfolding sequence_or_zero
  sorts_before a b =
      let as' = sequence_or_zero a in
      let bs = sequence_or_zero b in
      ltb as' bs
      || ((as' == bs)
          && (text_lt a.resolved_at b.resolved_at
              || (not (text_lt b.resolved_at a.resolved_at)
                  && text_lt a.resolution_id b.resolution_id)))

  -- The last record of the stable sort: the last of the greatest.
  unfoldable pub last_sorted : OutcomeResolution → List OutcomeResolution → OutcomeResolution
  unfolding sorts_before
  last_sorted best [] = best
  last_sorted best (r ∷ rs) = last_sorted (if sorts_before r best then best else r) rs

  unfoldable pub latest_of : List OutcomeResolution → Option OutcomeResolution
  unfolding last_sorted
  latest_of [] = none
  latest_of (r ∷ rs) = some (last_sorted r rs)

module _ {Json : Type 0} where
  unfoldable pub resolutions_of : String → Store Json → List OutcomeResolution
  resolutions_of id s = elim (s.resolutions id) [ none ↦ [] | some list ↦ list ]

  -- `latest`, and `latestForAction`
  unfoldable pub latest : (String → String → Bool) → String → Store Json → Option OutcomeResolution
  unfolding latest_of resolutions_of
  latest text_lt id s = latest_of text_lt (resolutions_of id s)

  -- `save`
  unfoldable pub save :
      (OutcomeResolution → Bool) → OutcomeResolution → Store Json → Result StoreError (Store Json)
  unfolding resolutions_of has_resolution_id has_sequence
  save schema r s =
      let list = resolutions_of r.action_id s in
      if not (schema r)
      then err malformed_record
      else if not (is_some (s.by_id r.action_id))
      then err unknown_action
      else if any (has_resolution_id r.resolution_id) list
      then err duplicate_resolution
      else if is_some r.basis && any (has_sequence (sequence_of r)) list
      then err duplicate_sequence
      else ok (record s { resolutions = put r.action_id (list ++ r ∷ []) s.resolutions })
