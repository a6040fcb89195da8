-- ===== src/Store/Evidence.antt =====
-- `MemoryEvidence` of src/store/memoryStore.ts. `hash` stands for `canonicalHash`, and `schema` for
-- the check of a record by its schema.
pub mod AppendOnly
use nyst.Base.{
  ℕ, ◌+◌, String, Bool, true, false, not, ◌&&◌, Option, none, some, List, [], ◌∷◌, ◌++◌, length,
  any, Map, put, Result, ok, err, is_some, ◌==◌, string_eq, option_eq, if◌then◌else◌,
}
use nyst.Model.Evidence.{NewEvidence, EvidenceRecord}
use nyst.Store.{Store, StoreError, unknown_action, unknown_superseded, malformed_record}

-- The truth value of a text that may be `null`.
unfoldable pub is_text : Option String → Bool
is_text none = false
is_text (some t) = not (t == "")

module _ {Json : Type 0} where
  -- `this.byAction.get(action_id) ?? []`
  unfoldable pub list_for_action : String → Store Json → List (EvidenceRecord Json)
  list_for_action id s = elim (s.evidence id) [ none ↦ [] | some list ↦ list ]

  -- `list.find((item) => item.provider_event_id === id)`
  unfoldable pub find_event :
      Option String → List (EvidenceRecord Json) → Option (EvidenceRecord Json)
  find_event event [] = none
  find_event event (e ∷ es) =
      let rest = find_event event es in if e.provider_event_id == event then some e else rest

  unfoldable pub duplicate_event :
      NewEvidence Json → List (EvidenceRecord Json) → Option (EvidenceRecord Json)
  unfolding is_text find_event
  duplicate_event ev list =
      if is_text ev.provider_event_id then find_event ev.provider_event_id list else none

  unfoldable pub has_id : Option String → EvidenceRecord Json → Bool
  has_id id e = some e.evidence_id == id

  unfoldable pub sealed :
      (Json → String) → String → NewEvidence Json → List (EvidenceRecord Json) → EvidenceRecord Json
  sealed hash fresh ev list = record {
    evidence_id = fresh;
    seq = length list + 1;
    payload_hash = hash ev.payload;
    given = ev;
  }

  -- `append`
  unfoldable pub append :
      (EvidenceRecord Json → Bool)
      → (Json → String)
      → String
      → NewEvidence Json
      → Store Json
      → Result StoreError (EvidenceRecord Json × Store Json)
  unfolding list_for_action duplicate_event sealed is_text has_id
  append schema hash fresh ev s =
      let list = list_for_action ev.action_id s in
      let e = sealed hash fresh ev list in
      if not (is_some (s.by_id ev.action_id))
      then err unknown_action
      else elim (duplicate_event ev list) [
        | some duplicate ↦ ok (duplicate, s)
        | none ↦
            if not (schema e)
            then err malformed_record
            else if is_text ev.supersedes_evidence_id
                && not (any (has_id ev.supersedes_evidence_id) list)
            then err unknown_superseded
            else ok (e, record s { evidence = put ev.action_id (list ++ e ∷ []) s.evidence })
      ]

  -- `list.at(-1)?.seq ?? 0`
  unfoldable pub last_seq : List (EvidenceRecord Json) → ℕ
  last_seq [] = 0
  last_seq (e ∷ []) = e.seq
  last_seq (e ∷ c ∷ es) = last_seq (c ∷ es)

  -- `latestSequence`
  unfoldable pub latest_sequence : String → Store Json → ℕ
  unfolding list_for_action last_seq
  latest_sequence id s = last_seq (list_for_action id s)
