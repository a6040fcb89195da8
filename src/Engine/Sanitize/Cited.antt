-- ===== src/Engine/Sanitize/Cited.antt =====
-- The records that a sanitized assessment cites.
use mathlib.Core.List.{Memᴰ}
use nyst.Base.{
  String, none, some, List, [], ◌∷◌, ◌≡◌, refl, includes-map, mem-filter, filter-mem, Memᴰ-cases,
  present, map, Bool-cases, Option-cases, inl, inr, string_eq, ◌==◌, ==_iff, arith,
}
use nyst.Model.Evidence.{EvidenceRecord}
use nyst.Engine.Ledger.{Evidence, is_active, active_evidence, by_id}
use nyst.Engine.Sanitize.{active_ids, ref_reason, cited_records}

module _ {Json : Type 0} where
  by_id-mem :
      (es : Evidence Json) (ref : String) {e : EvidenceRecord Json}
      → by_id es ref ≡ some e
      → Memᴰ e es × (e.evidence_id ≡ ref)
  unfolding by_id
  by_id-mem [] ref h = cc
  by_id-mem (d ∷ es) ref {e} h = elim (Option-cases (by_id es ref)) [
    | inr (c, found) ↦ let (m, q) = by_id-mem es ref {e = e} (ground arith) in (Memᴰ.tail m, q)
    | inl missed ↦ elim (Bool-cases (d.evidence_id == ref)) [
      | inl same ↦ let p : e ≡ d = ground arith in (Memᴰ.head p, rw p ((==_iff _ _).0 same))
      | inr other ↦ absurd (ground arith)
    ]
  ]

  -- A reference that is not refused names an active record of the ledger.
  pub ref_reason-active :
      (es : Evidence Json) (ref : String) {e : EvidenceRecord Json}
      → ref_reason es ref ≡ none
      → by_id es ref ≡ some e
      → Memᴰ e (active_evidence es) × (e.evidence_id ≡ ref)
  unfolding ref_reason active_evidence is_active active_ids
  ref_reason-active es ref {e} h found =
      let (m, same) = by_id-mem es ref found in
      let (d, k, q) =
        includes-map (λ (c : EvidenceRecord Json). c.evidence_id) (active_evidence es) ref
          (ground arith) in
      let (k', p) = mem-filter (is_active es) es k in
      (filter-mem (is_active es) es m (rw (same, ← q) p), same)

  pub cited-mem :
      (es : Evidence Json) (refs : List String) {e : EvidenceRecord Json}
      → Memᴰ e (cited_records es refs)
      → (ref : String) × Memᴰ ref refs × (by_id es ref ≡ some e)
  unfolding cited_records present
  cited-mem es [] m = elim m [ ]
  cited-mem es (r ∷ refs) {e} m = elim (Option-cases (by_id es r)) [
    | inl missed ↦
        let (ref, k, found) = cited-mem es refs (rw (missed, cited_records, map, present) at m) in
        (ref, Memᴰ.tail k, found)
    | inr (c, found) ↦ elim (Memᴰ-cases (rw (found, cited_records, map, present) at m)) [
      | inl same ↦ (r, Memᴰ.head refl, rw (same, found) refl)
      | inr k ↦ let (ref, k', q) = cited-mem es refs k in (ref, Memᴰ.tail k', q)
    ]
  ]
