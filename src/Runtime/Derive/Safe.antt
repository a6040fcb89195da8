-- ===== src/Runtime/Derive/Safe.antt =====
-- What a resolution that `deriveAndPersist` of src/runtime/nystRuntime.ts returns may say.
use nyst.Base.{
  ◌<◌, String, true, none, some, ok, ◌≡◌, refl, sym, ap, ◌∙◌, subst, ◌⊎◌, inl, inr, arith,
  ok-injective,
}
use nyst.Model.EffectState.{EffectState}
use nyst.Model.Control.{ControlDecision, RetryDisposition}
use nyst.Model.Evidence.{ClockAttestation}
use nyst.Model.Action.{ActionRecord}
use nyst.Model.Resolution.{OutcomeResolution, ResolutionBasis, RuntimeState, DispatchStatus}
use nyst.Model.Spec.{EffectSpec}
use nyst.Engine.Ledger.{Evidence, active_evidence}
use nyst.Engine.Floors.{FloorResult, apply_safety_floors}
use nyst.Engine.Floors.Boundary.{SendCertainty, apply_dispatch_boundary_floor}
use nyst.Engine.Clamps.Safe.{Permits, IsSafe}
use nyst.Engine.Floors.Authorizes.{floors-IsSafe}
use nyst.Engine.Floors.Boundary.Safe.{boundary-IsSafe}
use nyst.Engine.Floors.Boundary.Laws.{HasIdempotency, boundary-retry_iff}
use nyst.Store.Evidence.{list_for_action, last_seq}
use nyst.Store.Runtime.{get}
use nyst.Runtime.Exec.{Failure, pure}
use nyst.Runtime.Exec.Returns.{guard-returns, or_fail-returns}
use nyst.Runtime.Host.{Host, World, elapse, ask_clock}
use nyst.Runtime.Host.Returns.{read-returns, ask-returns, call-returns, hit-returns}
use nyst.Runtime.Derive.{
  boundary_facts, schedule, unsigned_resolution, signed, persist, conclude, derive_and_persist,
}

module _ {Json : Type 0} (h : Host Json) (a : ActionRecord Json) (spec : EffectSpec Json)
    (w : World Json) (r : OutcomeResolution) where
  -- The evidence that is read, and the floors' result for it.
  floored :
      (derive_and_persist h a spec w).0 ≡ ok r
      → let es = list_for_action a.action_id (elapse h w).store in
        let x = spec.assess a es in
        (f : FloorResult) × (apply_safety_floors spec x (spec.decide a x) es ≡ some f)
        × ((conclude h a spec es f (elapse h w)).0 ≡ ok r)
  unfolding derive_and_persist
  floored e =
      let v : World Json = elapse h w in
      let read' = read-returns h _ _ w r e in
      let (assessed, e1) = guard-returns _ _ _ v r read' in
      let (decided, e2) = guard-returns _ _ _ v r e1 in or_fail-returns _ _ _ v r e2

  -- What is persisted.
  concluded :
      (es : Evidence Json) (f : FloorResult) (v : World Json)
      → (conclude h a spec es f v).0 ≡ ok r
      → let u : World Json = elapse h (elapse h (elapse h v)) in
        (x : RuntimeState) × (get a.action_id u.store ≡ some x)
        × (basis : ResolutionBasis) × (id : String) × (now : ClockAttestation) × (t : World Json)
        × (basis.evidence_sequence ≡ last_seq es)
        × ((persist h a
              (unsigned_resolution h a spec f
                (schedule h.minute_later now.timestamp f.state
                  (apply_dispatch_boundary_floor f.decision (boundary_facts spec x)))
                basis
                id
                now)
              t).0
            ≡ ok r)
  unfolding conclude ask_clock
  concluded es f v e =
      let e1 = hit-returns h _ a _ v r e in
      let e2 = hit-returns h _ a _ _ r e1 in
      let e3 = read-returns h _ _ _ r e2 in
      let (x, found, e4) = or_fail-returns _ _ _ _ r e3 in
      let (now, asked, e5) = ask-returns h _ _ _ r e4 in
      let (sequence, t, stored, e6) = call-returns h _ _ _ r e5 in
      let (id, drawn, e7) = ask-returns h _ _ _ r e6 in (x, found, _, id, now, _, refl, e7)

  persisted :
      (unsigned : OutcomeResolution) (t : World Json)
      → (persist h a unsigned t).0 ≡ ok r
      → (r ≡ signed h unsigned) × (h.resolution_schema r ≡ true)
  unfolding persist pure
  persisted unsigned t e =
      let e1 = hit-returns h _ a _ t r e in
      let (fine, e2) = guard-returns _ _ _ _ r e1 in
      let e3 = hit-returns h _ a _ _ r e2 in
      let e4 = hit-returns h _ a _ _ r e3 in
      let (u, s, stored, e5) = call-returns h _ _ _ r e4 in
      let e6 = hit-returns h _ a _ _ r e5 in
      let same : r ≡ signed h unsigned = sym (ok-injective {E = Failure} e6) in
      (same, ap h.resolution_schema same ∙ fine)

schedule-IsSafe :
    {Json : Type 0} (spec : EffectSpec Json) (active : Evidence Json) (later : String → String)
    (now : String) (s : EffectState) (d : ControlDecision) (policy version : String)
    → IsSafe spec active s d
    → IsSafe spec active s
        (record (schedule later now s d) { policy_version = policy; spec_version = version })
unfolding schedule
schedule-IsSafe spec active later now s d policy version v = record {
  permitted = same_permit s v.permitted;
  not_transport_only = v.not_transport_only;
  compensable = v.compensable;
  retry_consistent = v.retry_consistent;
  continue_consistent = v.continue_consistent;
  no_stale_check = λ n. ground (arith, n);
}
  where
    same_permit :
        (s : EffectState)
        → Permits spec s d
        → Permits spec s
            (record (schedule later now s d) { policy_version = policy; spec_version = version })
    same_permit EffectState.verified p = p
    same_permit EffectState.not_applied p = p
    same_permit EffectState.pending p = p
    same_permit EffectState.compensated p = p
    same_permit EffectState.satisfied_unattributed p = p
    same_permit EffectState.unprovable p = p

proven_unsent :
    {Json : Type 0} (spec : EffectSpec Json) (x : RuntimeState)
    → let facts = boundary_facts spec x in
      HasIdempotency facts.provider_idempotency_semantics
        ⊎ (facts.dispatch_status ≡ SendCertainty.definitely_not_sent)
      → HasIdempotency spec.provider_idempotency_semantics
        ⊎ (x.dispatch_status ≡ DispatchStatus.definitely_not_sent)
unfolding boundary_facts
proven_unsent spec x (inl has) = inl has
proven_unsent spec x (inr unsent) = inr (ground arith)

module _ {Json : Type 0} (h : Host Json) (a : ActionRecord Json) (spec : EffectSpec Json)
    (w : World Json) (r : OutcomeResolution) (done : (derive_and_persist h a spec w).0 ≡ ok r) where
  -- A resolution that is returned is signed as it stands and meets its schema. It reports the state,
  -- the references and the strength that the safety floors settle on for the evidence that was read,
  -- and names the last sequence number of that evidence as its basis.
  pub derive-reports :
      let es = list_for_action a.action_id (elapse h w).store in
      let x = spec.assess a es in
      (f : FloorResult) × (basis : ResolutionBasis) × (apply_safety_floors spec x
          (spec.decide a x)
          es
        ≡ some f)
      × (r.action_id ≡ a.action_id)
      × (r.state ≡ f.state)
      × (r.evidence_refs ≡ f.assessment.evidence_refs)
      × (r.evidence_strength ≡ f.derived_strength)
      × (r.basis ≡ some basis)
      × (basis.evidence_sequence ≡ last_seq es)
      × (r ≡ signed h (record r { signature = none }))
      × (h.resolution_schema r ≡ true)
  unfolding unsigned_resolution signed
  derive-reports =
      let (f, settled, e) = floored h a spec w r done in
      let (x, found, basis, id, now, t, last, e1) = concluded h a spec w r _ f (elapse h w) e in
      let (same, fine) = persisted h a spec w r _ t e1 in
      (
        f,
        basis,
        settled,
        ap (λ (q : OutcomeResolution). q.action_id) same,
        ap (λ (q : OutcomeResolution). q.state) same,
        ap (λ (q : OutcomeResolution). q.evidence_refs) same,
        ap (λ (q : OutcomeResolution). q.evidence_strength) same,
        ap (λ (q : OutcomeResolution). q.basis) same,
        last,
        rw same refl,
        fine,
      )

  -- A resolution that is returned meets every control floor for its state and the evidence that was
  -- read. It allows a retry only if the provider has idempotency semantics or the durable dispatch
  -- state says that the request was not sent, and fewer than two attempts were made.
  pub derive-IsSafe :
      let es = list_for_action a.action_id (elapse h w).store in
      let later = elapse h (elapse h (elapse h (elapse h w))) in
      IsSafe spec (active_evidence es) r.state r.control
      × (r.control.retry ≡ RetryDisposition.allowed
          → (x : RuntimeState) × (get a.action_id later.store ≡ some x)
            × (HasIdempotency spec.provider_idempotency_semantics
                ⊎ (x.dispatch_status ≡ DispatchStatus.definitely_not_sent))
            × (x.dispatch_attempts < 2))
  unfolding unsigned_resolution signed schedule boundary_facts concluded
  derive-IsSafe =
      let es = list_for_action a.action_id (elapse h w).store in
      let (f, settled, e) = floored h a spec w r done in
      let (x, found, basis, id, now, t, last, e1) = concluded h a spec w r es f (elapse h w) e in
      let (same, fine) = persisted h a spec w r _ t e1 in
      let facts = boundary_facts spec x in
      let safe =
        schedule-IsSafe spec (active_evidence es) h.minute_later now.timestamp f.state _
          "core-floors/1" spec.schema_version
          (boundary-IsSafe spec f.decision facts (active_evidence es) f.state
            (floors-IsSafe spec _ _ es settled)) in
      (
        subst (λ (q : OutcomeResolution). IsSafe spec (active_evidence es) q.state q.control)
            (sym same) safe,
        λ allowed.
            let kept =
              (boundary-retry_iff f.decision facts).0.0
                (ap (λ (q : OutcomeResolution). q.control.retry) (sym same) ∙ allowed) in
            (x, found, proven_unsent spec x kept.1, kept.2),
      )
