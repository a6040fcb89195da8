-- ===== src/Engine/Floors/Boundary/Laws.antt =====
-- When the dispatch-boundary floor leaves a retry standing.
use nyst.Base.{
  ◌<◌, String, false, Option, none, some, ◌≡◌, ◌≢◌, ◌↔◌, refl, ap, ◌∙◌, ◌⊎◌, inl, inr, arith,
  eq_iff,
}
use nyst.Model.Control.{PrimaryDirective, RetryDisposition, ControlDecision}
use nyst.Engine.Floors.Boundary.{
  SendCertainty, DispatchBoundaryFacts, lacks_idempotency, apply_dispatch_boundary_floor,
}

-- The provider names idempotency semantics: neither `null` nor the empty text.
abbrev pub HasIdempotency : Option String → Type 0
HasIdempotency o = (s : String) × (o ≡ some s) × (s ≢ "")

lacks_iff : (o : Option String) → (lacks_idempotency o ≡ false) ↔ HasIdempotency o
unfolding lacks_idempotency
lacks_iff none = (λ h. cc, λ h. cc)
lacks_iff (some s) =
    (λ h. (s, refl, λ e. ground (arith, eq_iff s "")), λ h. ground (arith, eq_iff s ""))

module _ (d : ControlDecision) (facts : DispatchBoundaryFacts) where
  boundary_lem :
      (apply_dispatch_boundary_floor d facts).retry ≡ RetryDisposition.allowed
      → (d.retry ≡ RetryDisposition.allowed)
        × ((lacks_idempotency facts.provider_idempotency_semantics ≡ false)
            ⊎ (facts.dispatch_status ≡ SendCertainty.definitely_not_sent))
        × (facts.dispatch_attempts < 2)
  unfolding apply_dispatch_boundary_floor
  boundary_lem h = ground arith

  boundary_back :
      d.retry ≡ RetryDisposition.allowed
      → (lacks_idempotency facts.provider_idempotency_semantics ≡ false)
        ⊎ (facts.dispatch_status ≡ SendCertainty.definitely_not_sent)
      → facts.dispatch_attempts < 2
      → apply_dispatch_boundary_floor d facts ≡ d
  unfolding apply_dispatch_boundary_floor
  boundary_back h k n = ground arith

  unsafe_iff :
      ((lacks_idempotency facts.provider_idempotency_semantics ≡ false)
        ⊎ (facts.dispatch_status ≡ SendCertainty.definitely_not_sent))
      ↔ (HasIdempotency facts.provider_idempotency_semantics
          ⊎ (facts.dispatch_status ≡ SendCertainty.definitely_not_sent))
  unsafe_iff = (
    λ x. elim x [ inl has ↦ inl ((lacks_iff _).0 has) | inr unsent ↦ inr unsent ],
    λ x. elim x [ inl has ↦ inl ((lacks_iff _).1 has) | inr unsent ↦ inr unsent ],
  )

  -- The dispatch-boundary floor lets a retry through exactly if it was allowed, the provider has idempotency
  -- semantics or the request definitely was not sent, and fewer than two attempts were made; and
  -- a decision whose retry it lets through is left as it was in every field.
  pub boundary-retry_iff :
      (((apply_dispatch_boundary_floor d facts).retry ≡ RetryDisposition.allowed) ↔ (
        (d.retry ≡ RetryDisposition.allowed)
        × (HasIdempotency facts.provider_idempotency_semantics
            ⊎ (facts.dispatch_status ≡ SendCertainty.definitely_not_sent))
        × (facts.dispatch_attempts < 2)))
      × ((apply_dispatch_boundary_floor d facts).retry ≡ RetryDisposition.allowed
          → apply_dispatch_boundary_floor d facts ≡ d)
  boundary-retry_iff = (
    (
      λ h. let (allowed, safe, few) = boundary_lem h in (allowed, unsafe_iff.0 safe, few),
      λ h. ap (λ (x : ControlDecision). x.retry) (boundary_back h.0 (unsafe_iff.1 h.1) h.2) ∙ h.0,
    ),
    λ h. let (allowed, safe, few) = boundary_lem h in boundary_back allowed safe few,
  )

  -- Whatever the dispatch-boundary floor does to a retry, it touches neither continuation nor recovery, and a primary
  -- directive only by turning `retry` into `hold`.
  pub boundary-keeps :
      ((apply_dispatch_boundary_floor d facts).continuation ≡ d.continuation)
      × ((apply_dispatch_boundary_floor d facts).recovery ≡ d.recovery)
      × (((apply_dispatch_boundary_floor d facts).primary ≡ d.primary)
          ⊎ ((d.primary ≡ PrimaryDirective.retry)
              × ((apply_dispatch_boundary_floor d facts).primary ≡ PrimaryDirective.hold)))
  unfolding apply_dispatch_boundary_floor
  boundary-keeps = ground arith
