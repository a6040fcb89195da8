-- ===== src/Authority/Canonical/Laws.antt =====
-- What no exception can change.
use nyst.Base.{
  String, Bool, true, false, not, Option, List, [], ◌∷◌, ◌≡◌, ◌≢◌, inl, inr, refl, filter, is_empty,
  All, ==_iff, Bool-cases, arith, ◌==◌,
}
use nyst.Model.Control.{PrimaryDirective, ContinuationDisposition}
use nyst.Authority.Autonomy.{AutonomyDisposition, evaluate_autonomy_line}
use nyst.Authority.Canonical.{
  AuthorityDisposition, authority_eq, AuthorityReason, AuthorityException, AuthorityRequest,
  runtime_layer, autonomy_layer, layer_reasons, with_disposition, intersect, evaluate_authority,
  when,
}

abbrev NotBlocked : AuthorityReason → Type 0
NotBlocked r = r.disposition ≢ AuthorityDisposition.blocked

none_blocked :
    (rs : List AuthorityReason)
    → is_empty (with_disposition AuthorityDisposition.blocked rs) ≡ true
    → All NotBlocked rs
unfolding with_disposition filter
none_blocked [] h = tt
none_blocked (r ∷ rs) h = elim (Bool-cases (r.disposition == AuthorityDisposition.blocked)) [
  | inl refused ↦ absurd (cc (rw (refused, filter, with_disposition) at h))
  | inr free ↦ (
    λ q. cc (free, (==_iff r.disposition AuthorityDisposition.blocked).1 q),
    none_blocked rs (rw (free, filter, with_disposition) at h),
  )
]

intersect_lem :
    (rs : List AuthorityReason) (e : Option AuthorityException)
    → intersect rs e ≢ AuthorityDisposition.blocked
    → All NotBlocked rs
unfolding intersect
intersect_lem rs e h =
    elim (Bool-cases (is_empty (with_disposition AuthorityDisposition.blocked rs))) [
      | inl clear ↦ none_blocked rs clear
      | inr refused ↦ absurd (h (rw (refused, intersect) refl))
    ]

runtime_lem :
    (q : AuthorityRequest)
    → runtime_layer q ≢ AuthorityDisposition.blocked
    → (q.runtime_authority.permitted.primary ≢ PrimaryDirective.escalate)
      × (q.runtime_authority.permitted.continuation ≢ ContinuationDisposition.blocked)
unfolding runtime_layer
runtime_lem q h = ground arith

when_lem :
    (b : Bool) → when b AuthorityDisposition.blocked ≢ AuthorityDisposition.blocked → b ≡ false
unfolding when
when_lem b h = ground arith

not_lem : (b : Bool) → not b ≡ false → b ≡ true
not_lem b h = ground arith

autonomy_lem :
    (d : AutonomyDisposition)
    → autonomy_layer d ≢ AuthorityDisposition.blocked
    → d ≢ AutonomyDisposition.disabled
unfolding autonomy_layer
autonomy_lem d h = ground arith

module _ (text_lt : String → String → Bool) (q : AuthorityRequest) where
  -- Unless the evaluator answers `blocked`: the runtime does not escalate and does not block the
  -- continuation, no freeze is on, the budget admitted the action and the autonomy line does not
  -- disable it. No exception is among the conditions.
  pub unblocked_only_if :
      (evaluate_authority text_lt q).decided ≢ AuthorityDisposition.blocked
      → (q.runtime_authority.permitted.primary ≢ PrimaryDirective.escalate)
        × (q.runtime_authority.permitted.continuation ≢ ContinuationDisposition.blocked)
        × (q.frozen ≡ false)
        × (q.admitted ≡ true)
        × ((evaluate_autonomy_line text_lt q.autonomy_rules q.autonomy).determined
            ≢ AutonomyDisposition.disabled)
  unfolding evaluate_authority layer_reasons
  unblocked_only_if h =
      let (runtime, from_policy) = intersect_lem _ _ h in
      let (policy, from_freeze) = from_policy in
      let (frozen, from_radius) = from_freeze in
      let (radius, from_rollout) = from_radius in
      let (rollout, from_autonomy) = from_rollout in
      let (autonomy, others) = from_autonomy in
      let (primary, continuation) = runtime_lem q runtime in
      (
        primary,
        continuation,
        when_lem q.frozen frozen,
        not_lem q.admitted (when_lem (not q.admitted) radius),
        autonomy_lem _ autonomy,
      )
