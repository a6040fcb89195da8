-- ===== src/Store/Runtime/Granted.antt =====
-- What a granted dispatch claim says of the store at the moment of the claim.
use nyst.Base.{
  ℕ, ◌+◌, ◌<◌, ◌≤◌, String, Bool, true, false, Option, none, some, List, ◌≡◌, ◌↔◌, refl, sym, ap,
  ◌∙◌, ◌⊎◌, inl, inr, includes, put, ok, ok-injective, Option-cases, arith, ==_iff, string_eq,
  nat_eq,
}
use nyst.Model.Control.{ContinuationDisposition, continuation_eq}
use nyst.Model.Resolution.{OutcomeResolution, DispatchStatus, RuntimeState, dispatch_status_eq}
use nyst.Store.{Store, StoreError}
use nyst.Store.Evidence.{latest_sequence}
use nyst.Store.Resolutions.{latest}
use nyst.Store.Runtime.{
  ContinuationBasis, DispatchGuard, DispatchClaim, meets, basis_current, continuation_current,
  guard_met, claim_dispatch, claimed_state, write,
}
use nyst.Store.Runtime.Claims.{claim_dispatch_lem}

-- What is there has the property.
abbrev pub Whenever : {A : Type 0} → (A → Type 0) → Option A → Type 0
Whenever P none = Unit
Whenever P (some a) = P a

-- The source's newest resolution is the one of the basis and allows continuation, and neither a
-- resolution nor evidence was added to the source since.
pub record IsBasis {Json : Type 0} (text_lt : String → String → Bool) (s : Store Json)
    (c : ContinuationBasis) : Type 0 where
  pub source : RuntimeState
  pub newest : OutcomeResolution
  pub started : s.runtime c.source_action ≡ some source
  pub last : latest text_lt c.source_action s ≡ some newest
  pub named : newest.resolution_id ≡ c.source_resolution
  pub allowed : newest.control.continuation ≡ ContinuationDisposition.allowed
  pub sequence : source.resolution_sequence ≡ c.source_sequence
  pub evidence : latest_sequence c.source_action s ≡ c.source_evidence

-- The guard of a claim holds of the store.
pub record IsGuarded {Json : Type 0} (text_lt : String → String → Bool) (id : String)
    (s : Store Json) (r : RuntimeState) (g : DispatchGuard) : Type 0 where
  pub sequence : Whenever (λ n. r.resolution_sequence ≡ n) g.resolution_sequence
  pub evidence : Whenever (λ n. latest_sequence id s ≡ n) g.evidence_sequence
  pub source : Whenever (IsBasis text_lt s) g.continuation

pub record IsClaimable {Json : Type 0} (text_lt : String → String → Bool) (id : String)
    (allowed : List DispatchStatus) (guard : Option DispatchGuard) (s : Store Json)
    (r : RuntimeState) : Type 0 where
  pub open_ : includes allowed r.dispatch_status ≡ true
  pub few : r.dispatch_attempts < 2
  pub guarded : Whenever (IsGuarded text_lt id s r) guard

module _ {Json : Type 0} (text_lt : String → String → Bool) (s : Store Json) where
  parts :
      (c : ContinuationBasis) (r : RuntimeState) (x : OutcomeResolution) (n : ℕ)
      → (basis_current c (some r) (some x) n ≡ true) ↔ (
          (x.resolution_id ≡ c.source_resolution)
          × (x.control.continuation ≡ ContinuationDisposition.allowed)
          × (r.resolution_sequence ≡ c.source_sequence)
          × (n ≡ c.source_evidence))
  unfolding basis_current
  parts c r x n = (
    λ h. (
      (==_iff x.resolution_id c.source_resolution).0 (ground arith),
      (==_iff x.control.continuation ContinuationDisposition.allowed).0 (ground arith),
      (==_iff r.resolution_sequence c.source_sequence).0 (ground arith),
      (==_iff n c.source_evidence).0 (ground arith),
    ),
    λ (named, allowed, sequence, evidence).
        let same = (==_iff x.resolution_id c.source_resolution).1 named in
        let open_ = (==_iff x.control.continuation ContinuationDisposition.allowed).1 allowed in
        let resolved = (==_iff r.resolution_sequence c.source_sequence).1 sequence in
        let seen = (==_iff n c.source_evidence).1 evidence in rw (same, open_, resolved, seen) refl,
  )

  source-IsBasis :
      (c : ContinuationBasis)
      → basis_current c
          (s.runtime c.source_action)
          (latest text_lt c.source_action s)
          (latest_sequence c.source_action s)
        ≡ true
      → IsBasis text_lt s c
  unfolding basis_current
  source-IsBasis c e = elim (Option-cases (s.runtime c.source_action)) [
    | inl missing ↦ absurd (cc (rw (missing, basis_current) at e))
    | inr (r, started) ↦ elim (Option-cases (latest text_lt c.source_action s)) [
      | inl unresolved ↦ absurd (cc (rw (started, unresolved, basis_current) at e))
      | inr (x, last) ↦
          let (named, allowed, sequence, evidence) = (parts c r x _).0 (rw (started, last) at e) in
          record {
            source = r;
            newest = x;
            started = started;
            last = last;
            named = named;
            allowed = allowed;
            sequence = sequence;
            evidence = evidence;
          }
    ]
  ]

  IsBasis-iff :
      (c : ContinuationBasis)
      → (basis_current c
            (s.runtime c.source_action)
            (latest text_lt c.source_action s)
            (latest_sequence c.source_action s)
          ≡ true)
        ↔ IsBasis text_lt s c
  IsBasis-iff c = (
    source-IsBasis c,
    λ b.
        rw (b.started, b.last)
          ((parts c b.source b.newest _).1 (b.named, b.allowed, b.sequence, b.evidence)),
  )

  meets_iff : (o : Option ℕ) (n : ℕ) → (meets o n ≡ true) ↔ Whenever (λ m. n ≡ m) o
  unfolding meets
  meets_iff none n = (λ h. tt, λ h. refl)
  meets_iff (some m) n = ==_iff n m

  source_iff :
      (g : DispatchGuard)
      → (continuation_current text_lt (some g) s ≡ true)
        ↔ Whenever (IsBasis text_lt s) g.continuation
  unfolding continuation_current
  source_iff g = elim (Option-cases g.continuation) [
    | inl free ↦ rw free (λ h. tt, λ h. refl)
    | inr (c, based) ↦ rw based (IsBasis-iff c)
  ]

module _ {Json : Type 0} (text_lt : String → String → Bool) (id : String) (s : Store Json)
    (r : RuntimeState) where
  IsGuarded-iff :
      (guard : Option DispatchGuard)
      → ((continuation_current text_lt guard s ≡ true) × (guard_met id guard r s ≡ true))
        ↔ Whenever (IsGuarded text_lt id s r) guard
  unfolding continuation_current guard_met
  IsGuarded-iff none = (λ h. tt, λ h. (refl, refl))
  IsGuarded-iff (some g) = (
    λ h. record {
      sequence = (meets_iff text_lt s g.resolution_sequence _).0 (ground arith);
      evidence = (meets_iff text_lt s g.evidence_sequence _).0 (ground arith);
      source = (source_iff text_lt s g).0 h.0;
    },
    λ h.
        let own = (meets_iff text_lt s g.resolution_sequence r.resolution_sequence).1 h.sequence in
        let seen = (meets_iff text_lt s g.evidence_sequence (latest_sequence id s)).1 h.evidence in
        ((source_iff text_lt s g).1 h.source, rw (own, seen) refl),
  )

module _ {Json : Type 0} (text_lt : String → String → Bool) (fresh id : String)
    (allowed : List DispatchStatus) (guard : Option DispatchGuard) (s t : Store Json)
    (r : RuntimeState) (c : DispatchClaim) where
  -- The claim is granted, its owner gets the token, and one more attempt is counted.
  pub record IsGranted : Type 0 where
    pub claimable : IsClaimable text_lt id allowed guard s r
    pub claimed : c.claimed ≡ true
    pub token : c.token ≡ some fresh
    pub state : c.state ≡ record r {
      dispatch_status = DispatchStatus.claimed;
      dispatch_claim_token = some fresh;
      dispatch_attempts = r.dispatch_attempts + 1;
    }
    pub stored : t ≡ record s { runtime = put id c.state s.runtime }

  pub record IsRefused : Type 0 where
    pub not_claimable : ¬ IsClaimable text_lt id allowed guard s r
    pub not_claimed : c.claimed ≡ false
    pub no_token : c.token ≡ none
    pub kept : t ≡ s

module _ {Json : Type 0} (text_lt : String → String → Bool) (fresh id : String)
    (allowed : List DispatchStatus) (guard : Option DispatchGuard) (s t : Store Json)
    (r : RuntimeState) (c : DispatchClaim) where
  answered :
      (d : DispatchClaim) (u : Store Json)
      → claim_dispatch text_lt fresh id allowed guard s ≡ ok (d, u)
      → claim_dispatch text_lt fresh id allowed guard s ≡ ok (c, t)
      → (c ≡ d) × (t ≡ u)
  answered d u e e' =
      let same = ok-injective {E = StoreError} (sym e' ∙ e) in
      (
        ap (λ (x : DispatchClaim × Store Json). x.0) same,
        ap (λ (x : DispatchClaim × Store Json). x.1) same,
      )

  refused_of :
      (includes allowed r.dispatch_status ≡ false)
        ⊎ (2 ≤ r.dispatch_attempts)
        ⊎ (continuation_current text_lt guard s ≡ false)
        ⊎ (guard_met id guard r s ≡ false)
      → ¬ IsClaimable text_lt id allowed guard s r
  refused_of h x =
      let (source, own) = (IsGuarded-iff text_lt id s r guard).1 x.guarded in
      absurd (ground (arith, x.open_, x.few))

  pub claim-Granted :
      s.runtime id ≡ some r
      → claim_dispatch text_lt fresh id allowed guard s ≡ ok (c, t)
      → IsGranted text_lt fresh id allowed guard s t r c
        ⊎ IsRefused text_lt fresh id allowed guard s t r c
  unfolding claimed_state write
  claim-Granted found e = elim (claim_dispatch_lem text_lt fresh id allowed guard s r found) [
    | inl (open_, few, source, own, granted) ↦
        let (same, kept) = answered _ _ granted e in
        inl (record {
          claimable = record {
            open_ = open_;
            few = few;
            guarded = (IsGuarded-iff text_lt id s r guard).0 (source, own);
          };
          claimed = ap (λ (x : DispatchClaim). x.claimed) same;
          token = ap (λ (x : DispatchClaim). x.token) same;
          state = ap (λ (x : DispatchClaim). x.state) same;
          stored =
              kept
              ∙ ap (λ (x : RuntimeState). record s { runtime = put id x s.runtime })
                  (sym (ap (λ (x : DispatchClaim). x.state) same));
        })
    | inr (why, refused) ↦
        let (same, kept) = answered _ _ refused e in
        inr (record {
          not_claimable = refused_of why;
          not_claimed = ap (λ (x : DispatchClaim). x.claimed) same;
          no_token = ap (λ (x : DispatchClaim). x.token) same;
          kept = kept;
        })
  ]

-- A claim that was granted found a dispatch state to claim.
pub claimed-IsGranted :
    {Json : Type 0} (text_lt : String → String → Bool) (fresh id : String)
    (allowed : List DispatchStatus) (guard : Option DispatchGuard) (s t : Store Json)
    (c : DispatchClaim)
    → claim_dispatch text_lt fresh id allowed guard s ≡ ok (c, t)
    → c.claimed ≡ true
    → (r : RuntimeState) × (s.runtime id ≡ some r)
      × IsGranted text_lt fresh id allowed guard s t r c
claimed-IsGranted text_lt fresh id allowed guard s t c e yes' = elim (Option-cases (s.runtime id)) [
  | inl missing ↦ absurd (unfold claim_dispatch in cc (rw (missing, claim_dispatch) at e))
  | inr (r, found) ↦ elim (claim-Granted text_lt fresh id allowed guard s t r c found e) [
    | inl granted ↦ (r, found, granted)
    | inr refused ↦ absurd (cc (refused.not_claimed, yes'))
  ]
]
