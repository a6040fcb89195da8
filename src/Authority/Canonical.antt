-- ===== src/Authority/Canonical.antt =====
-- src/product/authority/canonicalAuthority.ts: the one evaluator of what a consequence may do. The
-- sentences for a person, and the fields that only they read, are left out.
pub mod Laws
mod Tests
use nyst.Outcome.Verdict.{OutcomeVerdict}
use nyst.Base.{
  ℕ, String, Bool, true, false, not, ◌&&◌, ◌||◌, Option, none, some, List, [], ◌∷◌, ◌++◌, ◌≡◌, ◌↔◌,
  arith, eqb, leb, any, all, filter, is_empty, is_some, Eq, eq_by_rank, ◌==◌, string_eq, option_eq,
  if◌then◌else◌,
}
use nyst.Model.Control.{PrimaryDirective, ContinuationDisposition, primary_eq, continuation_eq}
use nyst.Authority.Autonomy.{
  AutonomyDisposition, autonomy_eq, AutonomyRule, AutonomyRequest, DecidedBy, AutonomyDetermination,
  evaluate_autonomy_line,
}
use nyst.Authority.Effective.{EffectiveAuthority}

pub data AuthorityDisposition : Type 0 where
  allowed held blocked : AuthorityDisposition

abbrev pub authority_rank : AuthorityDisposition → ℕ
authority_rank AuthorityDisposition.allowed = 0
authority_rank AuthorityDisposition.held = 1
authority_rank AuthorityDisposition.blocked = 2

pub authority_rank_iff :
    (a b : AuthorityDisposition) → (eqb (authority_rank a) (authority_rank b) ≡ true) ↔ (a ≡ b)
authority_rank_iff a b = ground arith

instance abbrev pub authority_eq : Eq AuthorityDisposition
authority_eq = eq_by_rank authority_rank authority_rank_iff

pub data Layer : Type 0 where
  effectspec_safety customer_policy autonomy_line blast_radius freeze rollout outcome_dependency
        exception :
      Layer

abbrev pub layer_rank : Layer → ℕ
layer_rank Layer.effectspec_safety = 0
layer_rank Layer.customer_policy = 1
layer_rank Layer.autonomy_line = 2
layer_rank Layer.blast_radius = 3
layer_rank Layer.freeze = 4
layer_rank Layer.rollout = 5
layer_rank Layer.outcome_dependency = 6
layer_rank Layer.exception = 7

pub layer_rank_iff : (a b : Layer) → (eqb (layer_rank a) (layer_rank b) ≡ true) ↔ (a ≡ b)
layer_rank_iff a b = ground arith

instance abbrev pub layer_eq : Eq Layer
layer_eq = eq_by_rank layer_rank layer_rank_iff

pub record AuthorityReason : Type 0 where
  pub layer : Layer
  pub disposition : AuthorityDisposition

pub data Authorizes : Type 0 where
  continuation_despite_unsatisfied_outcome continuation_despite_indeterminate_outcome
        amount_above_autonomy_line action_requiring_human_approval :
      Authorizes

pub record AuthorityException : Type 0 where
  pub exception_id : String
  pub authorizes : Authorizes
  pub max_amount_minor : Option ℕ
  pub currency : Option String

pub record OutcomeDependency : Type 0 where
  pub verdict : OutcomeVerdict
  pub grant_id : Option String
  pub grant_valid : Bool

-- `autonomy` is the whole request of the autonomy line, with the agent, the effect and the amount.
pub record AuthorityRequest : Type 0 where
  pub runtime_authority : EffectiveAuthority
  pub policy_version_id : Option String
  pub autonomy_rules : List AutonomyRule
  pub autonomy : AutonomyRequest
  pub admitted : Bool
  pub budget_id : Option String
  pub frozen : Bool
  pub freeze_id : Option String
  pub controlled : Bool
  pub dependency : Option OutcomeDependency
  pub exceptions : List AuthorityException

pub record AuthorityDecision : Type 0 where
  pub decided : AuthorityDisposition
  pub reasons : List AuthorityReason
  pub controlling_policy_version_id : Option String
  pub determination : AutonomyDetermination
  pub decided_freeze_id : Option String
  pub decided_budget_id : Option String
  pub used_exception_id : Option String
  pub used_grant_id : Option String

unfoldable pub when : Bool → AuthorityDisposition → AuthorityDisposition
when test other = if test then other else AuthorityDisposition.allowed

-- The layers 1 to 5.
unfoldable pub runtime_layer : AuthorityRequest → AuthorityDisposition
unfolding when
runtime_layer q =
    when
      ((q.runtime_authority.permitted.primary == PrimaryDirective.escalate)
        || (q.runtime_authority.permitted.continuation == ContinuationDisposition.blocked))
      AuthorityDisposition.blocked

unfoldable pub policy_layer : AuthorityRequest → AuthorityDisposition
unfolding when
policy_layer q =
    when
      (not q.runtime_authority.automatic_continuation_allowed
        && (q.runtime_authority.permitted.continuation == ContinuationDisposition.allowed))
      AuthorityDisposition.held

unfoldable pub autonomy_layer : AutonomyDisposition → AuthorityDisposition
autonomy_layer AutonomyDisposition.disabled = AuthorityDisposition.blocked
autonomy_layer AutonomyDisposition.human = AuthorityDisposition.held
autonomy_layer AutonomyDisposition.autonomous = AuthorityDisposition.allowed

-- `dependency.grant_valid && dependency.grant_id`
unfoldable pub has_grant : OutcomeDependency → Bool
has_grant d = d.grant_valid && elim d.grant_id [ none ↦ false | some id ↦ not (id == "") ]

unfoldable pub outcome_layer : OutcomeDependency → AuthorityDisposition
unfolding has_grant
outcome_layer d = elim d.verdict [
  | OutcomeVerdict.satisfied ↦ AuthorityDisposition.allowed
  | OutcomeVerdict.unsatisfied ↦
      if has_grant d then AuthorityDisposition.allowed else AuthorityDisposition.held
  | OutcomeVerdict.indeterminate ↦
      if has_grant d then AuthorityDisposition.allowed else AuthorityDisposition.held
]

unfoldable pub outcome_reasons : Option OutcomeDependency → List AuthorityReason
unfolding outcome_layer
outcome_reasons none = []
outcome_reasons (some d) =
    record { layer = Layer.outcome_dependency; disposition = outcome_layer d } ∷ []

-- The reasons of the layers 1 to 7, in their order.
unfoldable pub layer_reasons : AuthorityRequest → AutonomyDetermination → List AuthorityReason
unfolding runtime_layer policy_layer autonomy_layer outcome_reasons when
layer_reasons q autonomy =
    record { layer = Layer.effectspec_safety; disposition = runtime_layer q }
    ∷ record { layer = Layer.customer_policy; disposition = policy_layer q }
    ∷ record { layer = Layer.freeze; disposition = when q.frozen AuthorityDisposition.blocked }
    ∷ record {
      layer = Layer.blast_radius;
      disposition = when (not q.admitted) AuthorityDisposition.blocked;
    }
    ∷ record {
      layer = Layer.rollout;
      disposition = when (not q.controlled) AuthorityDisposition.held;
    }
    ∷ record { layer = Layer.autonomy_line; disposition = autonomy_layer autonomy.determined }
    ∷ outcome_reasons q.dependency

unfoldable pub with_disposition : AuthorityDisposition → List AuthorityReason → List AuthorityReason
with_disposition d rs = filter (λ (r : AuthorityReason). r.disposition == d) rs

-- `held.has("outcome_dependency") && request.outcome_dependency?.verdict === verdict`
unfoldable pub holds_outcome : Option OutcomeDependency → OutcomeVerdict → Bool
unfolding outcome_layer
holds_outcome none verdict = false
holds_outcome (some d) verdict = (outcome_layer d == AuthorityDisposition.held) && elim d.verdict [
  | OutcomeVerdict.satisfied ↦ false
  | OutcomeVerdict.unsatisfied ↦ elim verdict [ OutcomeVerdict.unsatisfied ↦ true | _ ↦ false ]
  | OutcomeVerdict.indeterminate ↦ elim verdict [ OutcomeVerdict.indeterminate ↦ true | _ ↦ false ]
]

unfoldable pub is_amount_reason : DecidedBy → Bool
is_amount_reason DecidedBy.amount_per_action = true
is_amount_reason DecidedBy.amount_window = true
is_amount_reason _ = false

-- Both amounts are known, and the request's is not above the exception's.
unfoldable pub within_ceiling : Option ℕ → Option ℕ → Bool
within_ceiling none amount = false
within_ceiling (some most) none = false
within_ceiling (some most) (some amount) = leb amount most

-- The test of one exception in the loop of `applicableException`.
unfoldable pub applies : AuthorityRequest → AutonomyDetermination → AuthorityException → Bool
unfolding holds_outcome is_amount_reason within_ceiling
applies q autonomy e = elim e.authorizes [
  | Authorizes.amount_above_autonomy_line ↦
      (autonomy.determined == AutonomyDisposition.human)
      && is_amount_reason autonomy.decided_by
      && within_ceiling e.max_amount_minor q.autonomy.amount_minor
      && not (is_some e.currency && not (e.currency == q.autonomy.asked_currency))
  | Authorizes.action_requiring_human_approval ↦ autonomy.determined == AutonomyDisposition.human
  | Authorizes.continuation_despite_unsatisfied_outcome ↦
      holds_outcome q.dependency OutcomeVerdict.unsatisfied
  | Authorizes.continuation_despite_indeterminate_outcome ↦
      holds_outcome q.dependency OutcomeVerdict.indeterminate
]

-- `applicableException`
unfoldable pub applicable_exception :
    AuthorityRequest → AutonomyDetermination → List AuthorityException → Option AuthorityException
unfolding applies
applicable_exception q autonomy [] = none
applicable_exception q autonomy (e ∷ es) =
    let rest = applicable_exception q autonomy es in if applies q autonomy e then some e else rest

unfoldable pub covered_layer : Authorizes → Layer
covered_layer Authorizes.amount_above_autonomy_line = Layer.autonomy_line
covered_layer Authorizes.action_requiring_human_approval = Layer.autonomy_line
covered_layer Authorizes.continuation_despite_unsatisfied_outcome = Layer.outcome_dependency
covered_layer Authorizes.continuation_despite_indeterminate_outcome = Layer.outcome_dependency

-- `releases`
unfoldable pub releases : AuthorityException → List AuthorityReason → Bool
unfolding covered_layer
releases e reasons = all (λ (r : AuthorityReason). r.layer == covered_layer e.authorizes) reasons

unfoldable pub exception_reasons : Option AuthorityException → List AuthorityReason
exception_reasons none = []
exception_reasons (some e) =
    record { layer = Layer.exception; disposition = AuthorityDisposition.allowed } ∷ []

unfoldable pub valid_grant : Option OutcomeDependency → Option String
valid_grant none = none
valid_grant (some d) = if d.grant_valid then d.grant_id else none

-- The disposition that the layers and the exception intersect to.
unfoldable pub intersect : List AuthorityReason → Option AuthorityException → AuthorityDisposition
unfolding with_disposition releases
intersect reasons excepted =
    let holding = with_disposition AuthorityDisposition.held reasons in
    if not (is_empty (with_disposition AuthorityDisposition.blocked reasons))
    then AuthorityDisposition.blocked
    else if is_empty holding
    then AuthorityDisposition.allowed
    else elim excepted [
      | none ↦ AuthorityDisposition.held
      | some e ↦
          if releases e holding then AuthorityDisposition.allowed else AuthorityDisposition.held
    ]

-- `evaluateAuthority`
unfoldable pub evaluate_authority : (String → String → Bool) → AuthorityRequest → AuthorityDecision
unfolding layer_reasons applicable_exception exception_reasons intersect valid_grant
evaluate_authority text_lt q =
    let autonomy = evaluate_autonomy_line text_lt q.autonomy_rules q.autonomy in
    let excepted = applicable_exception q autonomy q.exceptions in
    let reasons = layer_reasons q autonomy ++ exception_reasons excepted in
    let outcome = intersect reasons excepted in
    record {
      decided = outcome;
      reasons = reasons;
      controlling_policy_version_id = q.policy_version_id;
      determination = autonomy;
      decided_freeze_id = q.freeze_id;
      decided_budget_id = q.budget_id;
      used_exception_id =
          if outcome == AuthorityDisposition.blocked
          then none
          else elim excepted [ none ↦ none | some e ↦ some e.exception_id ];
      used_grant_id = valid_grant q.dependency;
    }
