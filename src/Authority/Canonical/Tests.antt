-- ===== src/Authority/Canonical/Tests.antt =====
-- A frozen payment, with an exception.
use nyst.Base.{String, Bool, true, false, none, some, [], ◌∷◌, ◌≡◌, ◌≢◌, refl, filter, all}
use nyst.Model.Control.{
  PrimaryDirective, RetryDisposition, ContinuationDisposition, RecoveryDisposition,
}
use nyst.Authority.Autonomy.{AutonomyDisposition, evaluate_autonomy_line}
use nyst.Authority.Effective.{EffectiveAuthority}
use nyst.Authority.Canonical.{
  AuthorityDisposition, Authorizes, AuthorityRequest, evaluate_authority,
}
use nyst.Authority.Canonical.Laws.{unblocked_only_if}

abbrev by_id : String → String → Bool
by_id a b = false

abbrev permissive : EffectiveAuthority
permissive = record {
  permitted = record {
    primary = PrimaryDirective.continue;
    retry = RetryDisposition.forbidden;
    continuation = ContinuationDisposition.allowed;
    recovery = RecoveryDisposition.none;
  };
  automatic_continuation_allowed = true;
  automatic_compensation_allowed = false;
  automatic_retry_allowed = false;
  reductions = [];
}

-- No rule describes the agent, so that a person is asked; a person has said yes.
abbrev asked : AuthorityRequest
asked = record {
  runtime_authority = permissive;
  policy_version_id = none;
  autonomy_rules = [];
  autonomy = record {
    asking_agent = some "agent-1";
    asked_effect = "payment.send";
    asked_outcome = none;
    asked_class = none;
    amount_minor = some 4000;
    asked_currency = some "EUR";
    reversible = some true;
    actions_in_window = 1;
    amount_in_window_minor = 4000;
    open_incident = false;
    outcome_satisfied = none;
  };
  admitted = true;
  budget_id = none;
  frozen = false;
  freeze_id = none;
  controlled = true;
  dependency = none;
  exceptions =
      record {
        exception_id = "x-1";
        authorizes = Authorizes.action_requiring_human_approval;
        max_amount_minor = none;
        currency = none;
      }
      ∷ [];
}

released : (evaluate_authority by_id asked).decided ≡ AuthorityDisposition.allowed
unfolding evaluate_authority evaluate_autonomy_line filter all
released = refl

frozen_stays :
    (evaluate_authority by_id (record asked { frozen = true })).decided
    ≡ AuthorityDisposition.blocked
unfolding evaluate_authority evaluate_autonomy_line filter all
frozen_stays = refl

not_blocked : (evaluate_authority by_id asked).decided ≢ AuthorityDisposition.blocked
not_blocked h = cc (h, released)

unblocked_only_if_example :
    (PrimaryDirective.continue ≢ PrimaryDirective.escalate)
    × (ContinuationDisposition.allowed ≢ ContinuationDisposition.blocked)
    × (asked.frozen ≡ false)
    × (asked.admitted ≡ true)
    × ((evaluate_autonomy_line by_id asked.autonomy_rules asked.autonomy).determined
        ≢ AutonomyDisposition.disabled)
unblocked_only_if_example = unblocked_only_if by_id asked not_blocked
