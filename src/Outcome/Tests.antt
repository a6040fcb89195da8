-- ===== src/Outcome/Tests.antt =====
-- A person has left: no system may still see access, and one look says that there is none.
use mathlib.Core.List.{Memᴰ}
use nyst.Base.{◌⊎◌, dedupe, String, true, false, none, some, [], ◌∷◌, ◌≡◌, refl, filter}
use nyst.Outcome.Facts.{
  FactValue, WorldFact, Invariant, InvariantOperator, InvariantResult, InvariantContext, Script,
}
use nyst.Outcome.Engine.{is_quantified, is_capability, member_invariant, evaluate_invariant}
use nyst.Outcome.Engine.Laws.{IsRecent, freshness_lem}
use nyst.Outcome.Verdict.{OutcomeVerdict, evaluate_outcome}
use nyst.Outcome.Verdict.Observed.{Rests, satisfied-Rests}

abbrev plain_script : Script
plain_script = record {
  time = λ t. some 1000;
  stringify = λ v. "";
  text_lt = λ a b. false;
  code_lt = λ a b. false;
  sort = λ xs. xs;
  show = λ v. "";
  join = λ xs. "";
}

abbrev no_access : WorldFact
no_access = record {
  fact_id = "f-1";
  subject_ref = "alice@prod";
  provider = "directory";
  property = "access";
  value = FactValue.absent;
  observed_at = "2026-01-05T09:00:00Z";
  fresh_until = "2026-01-05T10:00:00Z";
  evidence_id = some "e-1";
  source_type = "read";
  authoritative = true;
  adapter_version = "1";
}

abbrev nobody_has_access : Invariant
nobody_has_access = record {
  invariant_id = "i-1";
  statement = "No production access remains.";
  operator = InvariantOperator.zero;
  subject_ref = "alice";
  property = "access";
  expected = none;
  members = some ("alice@prod" ∷ []);
  any_is_safe = false;
  expected_count = none;
  max_age_seconds = none;
  capability = none;
  accepts_corroborative = false;
}

abbrev seen : InvariantContext
seen = record { facts = no_access ∷ []; held_capabilities = []; freshness_seconds = 60; now = 900 }

is_satisfied :
    (evaluate_outcome plain_script (nobody_has_access ∷ []) [] seen).verdict
    ≡ OutcomeVerdict.satisfied
unfolding evaluate_outcome filter dedupe
is_satisfied = refl

satisfied-Rests_example :
    (is_quantified InvariantOperator.zero ≡ false
      → is_capability InvariantOperator.zero ≡ false
      → Rests plain_script seen nobody_has_access InvariantResult.holds)
    × ((m : String)
        → Memᴰ m ("alice@prod" ∷ [])
        → (InvariantOperator.zero ≡ InvariantOperator.all
            → Rests plain_script seen (member_invariant nobody_has_access m) InvariantResult.holds)
          × (InvariantOperator.zero ≡ InvariantOperator.zero
              → Rests plain_script seen
                  (member_invariant nobody_has_access m)
                  InvariantResult.fails))
satisfied-Rests_example =
    satisfied-Rests plain_script seen (nobody_has_access ∷ []) [] nobody_has_access is_satisfied
      (Memᴰ.head refl)

abbrev recently_seen : Invariant
recently_seen = record nobody_has_access {
  operator = InvariantOperator.freshness;
  subject_ref = "alice@prod";
  members = none;
}

freshness_lem_example :
    ((evaluate_invariant plain_script recently_seen seen).result ≡ InvariantResult.indeterminate)
    ⊎ (((evaluate_invariant plain_script recently_seen seen).result ≡ InvariantResult.holds)
        × IsRecent plain_script recently_seen seen)
freshness_lem_example = freshness_lem plain_script recently_seen seen refl
