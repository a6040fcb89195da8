-- ===== src/Engine/Adjustment.antt =====
-- The reason codes of src/engine/safetyFloors.ts, one constructor for each code that is pushed.
use mathlib.Core.Option.{some-injective}
use nyst.Base.{
  refl, sym, ap, ◌∙◌, List, [], ◌∷◌, some, get_elem?, eqb_iff, ℕ, String, true, ◌≡◌, ◌↔◌, eqb, Eq,
  eq_by_rank,
}

pub data Adjustment : Type 0 where
  v1_unknown_evidence_ref_dropped v1b_superseded_evidence_ref_dropped
        v2_unsupported_verification_method_dropped v3_unbacked_provider_ref_dropped
        v4_strength_derived_from_evidence e0_contradictory_active_evidence
        e1b_unattributed_presence_degrades_to_satisfied
        e1_verified_requires_attributed_authoritative_presence
        e2_absence_requires_authoritative_absence_assertion
        e2b_not_applied_contradicted_by_presence_evidence
        e3_goal_state_requires_substantive_presence_evidence e4_compensation_requires_confirmation
        c6_transport_ambiguity_blocks_retry c7_unsupported_compensation_rejected
        c1_verified_forbids_duplicate_retry c1_verified_primary_not_retry c2_pending_forbids_retry
        c2_pending_blocks_continuation c2_pending_primary_hold c3_unprovable_blocks_automatic_retry
        c3_unprovable_blocks_continuation c3_unprovable_primary_escalate c4_satisfied_forbids_retry
        c4_satisfied_primary_not_retry c4_continuation_requires_goal_state_sufficiency
        c5_retry_requires_spec_retry_safety c5_not_applied_blocks_dependent_continuation
        c8_primary_retry_inconsistent c9_primary_continue_inconsistent
        c10_terminal_next_check_removed :
      Adjustment

abbrev pub adjustment_rank : Adjustment → ℕ
adjustment_rank v1_unknown_evidence_ref_dropped = 0
adjustment_rank v1b_superseded_evidence_ref_dropped = 1
adjustment_rank v2_unsupported_verification_method_dropped = 2
adjustment_rank v3_unbacked_provider_ref_dropped = 3
adjustment_rank v4_strength_derived_from_evidence = 4
adjustment_rank e0_contradictory_active_evidence = 5
adjustment_rank e1b_unattributed_presence_degrades_to_satisfied = 6
adjustment_rank e1_verified_requires_attributed_authoritative_presence = 7
adjustment_rank e2_absence_requires_authoritative_absence_assertion = 8
adjustment_rank e2b_not_applied_contradicted_by_presence_evidence = 9
adjustment_rank e3_goal_state_requires_substantive_presence_evidence = 10
adjustment_rank e4_compensation_requires_confirmation = 11
adjustment_rank c6_transport_ambiguity_blocks_retry = 12
adjustment_rank c7_unsupported_compensation_rejected = 13
adjustment_rank c1_verified_forbids_duplicate_retry = 14
adjustment_rank c1_verified_primary_not_retry = 15
adjustment_rank c2_pending_forbids_retry = 16
adjustment_rank c2_pending_blocks_continuation = 17
adjustment_rank c2_pending_primary_hold = 18
adjustment_rank c3_unprovable_blocks_automatic_retry = 19
adjustment_rank c3_unprovable_blocks_continuation = 20
adjustment_rank c3_unprovable_primary_escalate = 21
adjustment_rank c4_satisfied_forbids_retry = 22
adjustment_rank c4_satisfied_primary_not_retry = 23
adjustment_rank c4_continuation_requires_goal_state_sufficiency = 24
adjustment_rank c5_retry_requires_spec_retry_safety = 25
adjustment_rank c5_not_applied_blocks_dependent_continuation = 26
adjustment_rank c8_primary_retry_inconsistent = 27
adjustment_rank c9_primary_continue_inconsistent = 28
adjustment_rank c10_terminal_next_check_removed = 29

abbrev all_adjustments : List Adjustment
all_adjustments =
    v1_unknown_evidence_ref_dropped ∷ v1b_superseded_evidence_ref_dropped
    ∷ v2_unsupported_verification_method_dropped ∷ v3_unbacked_provider_ref_dropped
    ∷ v4_strength_derived_from_evidence ∷ e0_contradictory_active_evidence
    ∷ e1b_unattributed_presence_degrades_to_satisfied
    ∷ e1_verified_requires_attributed_authoritative_presence
    ∷ e2_absence_requires_authoritative_absence_assertion
    ∷ e2b_not_applied_contradicted_by_presence_evidence
    ∷ e3_goal_state_requires_substantive_presence_evidence ∷ e4_compensation_requires_confirmation
    ∷ c6_transport_ambiguity_blocks_retry ∷ c7_unsupported_compensation_rejected
    ∷ c1_verified_forbids_duplicate_retry ∷ c1_verified_primary_not_retry ∷ c2_pending_forbids_retry
    ∷ c2_pending_blocks_continuation ∷ c2_pending_primary_hold
    ∷ c3_unprovable_blocks_automatic_retry ∷ c3_unprovable_blocks_continuation
    ∷ c3_unprovable_primary_escalate ∷ c4_satisfied_forbids_retry ∷ c4_satisfied_primary_not_retry
    ∷ c4_continuation_requires_goal_state_sufficiency ∷ c5_retry_requires_spec_retry_safety
    ∷ c5_not_applied_blocks_dependent_continuation ∷ c8_primary_retry_inconsistent
    ∷ c9_primary_continue_inconsistent ∷ c10_terminal_next_check_removed ∷ []

get_elem?-adjustment_rank :
    (a : Adjustment) → get_elem? all_adjustments (adjustment_rank a) ≡ some a
get_elem?-adjustment_rank v1_unknown_evidence_ref_dropped = refl
get_elem?-adjustment_rank _ = refl

pub adjustment_rank_iff :
    (a b : Adjustment) → (eqb (adjustment_rank a) (adjustment_rank b) ≡ true) ↔ (a ≡ b)
adjustment_rank_iff a b = (
  λ h. some-injective a b (
      sym (get_elem?-adjustment_rank a)
      ∙ ap (get_elem? all_adjustments) ((eqb_iff _ _).0 h)
      ∙ get_elem?-adjustment_rank b),
  λ e. (eqb_iff _ _).1 (ap adjustment_rank e),
)

instance abbrev pub adjustment_eq : Eq Adjustment
adjustment_eq = eq_by_rank adjustment_rank adjustment_rank_iff

-- The text of a code.
unfoldable pub adjustment_code : Adjustment → String
adjustment_code v1_unknown_evidence_ref_dropped = "CORE.V1_UNKNOWN_EVIDENCE_REF_DROPPED"
adjustment_code v1b_superseded_evidence_ref_dropped = "CORE.V1B_SUPERSEDED_EVIDENCE_REF_DROPPED"
adjustment_code v2_unsupported_verification_method_dropped =
    "CORE.V2_UNSUPPORTED_VERIFICATION_METHOD_DROPPED"
adjustment_code v3_unbacked_provider_ref_dropped = "CORE.V3_UNBACKED_PROVIDER_REF_DROPPED"
adjustment_code v4_strength_derived_from_evidence = "CORE.V4_STRENGTH_DERIVED_FROM_EVIDENCE"
adjustment_code e0_contradictory_active_evidence = "CORE.E0_CONTRADICTORY_ACTIVE_EVIDENCE"
adjustment_code e1b_unattributed_presence_degrades_to_satisfied =
    "CORE.E1B_UNATTRIBUTED_PRESENCE_DEGRADES_TO_SATISFIED"
adjustment_code e1_verified_requires_attributed_authoritative_presence =
    "CORE.E1_VERIFIED_REQUIRES_ATTRIBUTED_AUTHORITATIVE_PRESENCE"
adjustment_code e2_absence_requires_authoritative_absence_assertion =
    "CORE.E2_ABSENCE_REQUIRES_AUTHORITATIVE_ABSENCE_ASSERTION"
adjustment_code e2b_not_applied_contradicted_by_presence_evidence =
    "CORE.E2B_NOT_APPLIED_CONTRADICTED_BY_PRESENCE_EVIDENCE"
adjustment_code e3_goal_state_requires_substantive_presence_evidence =
    "CORE.E3_GOAL_STATE_REQUIRES_SUBSTANTIVE_PRESENCE_EVIDENCE"
adjustment_code e4_compensation_requires_confirmation = "CORE.E4_COMPENSATION_REQUIRES_CONFIRMATION"
adjustment_code c6_transport_ambiguity_blocks_retry = "CORE.C6_TRANSPORT_AMBIGUITY_BLOCKS_RETRY"
adjustment_code c7_unsupported_compensation_rejected = "CORE.C7_UNSUPPORTED_COMPENSATION_REJECTED"
adjustment_code c1_verified_forbids_duplicate_retry = "CORE.C1_VERIFIED_FORBIDS_DUPLICATE_RETRY"
adjustment_code c1_verified_primary_not_retry = "CORE.C1_VERIFIED_PRIMARY_NOT_RETRY"
adjustment_code c2_pending_forbids_retry = "CORE.C2_PENDING_FORBIDS_RETRY"
adjustment_code c2_pending_blocks_continuation = "CORE.C2_PENDING_BLOCKS_CONTINUATION"
adjustment_code c2_pending_primary_hold = "CORE.C2_PENDING_PRIMARY_HOLD"
adjustment_code c3_unprovable_blocks_automatic_retry = "CORE.C3_UNPROVABLE_BLOCKS_AUTOMATIC_RETRY"
adjustment_code c3_unprovable_blocks_continuation = "CORE.C3_UNPROVABLE_BLOCKS_CONTINUATION"
adjustment_code c3_unprovable_primary_escalate = "CORE.C3_UNPROVABLE_PRIMARY_ESCALATE"
adjustment_code c4_satisfied_forbids_retry = "CORE.C4_SATISFIED_FORBIDS_RETRY"
adjustment_code c4_satisfied_primary_not_retry = "CORE.C4_SATISFIED_PRIMARY_NOT_RETRY"
adjustment_code c4_continuation_requires_goal_state_sufficiency =
    "CORE.C4_CONTINUATION_REQUIRES_GOAL_STATE_SUFFICIENCY"
adjustment_code c5_retry_requires_spec_retry_safety = "CORE.C5_RETRY_REQUIRES_SPEC_RETRY_SAFETY"
adjustment_code c5_not_applied_blocks_dependent_continuation =
    "CORE.C5_NOT_APPLIED_BLOCKS_DEPENDENT_CONTINUATION"
adjustment_code c8_primary_retry_inconsistent = "CORE.C8_PRIMARY_RETRY_INCONSISTENT"
adjustment_code c9_primary_continue_inconsistent = "CORE.C9_PRIMARY_CONTINUE_INCONSISTENT"
adjustment_code c10_terminal_next_check_removed = "CORE.C10_TERMINAL_NEXT_CHECK_REMOVED"
