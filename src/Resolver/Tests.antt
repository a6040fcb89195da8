-- ===== src/Resolver/Tests.antt =====
-- A payment that is observed is resolved.
use nyst.Engine.Sanitize.{method_reason, cited_records, object_reason, keep_backed}
use nyst.Store.Resolutions.{save}
use nyst.Store.Runtime.{write}
use nyst.Engine.Epistemic.{is_contradictory}
use nyst.Store.Actions.{transition, new_record}
use nyst.Runtime.Exec.{guard, pure, or_fail, ◌>>=◌}
use nyst.Base.{dedupe, filter, any, present, true, none, some, ◌≡◌, refl, put, ok}
use nyst.Model.EffectState.{is_terminal}
use nyst.Model.Internal.{InternalState}
use nyst.Model.Action.{ActionRecord}
use nyst.Model.Resolution.{OutcomeResolution}
use nyst.Engine.Ledger.{
  is_non_transport, is_unattributed_presence, is_attributed_presence, is_authoritative_absence,
  is_authoritative_presence, active_evidence,
}
use nyst.Engine.Clamps.Safe.{IsSafe}
use nyst.Engine.Floors.{FloorResult, apply_safety_floors}
use nyst.Store.{empty_store, Store}
use nyst.Store.Evidence.{sealed, list_for_action}
use nyst.Store.Tests.{dispatching, s₆}
use nyst.Runtime.Host.{elapse, ask, ask_clock, call, read, require_action}
use nyst.Runtime.Derive.{save_result, signed}
use nyst.Runtime.Budget.Once.{begin}
use nyst.Runtime.Tests.{shop, payments}
use nyst.Runtime.Tests.Derive.{receipt, waiting}
use nyst.Resolver.{enter_reconciling, resolve}
use nyst.Resolver.Safe.{read_at, resolve-IsSafe}

abbrev observed : Store Unit
observed = record s₆ {
  by_id = put "a-1" (record dispatching { internal_state = InternalState.observing }) s₆.by_id;
}

abbrev observed_receipt : OutcomeResolution
observed_receipt = record receipt {
  resolution_id = "bbbbba";
  basis = none;
  control = record waiting { next_check_at = some "2026-01-05T12:05:00Z" };
}

resolved : (resolve shop payments "a-1" (begin 0 observed)).0 ≡ ok observed_receipt
unfolding resolve present ◌>>=◌ require_action read or_fail put pure guard new_record call
    transition apply_safety_floors is_contradictory any filter list_for_action write sealed
    is_authoritative_presence is_authoritative_absence is_attributed_presence
    is_unattributed_presence ask_clock ask save_result save empty_store is_terminal keep_backed
    object_reason cited_records method_reason is_non_transport dedupe
resolved = refl

resolve-IsSafe_example :
    (a b : ActionRecord Unit) × (f : FloorResult) × ((elapse shop (begin 0 observed)).store.by_id
        "a-1"
      ≡ some a)
    × (a.effect_name ≡ payments.effect_name)
    × ((enter_reconciling shop a "a-1" (require_action shop "a-1" (begin 0 observed)).1).0 ≡ ok b)
    × (apply_safety_floors payments
          (payments.assess b (read_at shop "a-1" a (begin 0 observed)))
          (payments.decide b (payments.assess b (read_at shop "a-1" a (begin 0 observed))))
          (read_at shop "a-1" a (begin 0 observed))
        ≡ some f)
    × (observed_receipt.state ≡ f.state)
    × (observed_receipt.evidence_refs ≡ f.assessment.evidence_refs)
    × IsSafe payments
        (active_evidence (read_at shop "a-1" a (begin 0 observed)))
        observed_receipt.state
        observed_receipt.control
    × (observed_receipt ≡ signed shop (record observed_receipt { signature = none }))
    × (shop.resolution_schema observed_receipt ≡ true)
resolve-IsSafe_example =
    resolve-IsSafe shop payments "a-1" (begin 0 observed) observed_receipt resolved
