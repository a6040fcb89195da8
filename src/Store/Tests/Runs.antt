-- ===== src/Store/Tests/Runs.antt =====
-- What holds along that run.
use nyst.Base.{false, some, ◌≡◌, refl, ◌≢◌, ◌⊎◌, ok, err, string_eq, option_eq}
use nyst.Model.Internal.{internal_state_eq}
use nyst.Model.Action.{ActionRecord}
use nyst.Model.Metadata.{holds_raw_credential}
use nyst.Store.{empty_store, input_collision}
use nyst.Store.Actions.{new_record, record_intent, find_by_identity}
use nyst.Store.Trace.{start}
use nyst.Store.Trace.History.{Later, SameAction}
use nyst.Store.Trace.Permanence.{run_keeps, recorded_again}
use nyst.Store.Tests.{
  s₁, s₆, pay, pay_more, accepted, text_lt, hash, Payload, recorded, nothing_before, recording,
  reached₁, on_to₆, no_context,
}

run_keeps_example : Later s₁ s₆
run_keeps_example = run_keeps text_lt hash s₁ s₆ reached₁ on_to₆

clean : holds_raw_credential no_context ≡ false
unfolding holds_raw_credential
clean = refl

named_one : (new_record pay "a-1").action_id ≢ ""
unfolding new_record
named_one h = cc h

recorded_again_example :
    (n : ActionRecord Payload) × SameAction (new_record pay "a-1") n
    × (find_by_identity "payment.send" "order-7" s₆ ≡ some n)
    × (((pay_more.input_hash ≡ pay.input_hash)
          × (record_intent accepted "a-2" pay_more s₆
              ≡ ok (record { action = n; created = false }, s₆)))
        ⊎ ((pay_more.input_hash ≢ pay.input_hash)
            × (record_intent accepted "a-2" pay_more s₆ ≡ err input_collision)))
recorded_again_example =
    recorded_again text_lt hash accepted accepted "a-1" "a-2" pay pay_more empty_store s₁ s₆
      recorded start nothing_before recording on_to₆ refl refl clean named_one
