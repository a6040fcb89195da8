-- ===== src/Runtime/Tests/Once.antt =====
-- A payment is committed, compensated, and compensated again, which is refused.
use nyst.Base.{◌+◌, ◌≤◌, String, none, List, [], ◌∷◌}
use nyst.Store.{empty_store}
use nyst.Store.Trace.{start}
use nyst.Store.Tests.{no_context}
use nyst.Runtime.Host.{Call}
use nyst.Runtime.Operations.Serve.{Request, serve}
use nyst.Runtime.Budget.{made, account}
use nyst.Runtime.Budget.Once.{begin, Peaceful, made-le-claims, serve-Budget}
use nyst.Runtime.Tests.{shop, letters}

-- The action has the id that is drawn at its third moment.
abbrev payment_id : String
payment_id = letters 3

abbrev day : List (Request Unit)
day =
    Request.commits "payment.send" "order-7" tt no_context none
    ∷ Request.compensates payment_id
    ∷ Request.compensates payment_id
    ∷ []

pub peaceful : Peaceful shop
peaceful n s = start

made-le-claims_example :
    let w = (serve shop day (begin 0 empty_store)).1 in
    made (Call.compensated payment_id) w.calls
      + account (Call.compensated payment_id) (empty_store {Json = Unit})
    ≤ account (Call.compensated payment_id) w.store
made-le-claims_example =
    made-le-claims shop peaceful day 0 empty_store (Call.compensated payment_id)

serve-Budget_example :
    let w = (serve shop day (begin 0 empty_store)).1 in
    (made (Call.dispatched payment_id) w.calls ≤ 2)
    × (made (Call.compensated payment_id) w.calls ≤ 1)
serve-Budget_example = serve-Budget shop peaceful empty_store start day 0 payment_id
