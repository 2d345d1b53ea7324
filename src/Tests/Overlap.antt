-- ===== src/Tests/Overlap.antt =====
-- Two HTTP requests to finalise the payment of one invoice that overlap.
use saftaja.Prelude.{ℕ, ◌≤◌, true, List, [], ◌∷◌, ◌≡◌, arith}
use saftaja.Ledger.Inv.{Inv, paid_flag, payments}
use saftaja.Web.Request.{Request, Route}
use saftaja.Concurrent.Pool.{interleave, pool}
use saftaja.Concurrent.Ending.{ended_at}
use saftaja.Concurrent.Http.Server.{
  request_thread, handle_together, handle_together-Inv, handle_together-payments,
  handle_together-ended,
}
use saftaja.Tests.Fixtures.{approving, app, authenticated}
use saftaja.Tests.Tables.{authenticated-Inv}
use saftaja.Tests.Server.{web, request}

abbrev twice : List (Route × Request)
twice = (Route.finalize, request) ∷ (Route.finalize, request) ∷ []

abbrev six_each : List ℕ → List ℕ
six_each turns = 0 ∷ 1 ∷ 0 ∷ 1 ∷ 0 ∷ 1 ∷ 0 ∷ 1 ∷ 0 ∷ 1 ∷ 0 ∷ 1 ∷ turns

abbrev turn_about : List ℕ
turn_about = six_each (six_each [])

handle_together-Inv_example :
    Inv (handle_together web approving app turn_about twice authenticated).db
handle_together-Inv_example =
    handle_together-Inv web approving app turn_about twice authenticated authenticated-Inv

handle_together-payments_example :
    (payments 3 (handle_together web approving app turn_about twice authenticated).db.transactions
      ≡ paid_flag 3 (handle_together web approving app turn_about twice authenticated).db.invoices)
    × (payments 3 (handle_together web approving app turn_about twice authenticated).db.transactions
        ≤ 1)
handle_together-payments_example =
    handle_together-payments web approving app turn_about twice authenticated 3 authenticated-Inv

handle_together-ended_example :
    ended_at 1
      (interleave turn_about (pool (request_thread web approving app) twice) authenticated).0
    ≡ true
handle_together-ended_example =
    handle_together-ended web approving app turn_about twice authenticated 1 (omega arith)
