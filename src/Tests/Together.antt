-- ===== src/Tests/Together.antt =====
-- Two payers who finalise the payment of one invoice at the same time.
use saftaja.Prelude.{ℕ, List, [], ◌∷◌, ◌≡◌, refl}
use saftaja.Exec
use saftaja.Exec.{read, now, new_uuid, http_do, pure, raise, lift, transaction, write}
use saftaja.Connectors.Crypto.{decrypt}
use saftaja.Connectors.Credentials.{parse_encrypted_credentials, parse_credentials}
use saftaja.Mpgs.Client.{decode_response, do_request, execute_pay}
use saftaja.Store.Reads.{
  get_payment_session_by_id_and_project, get_invoice_by_id_and_project,
  get_pay_transaction_by_session_id, get_successful_auth_transaction, latest,
  get_gateway_account_by_payment_session_id,
}
use saftaja.Payment.Finalize.{record_approved, record_declined, record_payment}
use saftaja.Concurrent.Finalize.{finalize_payment, charge}
use saftaja.Store.Writes.{
  create_transaction, insert_transaction, update_transaction, update_transaction_status,
  update_invoice, update_invoice_status,
}
use saftaja.Ledger.Inv.{payments}
use saftaja.Ledger.Charges.{charges}
use saftaja.Concurrent.Program.{rename_error, catch, ◌>>=◌}
use saftaja.Concurrent.Pool.{interleave, turn, advance}
use saftaja.Concurrent.Server.{Operation, serve_together}
use saftaja.Tests.Fixtures.{approving, service, app, authenticated, finalize_request}

abbrev both : List Operation
both = Operation.finalize finalize_request ∷ Operation.finalize finalize_request ∷ []

abbrev in_turn : List ℕ
in_turn = 0 ∷ 1 ∷ 0 ∷ 1 ∷ 0 ∷ 1 ∷ 0 ∷ 1 ∷ 0 ∷ 1 ∷ 0 ∷ 1 ∷ 0 ∷ 1 ∷ 0 ∷ 1 ∷ 0 ∷ 1 ∷ 0 ∷ 1 ∷ []

-- Both requests go out to the gateway, and one payment is recorded.
charged_twice :
    (charges approving 3
        (serve_together approving service app.admins in_turn both authenticated).sent
      ≡ 2)
    × (payments 3
          (serve_together approving service app.admins in_turn both authenticated).db.transactions
        ≡ 1)
unfolding serve_together interleave turn advance ◌>>=◌ Exec.◌>>=◌ rename_error catch Exec.on_error
    read now new_uuid http_do pure raise lift transaction write parse_encrypted_credentials
    parse_credentials decrypt decode_response do_request execute_pay
    get_payment_session_by_id_and_project get_invoice_by_id_and_project
    get_pay_transaction_by_session_id get_successful_auth_transaction latest
    get_gateway_account_by_payment_session_id create_transaction insert_transaction update_invoice
    update_invoice_status update_transaction update_transaction_status finalize_payment charge
    record_approved record_declined record_payment
charged_twice = (refl, refl)
