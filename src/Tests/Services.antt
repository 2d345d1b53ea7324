-- ===== src/Tests/Services.antt =====
-- The theorems on single operations of the payment service.
use saftaja.Prelude.{All, keep, true, suc, ◌≡◌, refl, ◌⊎◌}
use saftaja.Exec.{
  ok, ◌>>=◌, on_error, read, guard, now, attempt, lift, new_uuid, http_do, pure, raise, transaction,
  write,
}
use saftaja.Connectors.Credentials.{parse_encrypted_credentials, parse_credentials}
use saftaja.Connectors.Crypto.{decrypt}
use saftaja.Mpgs.Client.{decode_response, do_request, create_session, update_session, execute_pay}
use saftaja.Store.Reads.{
  get_payment_session_by_id_and_project, get_invoice_by_id_and_project,
  get_pay_transaction_by_session_id, get_successful_auth_transaction, latest,
  get_gateway_account_by_payment_session_id, get_gateway_account_by_id_and_project,
  get_payment_session_by_idempotency_key,
}
use saftaja.Store.Writes.{
  create_payment_session, insert_session, create_transaction, insert_transaction, update_invoice,
  update_invoice_status, update_transaction, update_transaction_status,
}
use saftaja.Payment.Types.{InitiateSessionResult}
use saftaja.Payment.Checkout.{get_checkout_data}
use saftaja.Payment.Initiate.{initiate_session, open_session}
use saftaja.Payment.Finalize.{
  finalize_payment, success_result, declined_result, charge, record_approved, record_declined,
  record_payment,
}
use saftaja.Ledger.Guards.{Permitted, finalize_payment-Permitted, finalize_payment-ok_Permitted}
use saftaja.Ledger.Idempotent.{initiate_session-reuses, initiate_session-idempotent}
use saftaja.Ledger.Refines.Checkout.{get_checkout_data-unchanged}
use saftaja.Ledger.Refines.Finalize.{finalize_payment-Agrees}
use saftaja.Ledger.Refines.Recording.{Agrees}
use saftaja.Store.Latest.{authenticates, NotAfter, get_successful_auth_transaction-newest}
use saftaja.Tests.Fixtures.{
  authentication, approving, declining, service, fresh, authenticated, session, session_request,
  finalize_request,
}
use saftaja.Tests.Tables.{authenticated-Inv}

-- A payment that the gateway approves is a success, and one that it declines is not.
decided :
    ((finalize_payment approving service finalize_request authenticated).0
      ≡ ok (success_result approving finalize_request))
    × ((finalize_payment declining service finalize_request authenticated).0
        ≡ ok (declined_result declining finalize_request))
unfolding finalize_payment ◌>>=◌ on_error get_payment_session_by_id_and_project read guard now
    get_invoice_by_id_and_project attempt get_pay_transaction_by_session_id charge
    get_successful_auth_transaction latest get_gateway_account_by_payment_session_id lift
    parse_encrypted_credentials new_uuid create_transaction parse_credentials decrypt http_do pure
    raise transaction write decode_response do_request execute_pay record_approved record_declined
    record_payment insert_transaction update_invoice update_invoice_status update_transaction
    update_transaction_status
decided = (refl, refl)

abbrev opened_session : InitiateSessionResult
opened_session = record { payment_session_id = 14; gateway_session_id = "SESSION1" }

-- A session opened, and the same one found again by its key.
opened :
    ((initiate_session approving service session_request fresh).0 ≡ ok opened_session)
    × ((initiate_session approving service session_request
          (initiate_session approving service session_request fresh).1).0
        ≡ ok opened_session)
unfolding initiate_session open_session ◌>>=◌ on_error read guard attempt lift
    get_invoice_by_id_and_project get_payment_session_by_idempotency_key
    get_gateway_account_by_id_and_project parse_encrypted_credentials parse_credentials decrypt
    create_session do_request http_do decode_response create_payment_session insert_session write
    update_session pure raise
opened = (refl, refl)

finalize_payment-Permitted_example :
    ((finalize_payment approving service finalize_request authenticated).1.state
      ≡ authenticated.state)
    ⊎ Permitted finalize_request (approving.now (suc authenticated.step)) authenticated.db
finalize_payment-Permitted_example =
    finalize_payment-Permitted approving service finalize_request authenticated authenticated-Inv

finalize_payment-ok_Permitted_example :
    Permitted finalize_request (declining.now (suc authenticated.step)) authenticated.db
finalize_payment-ok_Permitted_example =
    finalize_payment-ok_Permitted declining service finalize_request authenticated
      (declined_result declining finalize_request) authenticated-Inv decided.1

finalize_payment-Agrees_example :
    Agrees 3 authenticated.db.invoices
      (success_result approving finalize_request)
      (finalize_payment approving service finalize_request authenticated).1.db
finalize_payment-Agrees_example =
    finalize_payment-Agrees approving service finalize_request authenticated
      (success_result approving finalize_request) authenticated-Inv decided.0

initiate_session-reuses_example :
    (initiate_session approving service session_request authenticated).1.state ≡ authenticated.state
initiate_session-reuses_example =
    initiate_session-reuses approving service session_request authenticated session refl refl

initiate_session-idempotent_example :
    (opened_session ≡ opened_session)
    × ((initiate_session approving service session_request
          (initiate_session approving service session_request fresh).1).1.state
        ≡ (initiate_session approving service session_request fresh).1.state)
initiate_session-idempotent_example =
    initiate_session-idempotent approving approving service service session_request fresh
      (initiate_session approving service session_request fresh).1 opened_session opened_session
      refl opened.0 refl opened.1

get_checkout_data-unchanged_example :
    (get_checkout_data approving service 3 1 fresh).1.state ≡ fresh.state
get_checkout_data-unchanged_example = get_checkout_data-unchanged approving service 3 1 fresh

authentication_found :
    (get_successful_auth_transaction approving 4 authenticated).0 ≡ ok authentication
unfolding get_successful_auth_transaction read latest
authentication_found = refl

get_successful_auth_transaction-newest_example :
    (authenticates 4 authentication ≡ true)
    × All (NotAfter authentication) (keep (authenticates 4) authenticated.db.transactions)
get_successful_auth_transaction-newest_example =
    get_successful_auth_transaction-newest approving 4 authenticated authentication
      authentication_found
