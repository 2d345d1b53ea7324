-- ===== src/Tests/Flow.antt =====
-- The theorems on sequences of calls, on a payment from its session to its end.
use saftaja.Prelude.{
  String, List, [], ◌∷◌, ◌≡◌, refl, ◌==◌, ◌≤◌, All, inl, inr, sym, ◌∙◌, Bool-cases, ==-eq, none,
}
use saftaja.Domain.{Uuid, PaymentSessionStatus}
use saftaja.Env.{HttpRequest}
use saftaja.Exec.{
  ◌>>=◌, on_error, read, guard, now, attempt, lift, new_uuid, http_do, pure, raise, transaction,
  write,
}
use saftaja.Store.Rows.{PaymentSession}
use saftaja.Connectors.Credentials.{parse_encrypted_credentials, parse_credentials}
use saftaja.Connectors.Crypto.{decrypt}
use saftaja.Mpgs.Client.{
  decode_response, do_request, create_session, update_session, initiate_authentication,
  authenticate_payer, execute_pay,
}
use saftaja.Store.Reads.{
  get_payment_session_by_id_and_project, get_invoice_by_id_and_project, get_invoice_items,
  list_active_gateway_accounts, get_pay_transaction_by_session_id, get_successful_auth_transaction,
  latest, get_latest_transaction, get_gateway_account_by_payment_session_id,
  get_gateway_account_by_id_and_project, get_payment_session_by_idempotency_key,
  get_project_by_payment_session_id,
}
use saftaja.Store.Writes.{
  create_payment_session, insert_session, create_transaction, insert_transaction, update_invoice,
  update_invoice_status, update_transaction, update_transaction_status,
}
use saftaja.Payment.Checkout.{get_checkout_data, open_checkout, collect}
use saftaja.Payment.Initiate.{initiate_session, open_session}
use saftaja.Payment.Auth.{initiate_auth, process_auth}
use saftaja.Payment.Finalize.{
  finalize_payment, charge, record_approved, record_declined, record_payment,
}
use saftaja.Ledger.Step.{History}
use saftaja.Ledger.Inv.{Inv, paid_flag, payments}
use saftaja.Ledger.Traffic.{
  Call, serve, serve_all, serve_all-History, serve_all-Inv, serve_all-payments, serve_all-created,
}
use saftaja.Ledger.Charges.{charges, serve_all-paid_once, serve_all-Exact, Exact}
use saftaja.Tests.Fixtures.{
  approving, service, fresh, settled, session_request, auth_request, process_request,
  finalize_request,
}
use saftaja.Tests.Tables.{fresh-Inv, settled-Inv}

-- The session that the second call opens gets the id 17.
abbrev flow : List Call
flow =
    Call.checkout 3 1
    ∷ Call.session session_request
    ∷ Call.authenticate (record auth_request { payment_session_id = 17 })
    ∷ Call.challenge (record process_request { payment_session_id = 17 })
    ∷ Call.finalize (record finalize_request { payment_session_id = 17 })
    ∷ []

-- The whole flow ends in a paid invoice.
flow_pays :
    (paid_flag 3 (serve_all approving service flow fresh).db.invoices ≡ 1)
    × (charges approving 3 (serve_all approving service flow fresh).sent ≡ 1)
unfolding serve serve_all ◌>>=◌ on_error read guard now attempt lift new_uuid http_do pure raise
    transaction write parse_encrypted_credentials parse_credentials decrypt decode_response
    do_request create_session update_session initiate_authentication authenticate_payer execute_pay
    get_payment_session_by_id_and_project get_invoice_by_id_and_project get_invoice_items
    list_active_gateway_accounts get_pay_transaction_by_session_id get_successful_auth_transaction
    latest get_latest_transaction get_gateway_account_by_payment_session_id
    get_gateway_account_by_id_and_project get_payment_session_by_idempotency_key
    get_project_by_payment_session_id create_payment_session insert_session create_transaction
    insert_transaction update_invoice update_invoice_status update_transaction
    update_transaction_status get_checkout_data open_checkout collect initiate_session open_session
    initiate_auth process_auth finalize_payment charge record_approved record_declined
    record_payment
flow_pays = (refl, refl)

serve_all-payments_example :
    (payments 3 (serve_all approving service flow fresh).db.transactions
      ≡ paid_flag 3 (serve_all approving service flow fresh).db.invoices)
    × (payments 3 (serve_all approving service flow fresh).db.transactions ≤ 1)
serve_all-payments_example = serve_all-payments approving service flow fresh 3 fresh-Inv

serve_all-created_example :
    All
      (λ (p : PaymentSession). p.status ≡ PaymentSessionStatus.created)
      (serve_all approving service flow fresh).db.payment_sessions
serve_all-created_example = serve_all-created approving service flow fresh fresh-Inv

serve_all-History_example :
    History approving none fresh.state (serve_all approving service flow fresh).state
serve_all-History_example = serve_all-History approving service flow fresh

serve_all-Inv_example : Inv (serve_all approving service flow fresh).db
serve_all-Inv_example = serve_all-Inv approving service flow fresh fresh-Inv

serve_all-Exact_example :
    All
      (λ (r : HttpRequest).
        Exact approving (serve_all approving service flow fresh).db.invoices r.body)
      (serve_all approving service flow fresh).sent
serve_all-Exact_example = serve_all-Exact approving service flow fresh refl

-- the invoice's id alone prints as it does
only_invoice : (j : Uuid) → approving.uuid_string j ≡ approving.uuid_string 3 → j ≡ 3
only_invoice j h = elim (Bool-cases (j == 3)) [
  | inl e ↦ ==-eq j 3 e
  | inr n ↦ absurd (other≢invoice (sym (rw n refl) ∙ h))
]
  where
    other≢invoice : ◌≡◌ {A = String} "other" "invoice" → ⊥
    other≢invoice e = cc

serve_all-paid_once_example :
    (paid_flag 3 (serve_all approving service flow settled).db.invoices ≡ 1)
    × (charges approving 3 (serve_all approving service flow settled).sent
        ≡ charges approving 3 settled.sent)
serve_all-paid_once_example =
    serve_all-paid_once approving service flow settled 3 only_invoice settled-Inv refl
