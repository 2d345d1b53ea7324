-- ===== src/Payment/Finalize.antt =====
-- khazina/internal/payment/service.go: `FinalizePayment`.
use saftaja.Prelude.{
  Bool, true, false, Option, none, some, String, ◌==◌, ltb, str_eq, not, if◌then◌else◌,
}
use saftaja.Domain.{
  Uuid, Time, InvoiceStatus, TransactionType, TransactionStatus, is_paid, is_success,
}
use saftaja.Connectors.Credentials.{parse_encrypted_credentials}
use saftaja.Env.{Env}
use saftaja.Errors.{Error}
use saftaja.Exec.{
  Result, ok, Exec, pure, lift, on_error, attempt, guard, now, new_uuid, transaction, ◌>>=◌, ◌>>◌,
}
use saftaja.Mpgs.Types.{
  operation_pay, code_approved, ExecutePayRequest, ExecutePayResponse, Response, Body,
}
use saftaja.Mpgs.Client.{◌<>◌, new_client, execute_pay}
use saftaja.Store.Rows.{Invoice, PaymentSession, Transaction}
use saftaja.Store.Reads.{
  get_payment_session_by_id_and_project, get_invoice_by_id_and_project,
  get_pay_transaction_by_session_id, get_successful_auth_transaction,
  get_gateway_account_by_payment_session_id,
}
use saftaja.Store.Writes.{create_transaction, update_transaction_status, update_invoice_status}
use saftaja.Payment.Types.{
  Service, FinalizePaymentRequest, FinalizePaymentResult, PaymentResultCode, missing_as,
  session_not_found, invalid_credentials, mpgs_gateway, failed_to_update,
}
use saftaja.Payment.Auth.{transaction_params}

-- `session.ExpiresAt.Valid && time.Now().After(session.ExpiresAt.Time)`
abbrev pub is_expired : Option Time → Time → Bool
is_expired none time = false
is_expired (some expires_at) time = ltb expires_at time

-- `err == nil && existingTx.Status == domain.TransactionStatusSuccess`
abbrev pub is_settled : Result Transaction → Bool
is_settled (ok t) = is_success t.status
is_settled _ = false

module _ (env : Env) where
  abbrev pub checkout_url : FinalizePaymentRequest → String
  checkout_url req = "/checkout/" <> env.uuid_string req.invoice_id

  abbrev pub success_result : FinalizePaymentRequest → FinalizePaymentResult
  success_result req = record {
    success = true;
    result_code = PaymentResultCode.payment_success;
    checkout_url = checkout_url req;
  }

  abbrev pub declined_result : FinalizePaymentRequest → FinalizePaymentResult
  declined_result req = record {
    success = false;
    result_code = PaymentResultCode.payment_declined;
    checkout_url = checkout_url req;
  }

  abbrev pub pay_request : Invoice → PaymentSession → Transaction → ExecutePayRequest
  pay_request invoice session auth_tx = record {
    api_operation = operation_pay;
    authentication_transaction_id = auth_tx.gateway_transaction_id;
    order_amount = env.decimal_string invoice.amount;
    order_currency = invoice.currency;
    order_reference = env.uuid_string invoice.id;
    session_id = session.gateway_session_id;
    transaction_reference = none;
  }

  unfoldable pub record_approved :
      FinalizePaymentRequest → Uuid → Uuid → String → Exec FinalizePaymentResult
  record_approved req invoice_id tx_id raw = do
    on_error failed_to_update (update_transaction_status env tx_id TransactionStatus.success raw)
    on_error (Error.wrapped "failed to update invoice")
        (update_invoice_status env invoice_id InvoiceStatus.paid)
    pure (success_result req)

  unfoldable pub record_declined :
      FinalizePaymentRequest → Uuid → String → Exec FinalizePaymentResult
  record_declined req tx_id raw = do
    on_error failed_to_update (update_transaction_status env tx_id TransactionStatus.failed raw)
    pure (declined_result req)

  -- the statements between `Begin` and `Commit`
  unfoldable pub record_payment :
      FinalizePaymentRequest
      → Uuid
      → Uuid
      → Response ExecutePayResponse
      → Exec FinalizePaymentResult
  record_payment req invoice_id tx_id resp =
      if str_eq resp.value.gateway_code code_approved
      then record_approved req invoice_id tx_id resp.raw_body
      else record_declined req tx_id resp.raw_body

  module _ (s : Service) where
    -- from the authentication that the payment rests on
    unfoldable pub charge :
        FinalizePaymentRequest → PaymentSession → Invoice → Exec FinalizePaymentResult
    charge req session invoice = do
      auth_tx ←
          on_error (Error.wrapped "authentication missing")
            (get_successful_auth_transaction env session.id)
      account ← get_gateway_account_by_payment_session_id env session.id
      creds ←
          on_error invalid_credentials
            (lift (parse_encrypted_credentials env account.credentials s.encryption_key))
      gateway_tx_id ← new_uuid env
      db_tx ← on_error (Error.wrapped "failed to create transaction") (
          create_transaction env (
            transaction_params session invoice TransactionType.pay (env.uuid_string gateway_tx_id)
              (Body.execute_pay (pay_request invoice session auth_tx))))
      resp ← on_error mpgs_gateway (
          execute_pay env (new_client creds) (env.uuid_string invoice.id)
            (env.uuid_string gateway_tx_id) (pay_request invoice session auth_tx))
      transaction env (record_payment req invoice.id db_tx.id resp)

    unfoldable pub finalize_payment : FinalizePaymentRequest → Exec FinalizePaymentResult
    finalize_payment req = do
      session ←
          on_error session_not_found
            (get_payment_session_by_id_and_project env req.payment_session_id req.project_id)
      guard (session.invoice_id == req.invoice_id) (
          Error.session_invoice_mismatch (env.uuid_string req.payment_session_id)
            (env.uuid_string req.invoice_id))
      time ← now env
      guard (not (is_expired session.expires_at time))
          (Error.session_expired (env.uuid_string session.id))
      invoice ←
          on_error (missing_as (Error.invoice_not_found (env.uuid_string req.invoice_id)))
            (get_invoice_by_id_and_project env req.invoice_id req.project_id)
      guard (not (is_paid invoice.status)) (Error.invoice_already_paid (env.uuid_string invoice.id))
      existing ← attempt (get_pay_transaction_by_session_id env session.id)
      if is_settled existing then pure (success_result req) else charge req session invoice
