-- ===== src/Concurrent/Finalize.antt =====
-- `FinalizePayment` (khazina/internal/payment/service.go) as a program.
pub mod Recorded
pub mod Charged
pub mod Safety
use saftaja.Prelude.{Bool, true, false, ◌≡◌, ◌==◌, not, if◌then◌else◌}
use saftaja.Domain.{TransactionType, is_paid}
use saftaja.Connectors.Credentials.{parse_encrypted_credentials}
use saftaja.Env.{Env}
use saftaja.Errors.{Error}
use saftaja.Exec.{now, new_uuid, transaction, pure}
use saftaja.Mpgs.Types.{Body}
use saftaja.Mpgs.Client.{new_client, execute_pay}
use saftaja.Store.Rows.{Invoice, PaymentSession}
use saftaja.Store.Reads.{
  get_payment_session_by_id_and_project, get_invoice_by_id_and_project,
  get_pay_transaction_by_session_id, get_successful_auth_transaction,
  get_gateway_account_by_payment_session_id,
}
use saftaja.Store.Writes.{create_transaction}
use saftaja.Payment.Types.{
  Service, FinalizePaymentRequest, FinalizePaymentResult, missing_as, session_not_found,
  invalid_credentials, mpgs_gateway,
}
use saftaja.Payment.Auth.{transaction_params}
use saftaja.Payment.Finalize as Sequential
use saftaja.Payment.Finalize.{is_expired, is_settled, success_result, pay_request, record_payment}
use saftaja.Concurrent.Program.{
  Program, ends, run, call, returns, rename_error, catch, check, ◌>>=◌, ◌>>◌,
}
use saftaja.Concurrent.Program.Alone.{alone, run-returns, run-ends, run-check}

module _ (env : Env) (s : Service) where
  unfoldable pub charge :
      FinalizePaymentRequest → PaymentSession → Invoice → Program FinalizePaymentResult
  charge req session invoice = do
    auth_tx ←
        rename_error (Error.wrapped "authentication missing")
          (call (get_successful_auth_transaction env session.id))
    account ← call (get_gateway_account_by_payment_session_id env session.id)
    creds ←
        rename_error invalid_credentials
          (ends (parse_encrypted_credentials env account.credentials s.encryption_key))
    gateway_tx_id ← call (new_uuid env)
    db_tx ← rename_error (Error.wrapped "failed to create transaction") (
        call (
          create_transaction env (
            transaction_params session invoice TransactionType.pay (env.uuid_string gateway_tx_id)
              (Body.execute_pay (pay_request env invoice session auth_tx)))))
    resp ← rename_error mpgs_gateway (
        call (
          execute_pay env (new_client creds) (env.uuid_string invoice.id)
            (env.uuid_string gateway_tx_id) (pay_request env invoice session auth_tx)))
    call (transaction env (record_payment env req invoice.id db_tx.id resp))

  unfoldable pub finalize_payment : FinalizePaymentRequest → Program FinalizePaymentResult
  finalize_payment req = do
    session ←
        rename_error session_not_found
          (call (get_payment_session_by_id_and_project env req.payment_session_id req.project_id))
    check (session.invoice_id == req.invoice_id) (
        Error.session_invoice_mismatch (env.uuid_string req.payment_session_id)
          (env.uuid_string req.invoice_id))
    time ← call (now env)
    check (not (is_expired session.expires_at time))
        (Error.session_expired (env.uuid_string session.id))
    invoice ←
        rename_error (missing_as (Error.invoice_not_found (env.uuid_string req.invoice_id)))
          (call (get_invoice_by_id_and_project env req.invoice_id req.project_id))
    check (not (is_paid invoice.status)) (Error.invoice_already_paid (env.uuid_string invoice.id))
    existing ← catch (call (get_pay_transaction_by_session_id env session.id))
    if is_settled existing then returns (success_result env req) else charge req session invoice

  charge-alone :
      (req : FinalizePaymentRequest) (session : PaymentSession) (invoice : Invoice)
      → run (charge req session invoice) ≡ Sequential.charge env s req session invoice
  unfolding charge Sequential.charge
  charge-alone req session invoice = simp (alone, run-ends)

  finish-alone :
      (b : Bool) (req : FinalizePaymentRequest) (session : PaymentSession) (invoice : Invoice)
      → run (if b then returns (success_result env req) else charge req session invoice)
        ≡ (if b then pure (success_result env req) else Sequential.charge env s req session invoice)
  finish-alone true req session invoice = run-returns _
  finish-alone false req session invoice = charge-alone req session invoice

  -- The program of `FinalizePayment`, when no other runs, does what the call does.
  pub finalize_payment-alone :
      (req : FinalizePaymentRequest)
      → run (finalize_payment req) ≡ Sequential.finalize_payment env s req
  unfolding finalize_payment Sequential.finalize_payment
  finalize_payment-alone req = simp (alone, run-check, finish-alone)
