-- ===== src/Concurrent/Auth.antt =====
-- `InitiateAuth` and `ProcessAuth` (khazina/internal/payment/service.go) as programs.
pub mod Safety
use saftaja.Prelude.{◌≡◌, ◌==◌, ◌||◌, not, is_some, str_eq}
use saftaja.Domain.{TransactionType, is_success, text_string}
use saftaja.Connectors.Credentials.{parse_encrypted_credentials}
use saftaja.Env.{Env}
use saftaja.Errors.{Error}
use saftaja.Exec.{new_uuid, lift, pure, guard}
use saftaja.Mpgs.Types.{Body}
use saftaja.Mpgs.Client.{new_client, initiate_authentication, authenticate_payer}
use saftaja.Store.Reads.{
  get_payment_session_by_id_and_project, get_invoice_by_id_and_project,
  get_gateway_account_by_payment_session_id, get_latest_transaction,
  get_project_by_payment_session_id,
}
use saftaja.Store.Writes.{create_transaction, update_transaction_status}
use saftaja.Payment.Types.{
  Service, InitiateAuthRequest, InitiateAuthResult, ProcessAuthRequest, ProcessAuthResult,
  session_not_found, invalid_credentials, mpgs_gateway, failed_to_update,
}
use saftaja.Payment.Auth as Sequential
use saftaja.Payment.Auth.{
  initiate_request, payer_request, transaction_params, initiate_status, initiate_step,
  process_status, process_result,
}
use saftaja.Concurrent.Program.{Program, ends, run, call, returns, rename_error, check, ◌>>=◌, ◌>>◌}
use saftaja.Concurrent.Program.Alone.{alone, run-ends}

module _ (env : Env) (s : Service) where
  unfoldable pub initiate_auth : InitiateAuthRequest → Program InitiateAuthResult
  initiate_auth req = do
    session ←
        rename_error session_not_found
          (call (get_payment_session_by_id_and_project env req.payment_session_id req.project_id))
    check (session.invoice_id == req.invoice_id) (
        Error.session_invoice_mismatch (env.uuid_string req.payment_session_id)
          (env.uuid_string req.invoice_id))
    invoice ← call (get_invoice_by_id_and_project env req.invoice_id req.project_id)
    account ← call (get_gateway_account_by_payment_session_id env session.id)
    creds ←
        rename_error invalid_credentials
          (ends (parse_encrypted_credentials env account.credentials s.encryption_key))
    gateway_tx_id ← call (new_uuid env)
    db_tx ← rename_error (Error.wrapped "failed to create transaction") (
        call (
          create_transaction env (
            transaction_params session invoice TransactionType.initiate_authentication
              (env.uuid_string gateway_tx_id)
              (Body.initiate_authentication (initiate_request invoice session)))))
    resp ← rename_error mpgs_gateway (
        call (
          initiate_authentication env (new_client creds) (env.uuid_string invoice.id)
            (env.uuid_string gateway_tx_id) (initiate_request invoice session)))
    rename_error failed_to_update (
        call (
          update_transaction_status env db_tx.id (initiate_status resp.value.result) resp.raw_body))
    returns (record {
      transaction_id = env.uuid_string gateway_tx_id;
      next_step = initiate_step resp.value.gateway_recommendation;
    })

  unfoldable pub process_auth : ProcessAuthRequest → Program ProcessAuthResult
  process_auth req = do
    session ←
        rename_error session_not_found
          (call (get_payment_session_by_id_and_project env req.payment_session_id req.project_id))
    check (session.invoice_id == req.invoice_id) (
        Error.session_invoice_mismatch (env.uuid_string req.payment_session_id)
          (env.uuid_string req.invoice_id))
    invoice ← call (get_invoice_by_id_and_project env req.invoice_id req.project_id)
    last_tx ←
        rename_error (Error.wrapped "no transaction found")
          (call (get_latest_transaction env session.id))
    check (is_success last_tx.status) (Error.plain "previous transaction not successful")
    account ← call (get_gateway_account_by_payment_session_id env session.id)
    project ← call (get_project_by_payment_session_id env session.id)
    check
        (not (not (is_some project.custom_domain) || str_eq (text_string project.custom_domain) ""))
        (Error.plain "custom domain not configured")
    creds ←
        rename_error invalid_credentials
          (ends (parse_encrypted_credentials env account.credentials s.encryption_key))
    let mpgs_req = payer_request env s req invoice session (text_string project.custom_domain)
    db_tx ← rename_error (Error.wrapped "failed to create transaction") (
        call (
          create_transaction env (
            transaction_params session invoice TransactionType.authenticate_payer
              last_tx.gateway_transaction_id (Body.authenticate_payer mpgs_req))))
    resp ← rename_error mpgs_gateway (
        call (
          authenticate_payer env (new_client creds) (env.uuid_string invoice.id)
            last_tx.gateway_transaction_id mpgs_req))
    rename_error failed_to_update (
        call
          (update_transaction_status env db_tx.id (process_status resp.value.result) resp.raw_body))
    returns (process_result resp.value.redirect_html)

  -- Alone, the programs do what the calls do.
  pub initiate_auth-alone :
      (req : InitiateAuthRequest) → run (initiate_auth req) ≡ Sequential.initiate_auth env s req
  unfolding initiate_auth Sequential.initiate_auth lift pure guard
  initiate_auth-alone req = simp (alone, run-ends)

  pub process_auth-alone :
      (req : ProcessAuthRequest) → run (process_auth req) ≡ Sequential.process_auth env s req
  unfolding process_auth Sequential.process_auth lift pure guard
  process_auth-alone req = simp (alone, run-ends)
