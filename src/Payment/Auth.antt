-- ===== src/Payment/Auth.antt =====
-- khazina/internal/payment/service.go: `InitiateAuth` and `ProcessAuth`.
use saftaja.Prelude.{some, String, ◌==◌, ◌||◌, str_eq, is_some, not, if◌then◌else◌}
use saftaja.Domain.{text_string, TransactionType, TransactionStatus, is_success}
use saftaja.Connectors.Credentials.{parse_encrypted_credentials}
use saftaja.Env.{Env}
use saftaja.Errors.{Error}
use saftaja.Exec.{Exec, pure, lift, on_error, guard, new_uuid, ◌>>=◌, ◌>>◌}
use saftaja.Mpgs.Types.{
  result_success, result_pending, operation_initiate_authentication, operation_authenticate_payer,
  channel_payer_browser, gateway_recommendation_proceed, InitiateAuthenticationRequest,
  AuthenticatePayerRequest, Body,
}
use saftaja.Mpgs.Client.{◌<>◌, new_client, initiate_authentication, authenticate_payer}
use saftaja.Store.Rows.{Invoice, PaymentSession}
use saftaja.Store.Reads.{
  get_payment_session_by_id_and_project, get_invoice_by_id_and_project,
  get_gateway_account_by_payment_session_id, get_latest_transaction,
  get_project_by_payment_session_id,
}
use saftaja.Store.Writes.{create_transaction, update_transaction_status, CreateTransactionParams}
use saftaja.Payment.Types.{
  Service, InitiateAuthRequest, InitiateAuthResult, ProcessAuthRequest, ProcessAuthResult,
  session_not_found, invalid_credentials, mpgs_gateway, failed_to_update,
}

abbrev pub initiate_request : Invoice → PaymentSession → InitiateAuthenticationRequest
initiate_request invoice session = record {
  api_operation = operation_initiate_authentication;
  channel = channel_payer_browser;
  order_currency = invoice.currency;
  session_id = session.gateway_session_id;
}

-- what `CreateTransaction` is given in all three operations
abbrev pub transaction_params :
    PaymentSession → Invoice → TransactionType → String → Body → CreateTransactionParams
transaction_params session invoice type gateway_transaction_id raw_request = record {
  payment_session_id = session.id;
  invoice_id = invoice.id;
  project_id = invoice.project_id;
  transaction_type = type;
  gateway_transaction_id = gateway_transaction_id;
  amount = invoice.amount;
  currency = invoice.currency;
  raw_request = raw_request;
}

abbrev pub initiate_status : String → TransactionStatus
initiate_status result =
    if str_eq result result_success then TransactionStatus.success else TransactionStatus.failed

abbrev pub initiate_step : String → String
initiate_step recommendation =
    if str_eq recommendation gateway_recommendation_proceed then "authenticate" else "cant_continue"

abbrev pub process_status : String → TransactionStatus
process_status result =
    if str_eq result result_pending || str_eq result result_success
    then TransactionStatus.success
    else TransactionStatus.failed

abbrev pub process_result : String → ProcessAuthResult
process_result html =
    if not (str_eq html "")
    then record { next_step = "3ds_challenge"; redirect_html = html }
    else record { next_step = "pay"; redirect_html = "" }

module _ (env : Env) (s : Service) where
  unfoldable pub initiate_auth : InitiateAuthRequest → Exec InitiateAuthResult
  initiate_auth req = do
    session ←
        on_error session_not_found
          (get_payment_session_by_id_and_project env req.payment_session_id req.project_id)
    guard (session.invoice_id == req.invoice_id) (
        Error.session_invoice_mismatch (env.uuid_string req.payment_session_id)
          (env.uuid_string req.invoice_id))
    invoice ← get_invoice_by_id_and_project env req.invoice_id req.project_id
    account ← get_gateway_account_by_payment_session_id env session.id
    creds ←
        on_error invalid_credentials
          (lift (parse_encrypted_credentials env account.credentials s.encryption_key))
    gateway_tx_id ← new_uuid env
    db_tx ← on_error (Error.wrapped "failed to create transaction") (
        create_transaction env (
          transaction_params session invoice TransactionType.initiate_authentication
            (env.uuid_string gateway_tx_id)
            (Body.initiate_authentication (initiate_request invoice session))))
    resp ← on_error mpgs_gateway (
        initiate_authentication env (new_client creds) (env.uuid_string invoice.id)
          (env.uuid_string gateway_tx_id) (initiate_request invoice session))
    on_error failed_to_update
        (update_transaction_status env db_tx.id (initiate_status resp.value.result) resp.raw_body)
    pure (record {
      transaction_id = env.uuid_string gateway_tx_id;
      next_step = initiate_step resp.value.gateway_recommendation;
    })

  abbrev pub redirect_url : ProcessAuthRequest → PaymentSession → String → String
  redirect_url req session custom_domain =
      "https://"
      <> custom_domain
      <> "/checkout/"
      <> env.uuid_string req.invoice_id
      <> "/pay/card/"
      <> env.uuid_string session.id
      <> "/finalize"

  abbrev pub payer_request :
      ProcessAuthRequest → Invoice → PaymentSession → String → AuthenticatePayerRequest
  payer_request req invoice session custom_domain = record {
    api_operation = operation_authenticate_payer;
    redirect_response_url = redirect_url req session custom_domain;
    browser = req.user_agent;
    browser_details = some req.browser_details;
    ip_address = req.payer_ip;
    order_amount = env.decimal_string invoice.amount;
    order_currency = invoice.currency;
    session_id = session.gateway_session_id;
  }

  unfoldable pub process_auth : ProcessAuthRequest → Exec ProcessAuthResult
  process_auth req = do
    session ←
        on_error session_not_found
          (get_payment_session_by_id_and_project env req.payment_session_id req.project_id)
    guard (session.invoice_id == req.invoice_id) (
        Error.session_invoice_mismatch (env.uuid_string req.payment_session_id)
          (env.uuid_string req.invoice_id))
    invoice ← get_invoice_by_id_and_project env req.invoice_id req.project_id
    last_tx ←
        on_error (Error.wrapped "no transaction found") (get_latest_transaction env session.id)
    guard (is_success last_tx.status) (Error.plain "previous transaction not successful")
    account ← get_gateway_account_by_payment_session_id env session.id
    project ← get_project_by_payment_session_id env session.id
    guard
        (not (not (is_some project.custom_domain) || str_eq (text_string project.custom_domain) ""))
        (Error.plain "custom domain not configured")
    creds ←
        on_error invalid_credentials
          (lift (parse_encrypted_credentials env account.credentials s.encryption_key))
    let mpgs_req = payer_request req invoice session (text_string project.custom_domain)
    db_tx ← on_error (Error.wrapped "failed to create transaction") (
        create_transaction env (
          transaction_params session invoice TransactionType.authenticate_payer
            last_tx.gateway_transaction_id (Body.authenticate_payer mpgs_req)))
    resp ← on_error mpgs_gateway (
        authenticate_payer env (new_client creds) (env.uuid_string invoice.id)
          last_tx.gateway_transaction_id mpgs_req)
    on_error failed_to_update
        (update_transaction_status env db_tx.id (process_status resp.value.result) resp.raw_body)
    pure (process_result resp.value.redirect_html)
