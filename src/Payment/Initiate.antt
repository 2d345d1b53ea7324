-- ===== src/Payment/Initiate.antt =====
-- khazina/internal/payment/service.go: `InitiateSession`.
use saftaja.Prelude.{Option, none, some, String, not, str_eq, if◌then◌else◌}
use saftaja.Domain.{text_of, is_paid}
use saftaja.Connectors.Credentials.{parse_encrypted_credentials}
use saftaja.Env.{Env}
use saftaja.Errors.{Error, is_no_rows}
use saftaja.Exec.{
  Result, ok, err, panic, Exec, pure, raise, crash, lift, on_error, attempt, guard, ◌>>=◌, ◌>>◌,
}
use saftaja.Mpgs.Types.{CreateSessionRequest, SessionDetails}
use saftaja.Mpgs.Client.{new_client, create_session, update_session}
use saftaja.Store.Rows.{Invoice, GatewayAccount, PaymentSession}
use saftaja.Store.Reads.{
  get_invoice_by_id_and_project, get_payment_session_by_idempotency_key,
  get_gateway_account_by_id_and_project,
}
use saftaja.Store.Writes.{create_payment_session, CreatePaymentSessionParams}
use saftaja.Payment.Types.{
  Service, InitiateSessionRequest, InitiateSessionResult, missing_as, invalid_credentials,
  mpgs_gateway,
}

abbrev pub session_result : PaymentSession → InitiateSessionResult
session_result s = record { payment_session_id = s.id; gateway_session_id = s.gateway_session_id }

-- `utils.Ptr[int32](25)`
abbrev pub session_request : CreateSessionRequest
session_request = record { correlation_id = ""; authentication_limit = some 25 }

abbrev pub session_params :
    InitiateSessionRequest → Invoice → GatewayAccount → String → CreatePaymentSessionParams
session_params req invoice account gateway_session_id = record {
  invoice_id = invoice.id;
  project_id = invoice.project_id;
  gateway_account_id = account.id;
  gateway_session_id = gateway_session_id;
  payment_method = req.payment_method;
  payer_ip = some req.payer_ip;
  payer_user_agent = text_of req.payer_user_agent;
  idempotency_key = text_of req.idempotency_key;
}

-- `resp.Data.Session.ID`, where `Session` may be nil
abbrev pub gateway_session_id : Option SessionDetails → Exec String
gateway_session_id none = crash
gateway_session_id (some d) = pure d.id

module _ (env : Env) (s : Service) where
  -- from the gateway account on
  unfoldable pub open_session : InitiateSessionRequest → Invoice → Exec InitiateSessionResult
  open_session req invoice = do
    account ←
        on_error (Error.wrapped "invalid gateway account")
          (get_gateway_account_by_id_and_project env req.gateway_account_id req.project_id)
    creds ←
        on_error invalid_credentials
          (lift (parse_encrypted_credentials env account.credentials s.encryption_key))
    resp ← on_error mpgs_gateway (create_session env (new_client creds) session_request)
    gateway_id ← gateway_session_id resp.value.session
    db_session ←
        on_error (Error.wrapped "failed to create payment session")
          (create_payment_session env (session_params req invoice account gateway_id))
    on_error mpgs_gateway (
        update_session env (new_client creds) gateway_id (record {
          order_amount = env.decimal_string invoice.amount;
          order_currency = invoice.currency;
          order_id = env.uuid_string invoice.id;
        }))
    pure (record { payment_session_id = db_session.id; gateway_session_id = gateway_id })

  -- an existing session is returned, and a missing one opened
  abbrev pub reuse :
      InitiateSessionRequest → Invoice → Result PaymentSession → Exec InitiateSessionResult
  reuse req invoice (ok existing) = pure (session_result existing)
  reuse req invoice (err e) =
      if not (is_no_rows e)
      then raise (Error.wrapped "failed to check idempotency" e)
      else open_session req invoice
  reuse req invoice panic = crash

  unfoldable pub initiate_session : InitiateSessionRequest → Exec InitiateSessionResult
  initiate_session req = do
    invoice ←
        on_error (missing_as (Error.invoice_not_found (env.uuid_string req.invoice_id)))
          (get_invoice_by_id_and_project env req.invoice_id req.project_id)
    guard (not (is_paid invoice.status))
        (Error.invoice_already_paid (env.uuid_string req.invoice_id))
    if str_eq req.idempotency_key "" then open_session req invoice else do
      existing ←
          attempt
            (get_payment_session_by_idempotency_key env req.invoice_id (some req.idempotency_key))
      reuse req invoice existing
