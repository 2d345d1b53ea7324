-- ===== src/Concurrent/Initiate.antt =====
-- `InitiateSession` (khazina/internal/payment/service.go) as a program.
pub mod Safety
use saftaja.Prelude.{
  Bool, true, false, ◌≡◌, refl, Option, none, some, String, not, str_eq, if◌then◌else◌, Bool-cases,
  inl, inr,
}
use saftaja.Domain.{is_paid}
use saftaja.Connectors.Credentials.{parse_encrypted_credentials}
use saftaja.Env.{Env}
use saftaja.Errors.{Error, is_no_rows}
use saftaja.Exec
use saftaja.Exec.{Result, ok, err, panic, lift, pure, raise, crash, guard, attempt}
use saftaja.Mpgs.Types.{SessionDetails}
use saftaja.Mpgs.Client.{new_client, create_session, update_session}
use saftaja.Store.Rows.{Invoice, PaymentSession}
use saftaja.Store.Reads.{
  get_invoice_by_id_and_project, get_payment_session_by_idempotency_key,
  get_gateway_account_by_id_and_project,
}
use saftaja.Store.Writes.{create_payment_session}
use saftaja.Payment.Types.{
  Service, InitiateSessionRequest, InitiateSessionResult, missing_as, invalid_credentials,
  mpgs_gateway,
}
use saftaja.Payment.Initiate as Sequential
use saftaja.Payment.Initiate.{session_result, session_request, session_params}
use saftaja.Concurrent.Program.{
  Program, ends, run, call, returns, rename_error, catch, check, ◌>>=◌, ◌>>◌,
}
use saftaja.Concurrent.Program.Alone.{alone, run-ends}

abbrev pub gateway_session_id : Option SessionDetails → Program String
gateway_session_id none = ends panic
gateway_session_id (some d) = returns d.id

module _ (env : Env) (s : Service) where
  unfoldable pub open_session : InitiateSessionRequest → Invoice → Program InitiateSessionResult
  open_session req invoice = do
    account ←
        rename_error (Error.wrapped "invalid gateway account")
          (call (get_gateway_account_by_id_and_project env req.gateway_account_id req.project_id))
    creds ←
        rename_error invalid_credentials
          (ends (parse_encrypted_credentials env account.credentials s.encryption_key))
    resp ← rename_error mpgs_gateway (call (create_session env (new_client creds) session_request))
    gateway_id ← gateway_session_id resp.value.session
    db_session ←
        rename_error (Error.wrapped "failed to create payment session")
          (call (create_payment_session env (session_params req invoice account gateway_id)))
    rename_error mpgs_gateway (
        call (
          update_session env (new_client creds) gateway_id (record {
            order_amount = env.decimal_string invoice.amount;
            order_currency = invoice.currency;
            order_id = env.uuid_string invoice.id;
          })))
    returns (record { payment_session_id = db_session.id; gateway_session_id = gateway_id })

  abbrev pub reuse :
      InitiateSessionRequest → Invoice → Result PaymentSession → Program InitiateSessionResult
  reuse req invoice (ok existing) = returns (session_result existing)
  reuse req invoice (err e) =
      if not (is_no_rows e)
      then ends (err (Error.wrapped "failed to check idempotency" e))
      else open_session req invoice
  reuse req invoice panic = ends panic

  unfoldable pub initiate_session : InitiateSessionRequest → Program InitiateSessionResult
  initiate_session req = do
    invoice ←
        rename_error (missing_as (Error.invoice_not_found (env.uuid_string req.invoice_id)))
          (call (get_invoice_by_id_and_project env req.invoice_id req.project_id))
    check (not (is_paid invoice.status))
        (Error.invoice_already_paid (env.uuid_string req.invoice_id))
    if str_eq req.idempotency_key "" then open_session req invoice else do
      existing ← catch (
          call
            (get_payment_session_by_idempotency_key env req.invoice_id (some req.idempotency_key)))
      reuse req invoice existing

  gateway_session_id-alone :
      (d : Option SessionDetails) → run (gateway_session_id d) ≡ Sequential.gateway_session_id d
  unfolding run pure crash
  gateway_session_id-alone none = refl
  gateway_session_id-alone (some d) = refl

  open_session-alone :
      (req : InitiateSessionRequest) (invoice : Invoice)
      → run (open_session req invoice) ≡ Sequential.open_session env s req invoice
  unfolding open_session Sequential.open_session lift pure
  open_session-alone req invoice = simp (alone, gateway_session_id-alone, run-ends)

  reuse-alone :
      (req : InitiateSessionRequest) (invoice : Invoice) (r : Result PaymentSession)
      → run (reuse req invoice r) ≡ Sequential.reuse env s req invoice r
  unfolding run pure raise crash
  reuse-alone req invoice (ok p) = refl
  reuse-alone req invoice (err e) = elim (Bool-cases (not (is_no_rows e))) [
    | inl y ↦ rw y refl
    | inr n ↦ rw n (open_session-alone req invoice)
  ]
  reuse-alone req invoice panic = refl

  keyed-alone :
      (b : Bool) (req : InitiateSessionRequest) (invoice : Invoice)
      → run (
          if b
          then open_session req invoice
          else (catch (
                call (
                  get_payment_session_by_idempotency_key env req.invoice_id
                    (some req.idempotency_key)))
              >>= reuse req invoice))
        ≡ (if b
            then Sequential.open_session env s req invoice
            else (Exec.◌>>=◌
                (attempt (
                  get_payment_session_by_idempotency_key env req.invoice_id
                    (some req.idempotency_key)))
                (Sequential.reuse env s req invoice)))
  keyed-alone true req invoice = open_session-alone req invoice
  keyed-alone false req invoice = simp (alone, reuse-alone)

  -- Alone, the program does what the call does.
  pub initiate_session-alone :
      (req : InitiateSessionRequest)
      → run (initiate_session req) ≡ Sequential.initiate_session env s req
  unfolding initiate_session Sequential.initiate_session lift guard
  initiate_session-alone req = simp (alone, run-ends, keyed-alone)
