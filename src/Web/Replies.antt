-- ===== src/Web/Replies.antt =====
-- Which reply the errors of the service get (khazina/internal/web/errors.go).
pub mod First
use saftaja.Prelude.{Bool, true, false, ℕ, ◌≡◌, ◌≢◌, refl, none, String, ◌⊎◌, arith}
use saftaja.Env.{Env}
use saftaja.Errors.{Error}
use saftaja.Exec.{World, Exec, Result, err, tick, read, on_error, ◌>>=◌, connection_lost}
use saftaja.Store.Rows.{PaymentSession}
use saftaja.Store.Reads.{get_payment_session_by_id_and_project}
use saftaja.Payment.Types.{
  Service, InitiateAuthRequest, ProcessAuthRequest, FinalizePaymentRequest, session_not_found,
}
use saftaja.Payment.Auth.{initiate_auth, process_auth}
use saftaja.Payment.Finalize.{finalize_payment}
use saftaja.Ledger.Step.{session_at}
use saftaja.Env.{DbOutcome}
use saftaja.Web.Errors.{handle_payment_error, ErrorCode, Message, reply}
use saftaja.Domain.{Uuid}

-- The context that the service wraps around an error leaves its reply as it is.
pub handle_payment_error-wrapped :
    (text : String) (e : Error)
    → handle_payment_error (Error.wrapped text e) ≡ handle_payment_error e
unfolding handle_payment_error
handle_payment_error-wrapped text e = refl

-- the codes of the five errors of the service that are asked for before a gateway error
abbrev pub is_early : ErrorCode → Bool
is_early ErrorCode.invoice_not_found = true
is_early ErrorCode.session_expired = true
is_early ErrorCode.invalid_state = true
is_early ErrorCode.already_paid = true
is_early ErrorCode.session_mismatch = true
is_early _ = false

-- A gateway error gets the reply of the error that it wraps, code, message and status, where that
-- has the code INVOICE_NOT_FOUND, SESSION_EXPIRED, INVALID_STATE, ALREADY_PAID or SESSION_MISMATCH,
-- and otherwise it gets GATEWAY_ERROR with its message and the status 502.
pub handle_payment_error-gateway :
    (g : String) (e : Error)
    → ((is_early (handle_payment_error e).code ≡ true)
        × (handle_payment_error (Error.gateway g e) ≡ handle_payment_error e))
      ⊎ ((is_early (handle_payment_error e).code ≡ false)
          × (handle_payment_error (Error.gateway g e)
              ≡ reply ErrorCode.gateway_error Message.msg_gateway_error 502))
unfolding handle_payment_error
handle_payment_error-gateway g e = ground arith

-- the status of each code
abbrev pub status_of : ErrorCode → ℕ
status_of ErrorCode.invalid_request = 400
status_of ErrorCode.invoice_not_found = 404
status_of ErrorCode.session_expired = 410
status_of ErrorCode.session_not_found = 404
status_of ErrorCode.invalid_state = 409
status_of ErrorCode.already_paid = 409
status_of ErrorCode.session_mismatch = 403
status_of ErrorCode.gateway_error = 502
status_of ErrorCode.internal_error = 500

-- The status of a reply is that of its code, and no error gets the code SESSION_NOT_FOUND.
pub handle_payment_error-codes :
    (e : Error)
    → ((handle_payment_error e).status ≡ status_of (handle_payment_error e).code)
      × ((handle_payment_error e).code ≢ ErrorCode.session_not_found)
unfolding handle_payment_error
handle_payment_error-codes e = ground arith

-- What the three operations begin with, for a session that is not there.
module _ {A : Type 0} where
  abbrev pub Refused : Result A × World → World → Type 0
  Refused r w =
      (e : Error) × (r ≡ (err e, tick w))
      × (handle_payment_error e ≡ reply ErrorCode.internal_error Message.msg_internal_error 500)

  no_session :
      (env : Env) (i q : Uuid) (k : PaymentSession → Exec A) (w : World) (o : DbOutcome)
      → env.db_outcome w.step ≡ o
      → session_at i q w.db.payment_sessions ≡ none
      → Refused
          ((on_error session_not_found (get_payment_session_by_id_and_project env i q) >>= k) w)
          w
  unfolding get_payment_session_by_id_and_project read on_error ◌>>=◌ handle_payment_error
  no_session env i q k w DbOutcome.answered o none_found =
      rw (o, none_found) (Error.plain "payment session not found", refl, refl)
  no_session env i q k w DbOutcome.refused o none_found = rw o (connection_lost, refl, refl)
  no_session env i q k w DbOutcome.unheard o none_found = rw o (connection_lost, refl, refl)

-- A request to finalise a payment session that is not there, or is another project's, is answered
-- with 500 INTERNAL_ERROR, and no table changes and nothing is sent to the gateway.
pub finalize_payment-no_session :
    (env : Env) (s : Service) (req : FinalizePaymentRequest) (w : World)
    → session_at req.payment_session_id req.project_id w.db.payment_sessions ≡ none
    → Refused (finalize_payment env s req w) w
unfolding finalize_payment
finalize_payment-no_session env s req w h =
    no_session env req.payment_session_id req.project_id _ w _ refl h

-- A request to start the authentication in a payment session that is not there, or is another
-- project's, is answered with 500 INTERNAL_ERROR, and no table changes and nothing is sent.
pub initiate_auth-no_session :
    (env : Env) (s : Service) (req : InitiateAuthRequest) (w : World)
    → session_at req.payment_session_id req.project_id w.db.payment_sessions ≡ none
    → Refused (initiate_auth env s req w) w
unfolding initiate_auth
initiate_auth-no_session env s req w h =
    no_session env req.payment_session_id req.project_id _ w _ refl h

-- A request to go on with the authentication in a payment session that is not there, or is another
-- project's, is answered with 500 INTERNAL_ERROR, and no table changes and nothing is sent.
pub process_auth-no_session :
    (env : Env) (s : Service) (req : ProcessAuthRequest) (w : World)
    → session_at req.payment_session_id req.project_id w.db.payment_sessions ≡ none
    → Refused (process_auth env s req w) w
unfolding process_auth
process_auth-no_session env s req w h =
    no_session env req.payment_session_id req.project_id _ w _ refl h
