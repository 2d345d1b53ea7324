-- ===== src/Web/Errors.antt =====
-- khazina/internal/web/errors.go: the reply for an error of the payment service. A message is named
-- by its variable in khazina/internal/domain/messages.go.
use saftaja.Prelude.{ℕ, Bool, true, false, ◌||◌, if◌then◌else◌}
use saftaja.Errors.{Error}
use saftaja.Payment.Types.{PaymentResultCode}

pub data ErrorCode : Type 0 where
  invalid_request invoice_not_found session_expired session_not_found invalid_state already_paid
        session_mismatch gateway_error internal_error :
      ErrorCode

pub data Message : Type 0 where
  msg_invoice_not_found msg_session_expired msg_session_not_found msg_invalid_state msg_already_paid
        msg_gateway_error msg_internal_error msg_invalid_request msg_payment_successful
        msg_payment_declined msg_authentication_failed :
      Message

-- `respondError`
pub record Reply : Type 0 where
  pub code : ErrorCode
  pub message : Message
  pub status : ℕ

-- `errors.As`: an error of the chain that passes the test on its type.
abbrev pub errors_as : (Error → Bool) → Error → Bool
errors_as p (Error.wrapped t e) = p (Error.wrapped t e) || errors_as p e
errors_as p (Error.api_error n m e) = p (Error.api_error n m e) || errors_as p e
errors_as p (Error.gateway g e) = p (Error.gateway g e) || errors_as p e
errors_as p e = p e

abbrev pub is_invoice_not_found : Error → Bool
is_invoice_not_found (Error.invoice_not_found _) = true
is_invoice_not_found _ = false

abbrev pub is_session_expired : Error → Bool
is_session_expired (Error.session_expired _) = true
is_session_expired _ = false

abbrev pub is_invalid_transition : Error → Bool
is_invalid_transition (Error.invalid_state_transition _ _ _) = true
is_invalid_transition _ = false

abbrev pub is_already_paid : Error → Bool
is_already_paid (Error.invoice_already_paid _) = true
is_already_paid _ = false

abbrev pub is_mismatch : Error → Bool
is_mismatch (Error.session_invoice_mismatch _ _) = true
is_mismatch _ = false

abbrev pub is_gateway : Error → Bool
is_gateway (Error.gateway _ _) = true
is_gateway _ = false

abbrev pub reply : ErrorCode → Message → ℕ → Reply
reply code message status = record { code = code; message = message; status = status }

unfoldable pub handle_payment_error : Error → Reply
handle_payment_error e =
    if errors_as is_invoice_not_found e
    then reply ErrorCode.invoice_not_found Message.msg_invoice_not_found 404
    else if errors_as is_session_expired e
    then reply ErrorCode.session_expired Message.msg_session_expired 410
    else if errors_as is_invalid_transition e
    then reply ErrorCode.invalid_state Message.msg_invalid_state 409
    else if errors_as is_already_paid e
    then reply ErrorCode.already_paid Message.msg_already_paid 409
    else if errors_as is_mismatch e
    then reply ErrorCode.session_mismatch Message.msg_invalid_state 403
    else if errors_as is_gateway e
    then reply ErrorCode.gateway_error Message.msg_gateway_error 502
    else reply ErrorCode.internal_error Message.msg_internal_error 500

-- `PaymentResultMessages`
abbrev pub payment_result_message : PaymentResultCode → Message
payment_result_message PaymentResultCode.payment_success = Message.msg_payment_successful
payment_result_message PaymentResultCode.payment_declined = Message.msg_payment_declined
payment_result_message PaymentResultCode.auth_failed = Message.msg_authentication_failed
payment_result_message PaymentResultCode.gateway_error = Message.msg_gateway_error
