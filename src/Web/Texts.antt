-- ===== src/Web/Texts.antt =====
-- khazina/internal/web/errors.go: the texts of the replies, in the language of the request.
use saftaja.Localisation.Language.{LocalizedString, get, detect_language}
use saftaja.Localisation.Messages.{
  msg_invalid_request, msg_invoice_not_found, msg_session_expired, msg_session_not_found,
  msg_invalid_state, msg_already_paid, msg_gateway_error, msg_internal_error,
  msg_payment_successful, msg_payment_declined, msg_authentication_failed,
}
use saftaja.Web.Errors.{Message, Reply}
use saftaja.Web.Request.{Request, Response, WebEnv}

abbrev pub message_text : Message → LocalizedString
message_text Message.msg_invalid_request = msg_invalid_request
message_text Message.msg_invoice_not_found = msg_invoice_not_found
message_text Message.msg_session_expired = msg_session_expired
message_text Message.msg_session_not_found = msg_session_not_found
message_text Message.msg_invalid_state = msg_invalid_state
message_text Message.msg_already_paid = msg_already_paid
message_text Message.msg_gateway_error = msg_gateway_error
message_text Message.msg_internal_error = msg_internal_error
message_text Message.msg_payment_successful = msg_payment_successful
message_text Message.msg_payment_declined = msg_payment_declined
message_text Message.msg_authentication_failed = msg_authentication_failed

abbrev pub respond_error : WebEnv → Request → Reply → Response
respond_error web r reply =
    Response.failure reply.code (get (message_text reply.message) (detect_language web r))
      reply.status
