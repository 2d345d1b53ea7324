-- ===== src/Tests/Units.antt =====
-- The theorems on the status graphs and on the replies to errors.
use saftaja.Prelude.{◌≤◌, false, true, length, str_eq, none, ◌≡◌, ◌≢◌, ◌↔◌, ◌⊎◌, refl}
use saftaja.Domain.{PaymentSessionStatus, InvoiceStatus}
use saftaja.Errors.{Error}
use saftaja.Payment.State.{
  validate_session_transition, validate_invoice_transition, valid_session_transitions,
}
use saftaja.Payment.State.Graph.{
  SessionEdge, InvoiceEdge, Chain, Chain-bound, validate_session_transition-SessionEdge,
  validate_invoice_transition-InvoiceEdge,
}
use saftaja.Payment.Finalize.{finalize_payment}
use saftaja.Web.Errors.{ErrorCode, Message, reply, handle_payment_error}
use saftaja.Web.Replies.{
  handle_payment_error-gateway, handle_payment_error-codes, status_of, is_early,
  finalize_payment-no_session, Refused,
}
use saftaja.Web.Replies.First.{First, handle_payment_error-First}
use saftaja.Connectors.Types.{Credentials}
use saftaja.Connectors.Crypto.{decrypt}
use saftaja.Connectors.Credentials.{parse_encrypted_credentials, parse_credentials}
use saftaja.Connectors.Complete.{parse_encrypted_credentials_complete}
use saftaja.Exec.{ok}
use saftaja.Tests.Fixtures.{account, approving, service, fresh, finalize_request}

validate_session_transition-SessionEdge_example :
    (validate_session_transition PaymentSessionStatus.paying PaymentSessionStatus.completed ≡ none)
    ↔ SessionEdge PaymentSessionStatus.paying PaymentSessionStatus.completed
validate_session_transition-SessionEdge_example =
    validate_session_transition-SessionEdge PaymentSessionStatus.paying
      PaymentSessionStatus.completed

validate_invoice_transition-InvoiceEdge_example :
    (validate_invoice_transition InvoiceStatus.pending InvoiceStatus.paid ≡ none)
    ↔ InvoiceEdge InvoiceStatus.pending InvoiceStatus.paid
validate_invoice_transition-InvoiceEdge_example =
    validate_invoice_transition-InvoiceEdge InvoiceStatus.pending InvoiceStatus.paid

abbrev refused_by_gateway : Error
refused_by_gateway = Error.gateway "mpgs" (Error.wrapped "failed" (Error.plain "http"))

handle_payment_error-gateway_example :
    ((is_early (handle_payment_error (Error.plain "http")).code ≡ true)
      × (handle_payment_error (Error.gateway "mpgs" (Error.plain "http"))
          ≡ handle_payment_error (Error.plain "http")))
    ⊎ ((is_early (handle_payment_error (Error.plain "http")).code ≡ false)
        × (handle_payment_error (Error.gateway "mpgs" (Error.plain "http"))
            ≡ reply ErrorCode.gateway_error Message.msg_gateway_error 502))
handle_payment_error-gateway_example = handle_payment_error-gateway "mpgs" (Error.plain "http")

handle_payment_error-First_example :
    First refused_by_gateway (handle_payment_error refused_by_gateway)
handle_payment_error-First_example = handle_payment_error-First refused_by_gateway

handle_payment_error-codes_example :
    ((handle_payment_error (Error.plain "payment session not found")).status
      ≡ status_of (handle_payment_error (Error.plain "payment session not found")).code)
    × ((handle_payment_error (Error.plain "payment session not found")).code
        ≢ ErrorCode.session_not_found)
handle_payment_error-codes_example =
    handle_payment_error-codes (Error.plain "payment session not found")

finalize_payment-no_session_example :
    Refused (finalize_payment approving service finalize_request fresh) fresh
finalize_payment-no_session_example =
    finalize_payment-no_session approving service finalize_request fresh refl

started :
    validate_session_transition PaymentSessionStatus.created PaymentSessionStatus.authenticating
    ≡ none
unfolding validate_session_transition valid_session_transitions
started = refl

Chain-bound_example : 1 ≤ 4
Chain-bound_example =
    Chain-bound 1 PaymentSessionStatus.created PaymentSessionStatus.authenticating
      (Chain.then (Chain.here PaymentSessionStatus.created) started)

abbrev credentials : Credentials
credentials = record { merchant_id = "m"; base_url = "https://gw"; api_password = "p" }

accepted :
    parse_encrypted_credentials approving account.credentials service.encryption_key
    ≡ ok credentials
unfolding parse_encrypted_credentials parse_credentials decrypt
accepted = refl

parse_encrypted_credentials_complete_example :
    (length service.encryption_key ≡ 32)
    × (12 ≤ length account.credentials)
    × (str_eq credentials.merchant_id "" ≡ false)
    × (str_eq credentials.base_url "" ≡ false)
    × (str_eq credentials.api_password "" ≡ false)
parse_encrypted_credentials_complete_example =
    parse_encrypted_credentials_complete approving account.credentials service.encryption_key
      credentials accepted
