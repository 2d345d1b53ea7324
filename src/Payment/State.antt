-- ===== src/Payment/State.antt =====
-- khazina/internal/payment/state.go: the status graphs of payment sessions and invoices. A map with
-- a missing key is `none`, and so is a Go error that is nil.
pub mod Graph
use saftaja.Prelude.{
  Bool, true, false, List, [], ◌∷◌, Option, none, some, String, str_eq, exists?, ◌||◌,
  if◌then◌else◌,
}
use saftaja.Domain.{
  InvoiceStatus, PaymentSessionStatus, session_status_string, invoice_status_string,
}
use saftaja.Errors.{EntityType, Error}

abbrev pub session_status_eq : PaymentSessionStatus → PaymentSessionStatus → Bool
session_status_eq a b = str_eq (session_status_string a) (session_status_string b)

abbrev pub invoice_status_eq : InvoiceStatus → InvoiceStatus → Bool
invoice_status_eq a b = str_eq (invoice_status_string a) (invoice_status_string b)

-- `validSessionTransitions`
unfoldable pub valid_session_transitions : PaymentSessionStatus → Option (List PaymentSessionStatus)
valid_session_transitions PaymentSessionStatus.created =
    some (PaymentSessionStatus.authenticating ∷ [])
valid_session_transitions PaymentSessionStatus.authenticating =
    some (PaymentSessionStatus.authenticated ∷ PaymentSessionStatus.failed ∷ [])
valid_session_transitions PaymentSessionStatus.authenticated =
    some (PaymentSessionStatus.paying ∷ [])
valid_session_transitions PaymentSessionStatus.paying =
    some (PaymentSessionStatus.completed ∷ PaymentSessionStatus.failed ∷ [])
valid_session_transitions _ = none

unfoldable pub validate_session_transition :
    PaymentSessionStatus → PaymentSessionStatus → Option Error
unfolding valid_session_transitions
validate_session_transition from to =
    let refused =
      Error.invalid_state_transition EntityType.session (session_status_string from)
        (session_status_string to) in
    elim (valid_session_transitions from) [
      | none ↦ some refused
      | some allowed ↦ if exists? (λ s. session_status_eq s to) allowed then none else some refused
    ]

-- `validInvoiceTransitions`
unfoldable pub valid_invoice_transitions : InvoiceStatus → Option (List InvoiceStatus)
valid_invoice_transitions InvoiceStatus.pending =
    some (InvoiceStatus.processing ∷ InvoiceStatus.failed ∷ [])
valid_invoice_transitions InvoiceStatus.processing =
    some (InvoiceStatus.paid ∷ InvoiceStatus.failed ∷ [])
valid_invoice_transitions _ = none

unfoldable pub validate_invoice_transition : InvoiceStatus → InvoiceStatus → Option Error
unfolding valid_invoice_transitions
validate_invoice_transition from to =
    let refused =
      Error.invalid_state_transition EntityType.invoice (invoice_status_string from)
        (invoice_status_string to) in
    elim (valid_invoice_transitions from) [
      | none ↦ some refused
      | some allowed ↦ if exists? (λ s. invoice_status_eq s to) allowed then none else some refused
    ]

unfoldable pub is_terminal_session_status : PaymentSessionStatus → Bool
is_terminal_session_status s =
    session_status_eq s PaymentSessionStatus.completed
    || session_status_eq s PaymentSessionStatus.failed

unfoldable pub is_terminal_invoice_status : InvoiceStatus → Bool
is_terminal_invoice_status s =
    invoice_status_eq s InvoiceStatus.paid || invoice_status_eq s InvoiceStatus.failed
