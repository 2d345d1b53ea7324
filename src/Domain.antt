-- ===== src/Domain.antt =====
-- khazina/internal/domain/types.go: the words of the payment domain. A Go type over `string` whose
-- values the program alone writes is an enumeration; one that takes arbitrary text from a request
-- (connector type, payment method, environment) stays a text.
use saftaja.Prelude.{ℕ, String, Bool, true, false, Option, none, some, List, if◌then◌else◌, str_eq}

-- A UUID is only compared: the number that its 128 bits spell. `uuid.Nil` is 0.
abbrev pub Uuid : Type 0
Uuid = ℕ

-- Seconds since the epoch.
abbrev pub Time : Type 0
Time = ℕ

abbrev pub Bytes : Type 0
Bytes = List ℕ

-- A decoded JSON object, `map[string]interface{}`, by a text that spells it.
abbrev pub JsonObject : Type 0
JsonObject = String

pub data ℤ : Type 0 where
  pos : ℕ → ℤ
  negsuc : ℕ → ℤ

-- A value of a DECIMAL(12, 3) column, in thousandths.
pub data Decimal : Type 0 where
  pos : ℕ → Decimal
  negsuc : ℕ → Decimal

-- `pgtype.Text`: `none` is NULL (`Valid` is false).
abbrev pub Text : Type 0
Text = Option String

-- The field `String` of a `pgtype.Text`, empty for NULL.
abbrev pub text_string : Text → String
text_string none = ""
text_string (some s) = s

-- `pgtype.Text{String: s, Valid: s != ""}`
abbrev pub text_of : String → Text
text_of s = if str_eq s "" then none else some s

abbrev pub connector_type_mpgs : String
connector_type_mpgs = "mpgs"

abbrev pub payment_method_card : String
payment_method_card = "card"

abbrev pub payment_method_apple_pay : String
payment_method_apple_pay = "apple_pay"

pub data InvoiceStatus : Type 0 where
  pending processing paid failed : InvoiceStatus

pub data PaymentSessionStatus : Type 0 where
  created authenticating authenticated paying completed failed : PaymentSessionStatus

pub data TransactionType : Type 0 where
  initiate_authentication authenticate_payer pay : TransactionType

pub data TransactionStatus : Type 0 where
  pending success failed : TransactionStatus

-- `invoice.Status == domain.InvoiceStatusPaid`
abbrev pub is_paid : InvoiceStatus → Bool
is_paid InvoiceStatus.paid = true
is_paid _ = false

-- `tx.Status == domain.TransactionStatusSuccess`
abbrev pub is_success : TransactionStatus → Bool
is_success TransactionStatus.success = true
is_success _ = false

abbrev pub is_pay : TransactionType → Bool
is_pay TransactionType.pay = true
is_pay _ = false

abbrev pub is_authenticate_payer : TransactionType → Bool
is_authenticate_payer TransactionType.authenticate_payer = true
is_authenticate_payer _ = false

abbrev pub invoice_status_string : InvoiceStatus → String
invoice_status_string InvoiceStatus.pending = "pending"
invoice_status_string InvoiceStatus.processing = "processing"
invoice_status_string InvoiceStatus.paid = "paid"
invoice_status_string InvoiceStatus.failed = "failed"

abbrev pub session_status_string : PaymentSessionStatus → String
session_status_string PaymentSessionStatus.created = "created"
session_status_string PaymentSessionStatus.authenticating = "authenticating"
session_status_string PaymentSessionStatus.authenticated = "authenticated"
session_status_string PaymentSessionStatus.paying = "paying"
session_status_string PaymentSessionStatus.completed = "completed"
session_status_string PaymentSessionStatus.failed = "failed"
