-- ===== src/Payment/Types.antt =====
-- khazina/internal/payment/types.go, and the fields of `service` in service.go that the model keeps.
use saftaja.Prelude.{String, Bool, Option, List, if◌then◌else◌}
use saftaja.Domain.{Uuid, Bytes, ℤ}
use saftaja.Errors.{Error, is_no_rows}
use saftaja.Mpgs.Types.{BrowserDetails}

-- The pool and the queries of `service` are the database of the world.
pub record Service : Type 0 where
  pub encryption_key : Bytes

pub record InvoiceInfo : Type 0 where
  pub id : Uuid
  pub project_id : Uuid
  pub amount : String
  pub currency : String
  pub description : String
  pub customer_email : String
  pub customer_name : String

pub record ItemInfo : Type 0 where
  pub name : String
  pub quantity : ℤ
  pub unit_price : String
  pub amount : String

pub record PaymentOption : Type 0 where
  pub gateway_account_id : Uuid
  pub method : String
  pub label : String

pub record MpgsConfig : Type 0 where
  pub base_url : String
  pub merchant_id : String
  pub api_version : String

pub record CheckoutData : Type 0 where
  pub invoice : InvoiceInfo
  pub items : List ItemInfo
  pub payment_options : List PaymentOption
  pub mpgs_config : Option MpgsConfig
  pub is_paid : Bool

pub record InitiateSessionRequest : Type 0 where
  pub project_id : Uuid
  pub invoice_id : Uuid
  pub gateway_account_id : Uuid
  pub payment_method : String
  pub payer_ip : String
  pub payer_user_agent : String
  pub idempotency_key : String

pub record InitiateSessionResult : Type 0 where
  pub payment_session_id : Uuid
  pub gateway_session_id : String

pub record InitiateAuthRequest : Type 0 where
  pub project_id : Uuid
  pub invoice_id : Uuid
  pub payment_session_id : Uuid

pub record InitiateAuthResult : Type 0 where
  pub transaction_id : String
  pub next_step : String

pub record ProcessAuthRequest : Type 0 where
  pub project_id : Uuid
  pub invoice_id : Uuid
  pub payment_session_id : Uuid
  pub browser_details : BrowserDetails
  pub payer_ip : String
  pub user_agent : String
  pub accept_headers : String

pub record ProcessAuthResult : Type 0 where
  pub next_step : String
  pub redirect_html : String

pub record FinalizePaymentRequest : Type 0 where
  pub project_id : Uuid
  pub invoice_id : Uuid
  pub payment_session_id : Uuid

pub data PaymentResultCode : Type 0 where
  payment_success payment_declined auth_failed gateway_error : PaymentResultCode

pub record FinalizePaymentResult : Type 0 where
  pub success : Bool
  pub result_code : PaymentResultCode
  pub checkout_url : String

-- `if errors.Is(err, sql.ErrNoRows) { return nil, missing }; return nil, err`
abbrev pub missing_as : Error → Error → Error
missing_as missing e = if is_no_rows e then missing else e

abbrev pub session_not_found : Error → Error
session_not_found = missing_as (Error.plain "payment session not found")

abbrev pub invalid_credentials : Error → Error
invalid_credentials = Error.wrapped "invalid gateway credentials"

abbrev pub mpgs_gateway : Error → Error
mpgs_gateway = Error.gateway "mpgs"

abbrev pub failed_to_update : Error → Error
failed_to_update = Error.wrapped "failed to update transaction"
