-- ===== src/Mpgs/Types.antt =====
-- khazina/internal/clients/mpgs/types.go and constants.go. A request has all the fields of its
-- struct; of a response the fields that the program reads. JSON is the value that it encodes.
use saftaja.Prelude.{ℕ, String, Bool, Option}
use saftaja.Domain.{ℤ}

abbrev pub api_version : String
api_version = "100"

abbrev pub result_success : String
result_success = "SUCCESS"

abbrev pub result_pending : String
result_pending = "PENDING"

abbrev pub operation_initiate_authentication : String
operation_initiate_authentication = "INITIATE_AUTHENTICATION"

abbrev pub operation_authenticate_payer : String
operation_authenticate_payer = "AUTHENTICATE_PAYER"

abbrev pub operation_pay : String
operation_pay = "PAY"

abbrev pub channel_payer_browser : String
channel_payer_browser = "PAYER_BROWSER"

abbrev pub gateway_recommendation_proceed : String
gateway_recommendation_proceed = "PROCEED"

abbrev pub code_approved : String
code_approved = "APPROVED"

pub record BrowserDetails : Type 0 where
  pub three_d_secure_challenge_window_size : String
  pub accept_headers : String
  pub color_depth : ℤ
  pub java_enabled : Bool
  pub language : String
  pub screen_height : ℤ
  pub screen_width : ℤ
  pub time_zone : ℤ

pub record CreateSessionRequest : Type 0 where
  pub correlation_id : String
  pub authentication_limit : Option ℕ

pub record UpdateSessionRequest : Type 0 where
  pub order_amount : String
  pub order_currency : String
  pub order_id : String

pub record InitiateAuthenticationRequest : Type 0 where
  pub api_operation : String
  pub channel : String
  pub order_currency : String
  pub session_id : String

pub record AuthenticatePayerRequest : Type 0 where
  pub api_operation : String
  pub redirect_response_url : String
  pub browser : String
  pub browser_details : Option BrowserDetails
  pub ip_address : String
  pub order_amount : String
  pub order_currency : String
  pub session_id : String

pub record ExecutePayRequest : Type 0 where
  pub api_operation : String
  pub authentication_transaction_id : String
  pub order_amount : String
  pub order_currency : String
  pub order_reference : String
  pub session_id : String
  pub transaction_reference : Option String

-- What a request carries, before `encoding/json` writes it.
pub data Body : Type 0 where
  empty : Body
  create_session : CreateSessionRequest → Body
  update_session : UpdateSessionRequest → Body
  initiate_authentication : InitiateAuthenticationRequest → Body
  authenticate_payer : AuthenticatePayerRequest → Body
  execute_pay : ExecutePayRequest → Body

-- `Session` is a pointer: `none` where the response has no such object.
pub record SessionDetails : Type 0 where
  pub id : String
  pub update_status : String

pub record CreateSessionResponse : Type 0 where
  pub result : String
  pub session : Option SessionDetails

pub record InitiateAuthenticationResponse : Type 0 where
  pub result : String
  pub gateway_recommendation : String

pub record AuthenticatePayerResponse : Type 0 where
  pub result : String
  pub redirect_html : String

pub record ExecutePayResponse : Type 0 where
  pub result : String
  pub gateway_code : String

pub record RetrieveTransactionResponse : Type 0 where
  pub result : String
  pub order_status : String

pub record ErrorDetail : Type 0 where
  pub cause : String
  pub explanation : String
  pub field : String

pub record ErrorResponse : Type 0 where
  pub error_detail : Option ErrorDetail
  pub result : String

-- `Response[T]`
pub record Response (T : Type 0) : Type 0 where
  pub value : T
  pub raw_body : String
