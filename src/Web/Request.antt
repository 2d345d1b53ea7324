-- ===== src/Web/Request.antt =====
-- What the handlers of khazina/internal/web read of a request and write to a response, with
-- khazina/internal/web/request.go. `uuid.Parse`, `encoding/json`, `net.SplitHostPort` and
-- `net.ParseIP` are parameters.
use saftaja.Prelude.{ℕ, String, Bool, List, Option, none, some, str_eq, if◌then◌else◌}
use saftaja.Domain.{Uuid}
use saftaja.Mpgs.Types.{BrowserDetails}
use saftaja.Payment.Types.{ItemInfo}
use saftaja.Admin.Types.{
  CreateOrganizationRequest, CreateProjectRequest, CreateGatewayAccountRequest,
  CreateInvoiceRequest, Created,
}
use saftaja.Web.Errors.{ErrorCode}

pub record Request : Type 0 where
  pub method : String
  pub host : String
  -- once `middleware.RealIP` has looked at the headers of a proxy
  pub remote_addr : String
  -- headers, empty where the request has none
  pub origin : String
  pub user_agent : String
  pub idempotency_key : String
  pub accept : String
  pub admin_key : String
  pub accept_language : String
  -- the cookie `lang`, if there is one
  pub lang_cookie : Option String
  -- `chi.URLParam`
  pub invoice_id : String
  pub payment_session_id : String
  -- `r.URL.Query().Get`
  pub secret : String
  pub domain : String
  pub body : String

pub record WebEnv : Type 0 where
  pub parse_uuid : String → Option Uuid
  -- `gateway_account_id` and `payment_method`
  pub decode_initiate : String → Option (Uuid × String)
  pub decode_browser_details : String → Option BrowserDetails
  -- the bodies of the admin API
  pub decode_organization : String → Option CreateOrganizationRequest
  pub decode_project : String → Option CreateProjectRequest
  pub decode_account : String → Option CreateGatewayAccountRequest
  pub decode_invoice : String → Option CreateInvoiceRequest
  -- `language.Parse`, and `language.MatchStrings` with the supported languages
  pub parse_tag : String → Option String
  pub match_strings : String → String
  pub split_host : String → Option String
  pub is_ip : String → Bool

pub record PageOption : Type 0 where
  pub id : String
  pub label : String
  pub type : String

pub record CheckoutPage : Type 0 where
  pub mpgs_base_url : String
  pub mpgs_api_version : String
  pub mpgs_merchant_id : String
  pub invoice_id : String
  pub amount : String
  pub currency : String
  pub description : String
  pub customer_email : String
  pub customer_name : String
  pub items : List ItemInfo
  pub options : List PageOption
  pub is_paid : Bool
  pub lang : String

pub data Response : Type 0 where
  -- a status, with a text at most
  plain : ℕ → Response
  -- `respondError`
  failure : ErrorCode → String → ℕ → Response
  session_opened : String → String → Response
  auth_initiated : String → String → Response
  auth_processed : String → String → Response
  checkout_page : CheckoutPage → Response
  -- the status, the message, the URL of the checkout, and the language
  completion_page : String → String → String → String → Response
  -- `respondError` and `respondJSON` of khazina/internal/admin/handlers.go
  admin_error : String → ℕ → Response
  created : Created → Response

pub data AdminRoute : Type 0 where
  organizations projects gateway_accounts invoices : AdminRoute

pub data Route : Type 0 where
  health checkout initiate initiate_auth process_auth finalize verify_domain : Route
  admin : AdminRoute → Route

module _ (web : WebEnv) where
  abbrev remote_ip : String → Option String → String
  remote_ip addr none = addr
  remote_ip addr (some host) = host

  abbrev long_loopback : String → String
  long_loopback ip = if str_eq ip "::1" then "0000:0000:0000:0000:0000:0000:0000:0001" else ip

  -- `ExtractPayerIP`: `none` is its error.
  unfoldable pub extract_payer_ip : Request → Option String
  extract_payer_ip r =
      let ip = long_loopback (remote_ip r.remote_addr (web.split_host r.remote_addr)) in
      if web.is_ip ip then some ip else none
