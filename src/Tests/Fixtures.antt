-- ===== src/Tests/Fixtures.antt =====
-- A project, its gateway account and its invoice, and an environment in which all goes well.
use saftaja.Prelude.{
  ℕ, zero, suc, String, List, [], ◌∷◌, none, some, true, false, ◌==◌, if◌then◌else◌,
}
use saftaja.Domain.{
  ℤ, Uuid, Bytes, Decimal, InvoiceStatus, TransactionStatus, TransactionType, PaymentSessionStatus,
}
use saftaja.Env.{Env, DbOutcome}
use saftaja.Exec.{World}
use saftaja.Mpgs.Types.{Body}
use saftaja.Store.Rows.{Project, GatewayAccount, Invoice, PaymentSession, Transaction}
use saftaja.Web.Router.{App}
use saftaja.Payment.Types.{
  Service, InitiateSessionRequest, InitiateAuthRequest, ProcessAuthRequest, FinalizePaymentRequest,
}

abbrev pub zeros : ℕ → Bytes
zeros zero = []
zeros (suc n) = 0 ∷ zeros n

abbrev pub service : Service
service = record { encryption_key = zeros 32 }

abbrev pub app : App
app = record {
  payments = service;
  admins = record { encryption_key = zeros 32 };
  verify_domain_secret = "secret";
  admin_api_key = "admin";
}

abbrev pub project : Project
project = record {
  id = 1;
  organization_id = 9;
  name = "shop";
  environment = "test";
  custom_domain = some "pay.shop.bh";
  created_at = 0;
  updated_at = 0;
  deleted_at = none;
}

abbrev pub account : GatewayAccount
account = record {
  id = 2;
  project_id = 1;
  connector_type = "mpgs";
  account_name = "main";
  settings = "{}";
  payment_methods = "[]";
  is_active = true;
  created_at = 0;
  updated_at = 0;
  deleted_at = none;
  credentials = zeros 12;
}

abbrev pub invoice_with : InvoiceStatus → Invoice
invoice_with status = record {
  id = 3;
  project_id = 1;
  amount = Decimal.pos 10500;
  currency = "BHD";
  status = status;
  external_id = none;
  customer_email = none;
  customer_name = none;
  description = none;
  paid_at = none;
  created_at = 0;
  updated_at = 0;
  deleted_at = none;
}

abbrev pub session : PaymentSession
session = record {
  id = 4;
  invoice_id = 3;
  project_id = 1;
  gateway_account_id = 2;
  gateway_session_id = "SESSION1";
  status = PaymentSessionStatus.created;
  payment_method = "card";
  payer_ip = some "10.0.0.1";
  payer_user_agent = none;
  expires_at = some 1800;
  created_at = 0;
  updated_at = 0;
  deleted_at = none;
  idempotency_key = some "key";
}

abbrev transaction : Uuid → TransactionType → TransactionStatus → Transaction
transaction id type status = record {
  id = id;
  payment_session_id = 4;
  invoice_id = 3;
  project_id = 1;
  transaction_type = type;
  gateway_transaction_id = "tx";
  amount = Decimal.pos 10500;
  currency = "BHD";
  status = status;
  raw_request = Body.empty;
  raw_response = none;
  created_at = id;
  updated_at = id;
  deleted_at = none;
}

abbrev pub authentication : Transaction
authentication = transaction 5 TransactionType.authenticate_payer TransactionStatus.success

abbrev pub payment : Transaction
payment = transaction 6 TransactionType.pay TransactionStatus.success

abbrev tables : InvoiceStatus → List PaymentSession → List Transaction → World
tables status sessions transactions = record {
  state = record {
    db = record {
      organizations = [];
      projects = project ∷ [];
      gateway_accounts = account ∷ [];
      invoices = invoice_with status ∷ [];
      invoice_items = [];
      payment_sessions = sessions;
      transactions = transactions;
    };
    sent = [];
  };
  step = 10;
}

-- nothing has happened
abbrev pub fresh : World
fresh = tables InvoiceStatus.pending [] []

-- a session is open, and its payer has authenticated
abbrev pub authenticated : World
authenticated = tables InvoiceStatus.pending (session ∷ []) (authentication ∷ [])

-- the invoice is paid
abbrev pub settled : World
settled = tables InvoiceStatus.paid (session ∷ []) (payment ∷ authentication ∷ [])

-- a UUID and its text; only the invoice's is of interest
abbrev uuid_text : Uuid → String
uuid_text id = if id == 3 then "invoice" else "other"

abbrev status_for : Body → ℕ
status_for (Body.update_session _) = 200
status_for _ = 201

-- The gateway answers every call with this code, and everything else works.
abbrev gateway_says : String → Env
gateway_says code = record {
  db_outcome = λ _. DbOutcome.answered;
  now = λ n. n;
  new_uuid = λ n. n;
  uuid_string = uuid_text;
  decimal_string = λ _. "10.500";
  http_do = λ _ r. some (record { status_code = status_for r.body; body = "{}" });
  decode_create_session = λ _. some (record {
    result = "SUCCESS";
    session = some (record { id = "SESSION1"; update_status = "NO_UPDATE" });
  });
  decode_update_session = λ _. some tt;
  decode_initiate_authentication =
      λ _. some (record { result = "SUCCESS"; gateway_recommendation = "PROCEED" });
  decode_authenticate_payer = λ _. some (record { result = "PENDING"; redirect_html = "<html>" });
  decode_execute_pay = λ _. some (record { result = "SUCCESS"; gateway_code = code });
  decode_retrieve_transaction = λ _. none;
  decode_error = λ _. none;
  decode_credentials =
      λ _. some (record { merchant_id = "m"; base_url = "https://gw"; api_password = "p" });
  gcm_open = λ _ _ c. some c;
  gcm_seal = λ _ _ p. p;
  marshal_object = λ _. some (1 ∷ 2 ∷ 3 ∷ []);
  marshal_strings = λ _. some (91 ∷ 93 ∷ []);
  parse_decimal =
      λ _. some (record { negative = false; coefficient = 10_500_500; exponent = ℤ.negsuc 5 });
  varchar = λ _ s. some s;
  text = λ s. some s;
  jsonb = λ _. some "{}";
  nonce = λ _. some (zeros 12);
  base64_encode = λ _. "AAAA";
  base64_decode = λ _. some (zeros 32);
}

abbrev pub approving : Env
approving = gateway_says "APPROVED"

abbrev pub session_request : InitiateSessionRequest
session_request = record {
  project_id = 1;
  invoice_id = 3;
  gateway_account_id = 2;
  payment_method = "card";
  payer_ip = "10.0.0.1";
  payer_user_agent = "browser";
  idempotency_key = "key";
}

abbrev pub auth_request : InitiateAuthRequest
auth_request = record { project_id = 1; invoice_id = 3; payment_session_id = 4 }

abbrev pub process_request : ProcessAuthRequest
process_request = record {
  project_id = 1;
  invoice_id = 3;
  payment_session_id = 4;
  browser_details = record {
    three_d_secure_challenge_window_size = "FULL_SCREEN";
    accept_headers = "*/*";
    color_depth = ℤ.pos 24;
    java_enabled = false;
    language = "en";
    screen_height = ℤ.pos 900;
    screen_width = ℤ.pos 1600;
    time_zone = ℤ.negsuc 179;
  };
  payer_ip = "10.0.0.1";
  user_agent = "browser";
  accept_headers = "*/*";
}

abbrev pub finalize_request : FinalizePaymentRequest
finalize_request = record { project_id = 1; invoice_id = 3; payment_session_id = 4 }

abbrev pub declining : Env
declining = gateway_says "DECLINED"
