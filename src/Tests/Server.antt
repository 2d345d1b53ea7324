-- ===== src/Tests/Server.antt =====
-- The theorems on HTTP requests.
use saftaja.Prelude.{List, ◌≤◌, [], ◌∷◌, none, some, true, ◌≡◌, refl, str_eq, if◌then◌else◌}
use saftaja.Ledger.Inv.{paid_flag, payments}
use saftaja.Web.Request.{Request, Response, Route, AdminRoute, WebEnv}
use saftaja.Exec.{pure, ok, ◌>>=◌, attempt, read}
use saftaja.Store.Reads.{get_project_by_custom_domain}
use saftaja.Web.Cors.{Registered, dynamic_cors-Registered}
use saftaja.Web.Tenant.{strip_port, origin_host, dynamic_cors, origin_allowed, is_domain_valid}
use saftaja.Web.Router.{handle}
use saftaja.Web.Outcome.{OneCall, hosted_project}
use saftaja.Web.Hosting.{handle_all-hosted}
use saftaja.Web.Traffic.{handle-OneCall}
use saftaja.Web.Server.{handle_all, handle_all-payments}
use saftaja.Tests.Fixtures.{approving, app, project, authenticated, fresh}
use saftaja.Tests.Tables.{authenticated-Inv}

abbrev pub web : WebEnv
web = record {
  parse_uuid = λ t. if str_eq t "invoice" then some 3 else some 4;
  decode_initiate = λ _. some (2, "card");
  decode_browser_details = λ _. none;
  decode_organization = λ _. none;
  decode_project = λ _. none;
  decode_account = λ _. none;
  decode_invoice = λ _. some (record {
    project_id = 1;
    amount = "10.5005";
    currency = "BHD";
    customer_email = "";
    customer_name = "";
    description = "";
  });
  parse_tag = λ _. none;
  match_strings = λ _. "ar-u-rg-bhzzzz";
  split_host = λ _. none;
  is_ip = λ _. true;
}

abbrev pub request : Request
request = record {
  method = "POST";
  host = "pay.shop.bh:443";
  remote_addr = "10.0.0.1";
  origin = "https://pay.shop.bh";
  user_agent = "browser";
  idempotency_key = "key";
  accept = "*/*";
  admin_key = "admin";
  accept_language = "ar-BH";
  lang_cookie = none;
  invoice_id = "invoice";
  payment_session_id = "session";
  secret = "";
  domain = "";
  body = "{}";
}

port_stripped : strip_port request.host ≡ "pay.shop.bh"
port_stripped = refl

handle-OneCall_example :
    OneCall approving app
      (strip_port request.host)
      request.admin_key
      authenticated.state
      (handle web approving app Route.finalize request authenticated).1.state
handle-OneCall_example = handle-OneCall web approving app Route.finalize request authenticated

handle_all-payments_example :
    (payments 3
        (handle_all web approving app
          ((Route.finalize, request) ∷ [])
          authenticated).db.transactions
      ≡ paid_flag 3
          (handle_all web approving app ((Route.finalize, request) ∷ []) authenticated).db.invoices)
    × (payments 3
          (handle_all web approving app
            ((Route.finalize, request) ∷ [])
            authenticated).db.transactions
        ≤ 1)
handle_all-payments_example =
    handle_all-payments web approving app ((Route.finalize, request) ∷ []) authenticated 3
      authenticated-Inv

-- a body that asks for a second project on the domain of the first
abbrev claiming : WebEnv
claiming = record web {
  decode_project = λ _. some (record {
    organization_id = 9;
    name = "other";
    environment = "live";
    custom_domain = "pay.shop.bh";
  });
}

abbrev claims : List (Route × Request)
claims = (Route.admin AdminRoute.projects, request) ∷ (Route.finalize, request) ∷ []

handle_all-hosted_example :
    hosted_project "pay.shop.bh" (handle_all claiming approving app claims authenticated).db
    ≡ some project
handle_all-hosted_example =
    handle_all-hosted claiming approving app claims authenticated "pay.shop.bh" project refl

allowed_origin :
    (dynamic_cors approving request (pure (Response.plain 200)) fresh).0
    ≡ ok (some "https://pay.shop.bh", Response.plain 200)
unfolding dynamic_cors origin_allowed is_domain_valid get_project_by_custom_domain ◌>>=◌ attempt
    read pure
allowed_origin = refl

dynamic_cors-Registered_example :
    ("https://pay.shop.bh" ≡ request.origin) × Registered (origin_host request.origin) fresh.db
dynamic_cors-Registered_example =
    dynamic_cors-Registered approving request (pure (Response.plain 200)) fresh
      "https://pay.shop.bh" (Response.plain 200) allowed_origin
