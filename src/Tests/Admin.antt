-- ===== src/Tests/Admin.antt =====
-- The theorems on encryption, the admin API and the start of the server.
use mathlib.Core.Path.{subst}
use saftaja.Prelude.{String, get_or, ℕ, [], ◌∷◌, none, some, ◌≡◌, refl, length}
use saftaja.Domain.{Bytes, ℤ}
use saftaja.Exec.{World, ok, tick, read_nonce, write, on_error, lift, pure, ◌>>=◌}
use saftaja.Config.{Config, validate, get_encryption_key}
use saftaja.Admin.Types.{Service, CreateGatewayAccountRequest, CreateInvoiceRequest}
use saftaja.Admin.Service.{create_gateway_account, create_invoice, credentials_json, invoice_result}
use saftaja.Admin.Accounts.{create_gateway_account-RoundTrip}
use saftaja.Admin.Amounts.{create_invoice-Near, IsBill}
use saftaja.Admin.Access.{handle-unauthorized}
use saftaja.Connectors.Crypto.{encrypt, decrypt, encrypt_to_base64, decrypt_from_base64}
use saftaja.Connectors.Crypto.RoundTrip.{encrypt-RoundTrip}
use saftaja.Store.Rows
use saftaja.Store.Admin
use saftaja.Store.Numeric.{Number, numeric_12_3, thousandths, rounded}
use saftaja.Admin.Types
use saftaja.Connectors.Credentials.{parse_credentials, parse_encrypted_credentials}
use saftaja.Web.Tenant.{WithOrigin}
use saftaja.Web.Request.{AdminRoute, Route, Request, Response}
use saftaja.Web.Router.{build, handle}
use saftaja.Web.Build.{build-Complete, Complete}
use saftaja.Tests.Fixtures.{approving, app, zeros, fresh}
use saftaja.Tests.Server.{web, request}

plain : Bytes
plain = zeros 20

encrypt-RoundTrip_example :
    ((c : Bytes) × (encrypt approving (zeros 20) (zeros 32) fresh ≡ (ok c, tick fresh))
      × (decrypt approving c (zeros 32) ≡ ok (zeros 20)))
    × ((t : String) × (encrypt_to_base64 approving (zeros 20) (zeros 32) fresh ≡ (ok t, tick fresh))
        × (decrypt_from_base64 approving t (zeros 32) ≡ ok (zeros 20)))
encrypt-RoundTrip_example =
    encrypt-RoundTrip approving (zeros 20) (zeros 32) (zeros 12) fresh refl refl refl refl refl

nonces_12 : (n : ℕ) (x : Bytes) → approving.nonce n ≡ some x → length x ≡ 12
nonces_12 n x e = subst (λ o. length (get_or o []) ≡ 12) e refl

abbrev account_request : CreateGatewayAccountRequest
account_request = record {
  project_id = 1;
  connector_type = "mpgs";
  account_name = "second";
  credentials = some "{}";
  settings = none;
  payment_methods = [];
}

abbrev invoice_request : CreateInvoiceRequest
invoice_request = record {
  project_id = 1;
  amount = "10.5005";
  currency = "BHD";
  customer_email = "";
  customer_name = "";
  description = "";
}

abbrev config : Config
config = record {
  db_host = "db";
  db_port = 5432;
  db_database = "saftaja";
  db_user = "saftaja";
  db_password = "p";
  port = ℤ.pos 8080;
  encryption_key = "AAAA";
  verify_domain_secret = "secret";
  admin_api_key = "admin";
}

started : build approving config ≡ ok app
unfolding build validate get_encryption_key
started = refl

build-Complete_example : Complete approving config app
build-Complete_example = build-Complete approving config app started

abbrev after_account : World
after_account = (create_gateway_account approving app.admins account_request fresh).1

abbrev new_account : Types.GatewayAccount
new_account = record { id = 11; project_id = 1; connector_type = "mpgs"; account_name = "second" }

account_created :
    create_gateway_account approving app.admins account_request fresh
    ≡ (ok new_account, after_account)
unfolding create_gateway_account Admin.create_gateway_account Admin.insert_account encrypt
    read_nonce write on_error lift pure ◌>>=◌
account_created = refl

create_gateway_account-RoundTrip_example :
    (json : Bytes) × (a : Rows.GatewayAccount) × (credentials_json approving
        account_request.credentials
      ≡ some json)
    × (after_account.db ≡ record fresh.db { gateway_accounts = a ∷ fresh.db.gateway_accounts })
    × (a.project_id ≡ 1)
    × (a.id ≡ 11)
    × (parse_encrypted_credentials approving a.credentials (zeros 32)
        ≡ parse_credentials approving json)
create_gateway_account-RoundTrip_example =
    create_gateway_account-RoundTrip approving app.admins account_request fresh after_account
      new_account nonces_12 (λ n p. refl) account_created

abbrev after_invoice : World
after_invoice = (create_invoice approving app.admins invoice_request fresh).1

abbrev new_invoice : Types.Invoice
new_invoice = record {
  id = 10;
  project_id = 1;
  amount = "10.500";
  currency = "BHD";
  status = "pending";
  checkout_url = "/checkout/other";
}

invoice_created :
    create_invoice approving app.admins invoice_request fresh ≡ (ok new_invoice, after_invoice)
unfolding create_invoice Admin.create_invoice Admin.insert_invoice numeric_12_3 thousandths rounded
    write on_error lift pure ◌>>=◌
invoice_created = refl

create_invoice-Near_example :
    (n : Number) × (v : Rows.Invoice) × IsBill approving invoice_request n v
    × (after_invoice.db ≡ record fresh.db { invoices = v ∷ fresh.db.invoices })
    × (new_invoice ≡ invoice_result approving v)
create_invoice-Near_example =
    create_invoice-Near approving app.admins invoice_request fresh after_invoice new_invoice
      invoice_created

abbrev intruder : Request
intruder = record request { admin_key = "guess" }

handle-unauthorized_example :
    (reply : WithOrigin) × ((handle web approving app
        (Route.admin AdminRoute.invoices)
        intruder
        fresh).0
      ≡ ok reply)
    × ((handle web approving app (Route.admin AdminRoute.invoices) intruder fresh).1.state
        ≡ fresh.state)
    × (message : String) × (reply.1 ≡ Response.admin_error message 401)
handle-unauthorized_example =
    handle-unauthorized web approving app AdminRoute.invoices intruder fresh refl refl
