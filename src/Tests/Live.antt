-- ===== src/Tests/Live.antt =====
-- The theorems on a server without faults, on one that starts without invoices, on the texts and on
-- the registry of connectors.
use saftaja.Prelude.{suc, [], ◌∷◌, ◌≡◌, refl, All, arith, List, ◌↔◌}
use saftaja.Env.{HttpRequest}
use saftaja.Exec.{World, ok}
use saftaja.Connectors.Credentials.{parse_encrypted_credentials, parse_credentials, required}
use saftaja.Connectors.Crypto.{decrypt}
use saftaja.Store.Reads.{latest}
use saftaja.Payment.Finalize.{finalize_payment, success_result}
use saftaja.Ledger.Inv.{Inv, paid_flag, payments}
use saftaja.Ledger.Charges.{Exact}
use saftaja.Ledger.Guards.{Permitted}
use saftaja.Ledger.Taken.{Reachable, Payable}
use saftaja.Ledger.Completes.{finalize_payment-completes}
use saftaja.Web.Request.{Request, Route, AdminRoute}
use saftaja.Web.Server.{handle_all, handle_all-from_empty}
use saftaja.Domain.{InvoiceStatus, connector_type_mpgs}
use saftaja.Tests.Fixtures.{
  approving, service, app, authenticated, finalize_request, session, account, authentication,
  invoice_with, fresh,
}
use saftaja.Tests.Server.{web, request}
use saftaja.Localisation.Shown.{texts, Shows, for_request-Shows}
use saftaja.Connectors.Types.{Credentials}
use saftaja.Connectors.Registry.{get, register}
use saftaja.Connectors.Metadata.{metadata, registered}
use saftaja.Connectors.Demands.{Filled, registered-Demands}
use saftaja.Tests.Tables.{authenticated-Inv}

approving-Reachable : Reachable approving
approving-Reachable = record {
  answers = λ _. refl;
  approves = λ n r p e. (
    record { status_code = 201; body = "{}" },
    record { result = "SUCCESS"; gateway_code = "APPROVED" },
    rw e refl,
    refl,
    refl,
    refl,
  );
}

authenticated-Permitted :
    Permitted finalize_request (approving.now (suc authenticated.step)) authenticated.db
unfolding latest
authenticated-Permitted = record {
  session = session;
  session_found = refl;
  of_invoice = refl;
  live = refl;
  invoice = invoice_with InvoiceStatus.pending;
  invoice_found = refl;
  unpaid = refl;
  payer = (authentication, refl);
}

authenticated-Payable :
    Payable approving service session (invoice_with InvoiceStatus.pending) authenticated.db 10
unfolding parse_encrypted_credentials parse_credentials decrypt
authenticated-Payable = record {
  account = account;
  account_found = refl;
  creds = record { merchant_id = "m"; base_url = "https://gw"; api_password = "p" };
  parsed = refl;
  project = refl;
  fresh = λ n late. ground (arith, late);
}

finalize_payment-completes_example :
    ((finalize_payment approving service finalize_request authenticated).0
      ≡ ok (success_result approving finalize_request))
    × (paid_flag 3 (finalize_payment approving service finalize_request authenticated).1.db.invoices
        ≡ 1)
    × (payments 3
          (finalize_payment approving service finalize_request authenticated).1.db.transactions
        ≡ 1)
unfolding authenticated-Permitted
finalize_payment-completes_example =
    finalize_payment-completes approving service finalize_request authenticated approving-Reachable
      authenticated-Permitted authenticated-Payable authenticated-Inv

-- a project and its account
abbrev bare : World
bare = record fresh { state = record fresh.state { db = record fresh.db { invoices = [] } } }

-- An invoice is created, and a payment of it is tried at once.
abbrev visits : List (Route × Request)
visits = (Route.admin AdminRoute.invoices, request) ∷ (Route.finalize, request) ∷ []

handle_all-from_empty_example :
    Inv (handle_all web approving app visits bare).db
    × All
        (λ (r : HttpRequest).
          Exact approving (handle_all web approving app visits bare).db.invoices r.body)
        (handle_all web approving app visits bare).sent
handle_all-from_empty_example =
    handle_all-from_empty web approving app visits bare refl refl refl refl

for_request-Shows_example : All (λ ls. Shows web request ls) texts
for_request-Shows_example = for_request-Shows web request

found_mpgs : get "mpgs" registered ≡ ok metadata
unfolding get register
found_mpgs = refl

abbrev no_password : Credentials
no_password = record { merchant_id = "m"; base_url = "https://gw"; api_password = "" }

registered-Demands_example :
    ("mpgs" ≡ connector_type_mpgs)
    × ((required no_password ≡ ok no_password)
        ↔ All (Filled no_password) metadata.credential_fields)
registered-Demands_example = registered-Demands "mpgs" metadata no_password found_mpgs
