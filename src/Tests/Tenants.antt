-- ===== src/Tests/Tenants.antt =====
-- Two projects in one set of tables, and the theorems on the rows of one under requests to the other.
use mathlib.Core.Path.{subst}
use saftaja.Prelude.{[], ◌∷◌, some, ◌==◌, ◌≡◌, refl, arith, false}
use saftaja.Domain.{InvoiceStatus}
use saftaja.Exec.{World}
use saftaja.Store.Rows.{Project, Invoice}
use saftaja.Ledger.Step.{History}
use saftaja.Ledger.Inv.{Inv}
use saftaja.Ledger.Traffic.{Call, serve, serve-History}
use saftaja.Ledger.Isolated.{Spared}
use saftaja.Web.Request.{Request, Route}
use saftaja.Web.Server.{handle_all}
use saftaja.Web.Isolation.{handle_all-Spared}
use saftaja.Tests.Fixtures.{
  approving, service, app, project, invoice_with, session, authenticated, finalize_request,
}
use saftaja.Tests.Server.{web, request}

abbrev neighbour : Project
neighbour = record project { id = 11; organization_id = 12; custom_domain = some "pay.bakery.bh" }

abbrev neighbours_invoice : Invoice
neighbours_invoice = record (invoice_with InvoiceStatus.pending) { id = 13; project_id = 11 }

abbrev shared : World
shared = record authenticated {
  state = record authenticated.state {
    db = record authenticated.db {
      projects = neighbour ∷ authenticated.db.projects;
      invoices = neighbours_invoice ∷ authenticated.db.invoices;
    };
  };
}

shared-Inv : Inv shared.db
shared-Inv = record {
  transactions_distinct = (tt, tt);
  invoices_distinct = ((refl, tt), (tt, tt));
  sessions_distinct = (tt, tt);
  books = λ i. ground arith;
  billed = (
    (invoice_with InvoiceStatus.pending, record { found = refl; amount = refl; currency = refl }),
    tt,
  );
  belongs = ((session, record { found = refl; invoice = refl }), tt);
  created_only = (refl, tt);
}

abbrev anonymous : Request
anonymous = record request { admin_key = "" }

serve-History_example :
    History approving
      (some 1)
      shared.state
      (serve approving service (Call.finalize finalize_request) shared).state
serve-History_example = serve-History approving service (Call.finalize finalize_request) shared

-- The host of the request is the first project's, and the neighbour's rows stay.
handle_all-Spared_example :
    Spared 11 shared.db (handle_all web approving app ((Route.finalize, anonymous) ∷ []) shared).db
handle_all-Spared_example =
    handle_all-Spared web approving app 11 ((Route.finalize, anonymous) ∷ []) shared shared-Inv (
      (λ q found. subst (λ (x : Project). (x.id == 11) ≡ false) (only_host q found) refl, refl),
      tt,
    )
  where
    only_host : (q : Project) → some project ≡ some q → project ≡ q
    only_host q e = cc
