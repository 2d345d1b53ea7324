-- ===== src/Tests/Tables.antt =====
-- The invariant on the tables of the tests.
use saftaja.Prelude.{refl, arith}
use saftaja.Ledger.Inv.{Inv}
use saftaja.Tests.Fixtures.{fresh, authenticated, settled, session, invoice_with}
use saftaja.Domain.{InvoiceStatus}

pub fresh-Inv : Inv fresh.db
fresh-Inv = record {
  transactions_distinct = tt;
  invoices_distinct = (tt, tt);
  sessions_distinct = tt;
  books = λ i. ground arith;
  billed = tt;
  belongs = tt;
  created_only = tt;
}

pub authenticated-Inv : Inv authenticated.db
authenticated-Inv = record {
  transactions_distinct = (tt, tt);
  invoices_distinct = (tt, tt);
  sessions_distinct = (tt, tt);
  books = λ i. ground arith;
  billed = (
    (invoice_with InvoiceStatus.pending, record { found = refl; amount = refl; currency = refl }),
    tt,
  );
  belongs = ((session, record { found = refl; invoice = refl }), tt);
  created_only = (refl, tt);
}

pub settled-Inv : Inv settled.db
settled-Inv = record {
  transactions_distinct = ((refl, tt), (tt, tt));
  invoices_distinct = (tt, tt);
  sessions_distinct = (tt, tt);
  books = λ i. ground arith;
  billed = (
    (invoice_with InvoiceStatus.paid, record { found = refl; amount = refl; currency = refl }),
    (
      (invoice_with InvoiceStatus.paid, record { found = refl; amount = refl; currency = refl }),
      tt,
    ),
  );
  belongs = (
    (session, record { found = refl; invoice = refl }),
    ((session, record { found = refl; invoice = refl }), tt),
  );
  created_only = (refl, tt);
}
