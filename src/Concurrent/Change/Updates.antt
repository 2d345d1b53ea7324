-- ===== src/Concurrent/Change/Updates.antt =====
-- What the update of a transaction changes of the tables that other programs rely on.
use saftaja.Prelude.{
  false, ◌≡◌, ◌∙◌, refl, ap, Option, none, some, List, [], ◌∷◌, ◌==◌, find?, map, String, arith,
}
use saftaja.Domain.{Uuid, Time, TransactionStatus, InvoiceStatus}
use saftaja.Store.Rows.{Db, Invoice, Transaction}
use saftaja.Store.Writes.{set_transaction, set_invoice}
use saftaja.Ledger.Inv.{Inv}
use saftaja.Ledger.Books.{invoice_at-map, ids-set_invoice}
use saftaja.Concurrent.Change.{Holds, Untouched, Apart, Priced, Move}

set_transaction-other :
    (x a : Uuid) (status : TransactionStatus) (raw : String) (time : Time) (ts : List Transaction)
    → (a == x) ≡ false
    → find? (λ (r : Transaction). r.id == a) (map (set_transaction x status raw time) ts)
      ≡ find? (λ (r : Transaction). r.id == a) ts
set_transaction-other x a status raw time [] n = refl
set_transaction-other x a status raw time (t ∷ ts) n =
    ground (arith, set_transaction-other x a status raw time ts n)

set_transaction_self :
    (x : Uuid) (status : TransactionStatus) (raw : String) (time : Time) (ts : List Transaction)
    (t : Transaction)
    → find? (λ (r : Transaction). r.id == x) ts ≡ some t
    → find? (λ (r : Transaction). r.id == x) (map (set_transaction x status raw time) ts)
      ≡ some (set_transaction x status raw time t)
set_transaction_self x status raw time [] t h = cc
set_transaction_self x status raw time (r ∷ rs) t h =
    ground (arith, set_transaction_self x status raw time rs t)

module _ (d : Db) (a : Uuid) (status : TransactionStatus) (raw : String) (time : Time) where
  decided_Untouched :
      (k : Option Uuid)
      → Apart k (some a)
      → (d' : Db) → d'.transactions ≡ map (set_transaction a status raw time) d.transactions
      → Untouched k d d'
  decided_Untouched none far d' e = tt
  decided_Untouched (some b) far d' e =
      rw e (set_transaction-other a b status raw time d.transactions far)

  pub decided-Holds :
      (d' : Db)
      → Holds (some a) d
      → d'.transactions ≡ map (set_transaction a status raw time) d.transactions
      → Holds (some a) d'
  decided-Holds d' (t, h) e = (
    set_transaction a status raw time t,
    rw e (set_transaction_self a status raw time d.transactions t h),
  )

  pub decided :
      {d' : Db}
      → Inv d'
      → d' ≡ record d { transactions = map (set_transaction a status raw time) d.transactions }
      → Move (some a) (some a) d d'
  decided inv e = record {
    inv = inv;
    others = λ k far h. record {
      own = decided_Untouched k far _ (ap (λ (x : Db). x.transactions) e);
      invoices = λ i q v p. rw e p;
      sessions = λ i q p s. rw e s;
    };
    apart = λ k far h. far;
  }

  paid_Priced :
      (n : Uuid) (later : Time) (i q : Uuid) (v : Invoice)
      → Priced i q v d
      → Priced i q v
          (record d { invoices = map (set_invoice n InvoiceStatus.paid later) d.invoices })
  paid_Priced n later i q v (u, found, amount, currency) =
      let same = ids-set_invoice n later InvoiceStatus.paid u in
      (
        set_invoice n InvoiceStatus.paid later u,
        invoice_at-map n later i q u d.invoices found,
        same.2 ∙ amount,
        same.3 ∙ currency,
      )

  pub approved :
      {d' : Db} (n : Uuid) (later : Time)
      → Inv d'
      → d' ≡ record d {
        transactions = map (set_transaction a status raw time) d.transactions;
        invoices = map (set_invoice n InvoiceStatus.paid later) d.invoices;
      }
      → Move (some a) (some a) d d'
  approved n later inv e = record {
    inv = inv;
    others = λ k far h. record {
      own = decided_Untouched k far _ (ap (λ (x : Db). x.transactions) e);
      invoices = λ i q v p. rw e (paid_Priced n later i q v p);
      sessions = λ i q p s. rw e s;
    };
    apart = λ k far h. far;
  }
