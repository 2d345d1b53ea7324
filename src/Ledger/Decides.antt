-- ===== src/Ledger/Decides.antt =====
-- The invariant of the tables, once a transaction is decided.
use saftaja.Prelude.{
  true, false, ◌≡◌, List, [], ◌∷◌, ◌==◌, ◌&&◌, All, All-map, map, String, some, arith, Bool-cases,
  inl, inr, ==-eq,
}
use saftaja.Domain.{Uuid, Time, TransactionStatus, InvoiceStatus, is_paid, is_pay, is_success}
use saftaja.Store.Rows.{Db, Invoice, Transaction, PaymentSession}
use saftaja.Store.Writes.{set_transaction, set_invoice}
use saftaja.Ledger.Step.{transaction_at, Bills, Belongs}
use saftaja.Ledger.Inv.{Inv}
use saftaja.Ledger.Books.{
  Distinct-map, payments-map, Distinct-invoice-map, paid_flag-map, Bills-map, paid_flag-unpaid,
}

abbrev Billed : List Invoice → Transaction → Type 0
Billed vs t = (v : Invoice) × Bills vs t v

set_transaction-Billed :
    (x : Uuid) (status : TransactionStatus) (raw : String) (time : Time) (vs : List Invoice)
    (t : Transaction)
    → Billed vs t
    → Billed vs (set_transaction x status raw time t)
set_transaction-Billed x status raw time vs t (v, b) = elim (Bool-cases (t.id == x)) [
  | inl e ↦ rw e (v, record { found = b.found; amount = b.amount; currency = b.currency })
  | inr n ↦ rw n (v, b)
]

All-map_set :
    (P : Transaction → Type 0) (f : Transaction → Transaction)
    → ((t : Transaction) → P t → P (f t))
    → (ts : List Transaction) → All P ts
    → All P (map f ts)
All-map_set P f k [] h = tt
All-map_set P f k (t ∷ ts) h = (k t h.0, All-map_set P f k ts h.1)

abbrev pub Belonging : List PaymentSession → Transaction → Type 0
Belonging ps t = (p : PaymentSession) × Belongs ps t p

set_transaction-Belonging :
    (x : Uuid) (status : TransactionStatus) (raw : String) (time : Time) (ps : List PaymentSession)
    (t : Transaction)
    → Belonging ps t
    → Belonging ps (set_transaction x status raw time t)
set_transaction-Belonging x status raw time ps t (p, b) = elim (Bool-cases (t.id == x)) [
  | inl e ↦ rw e (p, record { found = b.found; invoice = b.invoice })
  | inr n ↦ rw n (p, b)
]

pub settle-Inv :
    (d : Db) (t : Transaction) (status : TransactionStatus) (raw : String) (time : Time)
    → Inv d
    → transaction_at t.id d ≡ some t
    → is_success t.status ≡ false
    → is_pay t.transaction_type && is_success status ≡ false
    → Inv (record d { transactions = map (set_transaction t.id status raw time) d.transactions })
settle-Inv d t status raw time inv f s n = record {
  transactions_distinct =
      Distinct-map t.id status raw time d.transactions inv.transactions_distinct;
  invoices_distinct = inv.invoices_distinct;
  sessions_distinct = inv.sessions_distinct;
  books = λ i. ground (
    arith,
    payments-map t.id status raw time i t d.transactions inv.transactions_distinct f s,
    inv.books i,
  );
  billed =
      All-map_set (Billed d.invoices) (set_transaction t.id status raw time)
        (set_transaction-Billed t.id status raw time d.invoices) d.transactions inv.billed;
  belongs =
      All-map_set (Belonging d.payment_sessions) (set_transaction t.id status raw time)
        (set_transaction-Belonging t.id status raw time d.payment_sessions) d.transactions
        inv.belongs;
  created_only = inv.created_only;
}

pub approve-Inv :
    (d : Db) (t : Transaction) (v : Invoice) (raw : String) (time time' : Time)
    → Inv d
    → transaction_at t.id d ≡ some t
    → is_pay t.transaction_type ≡ true
    → is_success t.status ≡ false
    → Bills d.invoices t v
    → is_paid v.status ≡ false
    → Inv (record d {
      transactions = map (set_transaction t.id TransactionStatus.success raw time) d.transactions;
      invoices = map (set_invoice t.invoice_id InvoiceStatus.paid time') d.invoices;
    })
approve-Inv d t v raw time time' inv f p s b u =
    let k = t.invoice_id in
    let flag = paid_flag-unpaid k t.project_id v d.invoices inv.invoices_distinct b.found u in
    record {
      transactions_distinct =
          Distinct-map t.id TransactionStatus.success raw time d.transactions
            inv.transactions_distinct;
      invoices_distinct = Distinct-invoice-map k time' d.invoices inv.invoices_distinct;
      sessions_distinct = inv.sessions_distinct;
      books = λ i. ground (
        arith,
        payments-map t.id TransactionStatus.success raw time i t d.transactions
            inv.transactions_distinct f s,
        paid_flag-map k time' i t.project_id v d.invoices b.found,
        inv.books i,
        inv.books k,
        flag,
        ==-eq k i,
      );
      billed =
          All-map_set (Billed (map (set_invoice k InvoiceStatus.paid time') d.invoices))
            (set_transaction t.id TransactionStatus.success raw time)
            (set_transaction-Billed t.id TransactionStatus.success raw time
              (map (set_invoice k InvoiceStatus.paid time') d.invoices))
            d.transactions
            (All-map (Billed d.invoices)
              (Billed (map (set_invoice k InvoiceStatus.paid time') d.invoices))
              (λ r (w, bw).
                (set_invoice k InvoiceStatus.paid time' w, Bills-map k time' r w d.invoices bw))
              d.transactions inv.billed);
      belongs =
          All-map_set (Belonging d.payment_sessions)
            (set_transaction t.id TransactionStatus.success raw time)
            (set_transaction-Belonging t.id TransactionStatus.success raw time d.payment_sessions)
            d.transactions inv.belongs;
      created_only = inv.created_only;
    }
