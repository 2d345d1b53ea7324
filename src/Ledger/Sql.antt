-- ===== src/Ledger/Sql.antt =====
-- What a statement of khazina/internal/store that succeeds has done.
use saftaja.Prelude.{false, ◌≡◌, some, ◌∷◌, ◌==◌, exists?, map, String, arith, Option, none}
use saftaja.Domain.{Uuid, PaymentSessionStatus, TransactionStatus, InvoiceStatus}
use saftaja.Exec.{gives, Stamp}
use saftaja.Store.Rows.{Db, Transaction, PaymentSession}
use saftaja.Store.Reads.{one}
use saftaja.Store.Writes.{
  CreateTransactionParams, CreatePaymentSessionParams, insert_transaction, insert_session,
  update_transaction, update_invoice, set_transaction, set_invoice,
}

pub one-gives : {A : Type 0} (o : Option A) (a : A) → one o ≡ gives a → o ≡ some a
one-gives none a h = cc
one-gives (some b) a h = cc

pub record Inserted (arg : CreateTransactionParams) (d : Db) (t : Transaction) (d' : Db)
    : Type 0 where
  pub session : t.payment_session_id ≡ arg.payment_session_id
  pub invoice : t.invoice_id ≡ arg.invoice_id
  pub project : t.project_id ≡ arg.project_id
  pub type : t.transaction_type ≡ arg.transaction_type
  pub amount : t.amount ≡ arg.amount
  pub currency : t.currency ≡ arg.currency
  pub status : t.status ≡ TransactionStatus.pending
  pub fresh : exists? (λ r. r.id == t.id) d.transactions ≡ false
  pub tables : d' ≡ record d { transactions = t ∷ d.transactions }

pub insert_transaction-gives :
    (arg : CreateTransactionParams) (st : Stamp) (d : Db) (t : Transaction) (d' : Db)
    → insert_transaction arg st d ≡ gives (t, d')
    → Inserted arg d t d'
unfolding insert_transaction
insert_transaction-gives arg st d t d' h = ground arith

pub record Opened (arg : CreatePaymentSessionParams) (d : Db) (p : PaymentSession) (d' : Db)
    : Type 0 where
  pub invoice : p.invoice_id ≡ arg.invoice_id
  pub project : p.project_id ≡ arg.project_id
  pub account : p.gateway_account_id ≡ arg.gateway_account_id
  pub gateway : p.gateway_session_id ≡ arg.gateway_session_id
  pub key : p.idempotency_key ≡ arg.idempotency_key
  pub status : p.status ≡ PaymentSessionStatus.created
  pub fresh : exists? (λ r. r.id == p.id) d.payment_sessions ≡ false
  pub tables : d' ≡ record d { payment_sessions = p ∷ d.payment_sessions }

pub insert_session-gives :
    (arg : CreatePaymentSessionParams) (st : Stamp) (d : Db) (p : PaymentSession) (d' : Db)
    → insert_session arg st d ≡ gives (p, d')
    → Opened arg d p d'
unfolding insert_session
insert_session-gives arg st d p d' h = ground arith

pub update_transaction-gives :
    (id : Uuid) (status : TransactionStatus) (raw : String) (st : Stamp) (d : Db) (u : Unit {0})
    (d' : Db)
    → update_transaction id status raw st d ≡ gives (u, d')
    → d' ≡ record d { transactions = map (set_transaction id status raw st.time) d.transactions }
unfolding update_transaction
update_transaction-gives id status raw st d u d' h = ground arith

pub update_invoice-gives :
    (id : Uuid) (status : InvoiceStatus) (st : Stamp) (d : Db) (u : Unit {0}) (d' : Db)
    → update_invoice id status st d ≡ gives (u, d')
    → d' ≡ record d { invoices = map (set_invoice id status st.time) d.invoices }
unfolding update_invoice
update_invoice-gives id status st d u d' h = ground arith
