-- ===== src/Ledger/Step.antt =====
-- The steps of the payment service and of the admin API, as a relation on states.
use saftaja.Prelude.{
  Bool, true, false, ◌≡◌, String, List, none, some, ◌∷◌, ◌==◌, ◌&&◌, find?, exists?, map, Option,
}
use saftaja.Domain.{
  Uuid, Time, PaymentSessionStatus, TransactionStatus, InvoiceStatus, is_pay, is_paid, is_success,
}
use saftaja.Env.{Env, HttpRequest}
use saftaja.Exec.{State}
use saftaja.Exec.After.{after_sending}
use saftaja.Mpgs.Types.{Body, ExecutePayRequest}
use saftaja.Store.Rows.{
  Db, Invoice, Transaction, PaymentSession, GatewayAccount, Organization, Project,
}
use saftaja.Store.Reads.{text_is}
use saftaja.Store.Writes.{set_transaction, set_invoice}

abbrev pub carries_payment : Body → Bool
carries_payment (Body.execute_pay _) = true
carries_payment _ = false

-- The invoice with this key, in its project.
abbrev pub invoice_at : Uuid → Uuid → List Invoice → Option Invoice
invoice_at id project_id vs = find? (λ v. v.id == id && v.project_id == project_id) vs

abbrev pub account_at : Uuid → Uuid → Db → Option GatewayAccount
account_at id project_id d =
    find? (λ a. a.id == id && a.project_id == project_id) d.gateway_accounts

abbrev pub session_at : Uuid → Uuid → List PaymentSession → Option PaymentSession
session_at id project_id ps = find? (λ p. p.id == id && p.project_id == project_id) ps

abbrev pub transaction_at : Uuid → Db → Option Transaction
transaction_at id d = find? (λ t. t.id == id) d.transactions

-- A transaction is for an invoice of its project, over the invoice's amount and currency.
pub record Bills (vs : List Invoice) (t : Transaction) (v : Invoice) : Type 0 where
  pub found : invoice_at t.invoice_id t.project_id vs ≡ some v
  pub amount : t.amount ≡ v.amount
  pub currency : t.currency ≡ v.currency

-- A transaction runs in a session of its project, for the invoice of that session.
pub record Belongs (ps : List PaymentSession) (t : Transaction) (p : PaymentSession) : Type 0 where
  pub found : session_at t.payment_session_id t.project_id ps ≡ some p
  pub invoice : p.invoice_id ≡ t.invoice_id

abbrev pub with_tables : State → Db → State
with_tables s d = record s { db = d }

-- The project that a step is made for, if one is given.
abbrev pub Of : Option Uuid → Uuid → Type 0
Of none p = Unit
Of (some q) p = p ≡ q

pub data Step (env : Env) (owner : Option Uuid) (s s' : State) : Type 0 where
  -- a request to the gateway that moves no money
  ask :
      (r : HttpRequest)
      → carries_payment r.body ≡ false
      → s' ≡ after_sending r s
      → Step env owner s s'
  -- a payment request, for the amount of an unpaid invoice, under a payment that is recorded
  -- beforehand and not yet decided
  charge :
      (r : HttpRequest) (p : ExecutePayRequest) (t : Transaction) (v : Invoice)
      → r.body ≡ Body.execute_pay p
      → transaction_at t.id s.db ≡ some t
      → is_pay t.transaction_type ≡ true
      → is_success t.status ≡ false
      → Bills s.db.invoices t v
      → is_paid v.status ≡ false
      → p.order_amount ≡ env.decimal_string v.amount
      → p.order_currency ≡ v.currency
      → p.order_reference ≡ env.uuid_string v.id
      → Of owner t.project_id
      → s' ≡ after_sending r s
      → Step env owner s s'
  -- a session of a fresh key, of an unpaid invoice, on a gateway account of the same project
  open_session :
      (p : PaymentSession) (v : Invoice) (a : GatewayAccount)
      → invoice_at p.invoice_id p.project_id s.db.invoices ≡ some v
      → is_paid v.status ≡ false
      → account_at p.gateway_account_id p.project_id s.db ≡ some a
      → p.status ≡ PaymentSessionStatus.created
      → exists? (λ r. r.id == p.id) s.db.payment_sessions ≡ false
      → Of owner p.project_id
      → s' ≡ with_tables s (record s.db { payment_sessions = p ∷ s.db.payment_sessions })
      → Step env owner s s'
  -- a transaction of a fresh key, not yet decided, in a session of its invoice
  open_transaction :
      (t : Transaction) (v : Invoice) (p : PaymentSession)
      → exists? (λ r. r.id == t.id) s.db.transactions ≡ false
      → Bills s.db.invoices t v
      → Belongs s.db.payment_sessions t p
      → t.status ≡ TransactionStatus.pending
      → Of owner t.project_id
      → s' ≡ with_tables s (record s.db { transactions = t ∷ s.db.transactions })
      → Step env owner s s'
  -- an authentication is decided either way, a payment is declined
  settle :
      (t : Transaction) (status : TransactionStatus) (raw : String) (time : Time)
      → transaction_at t.id s.db ≡ some t
      → is_success t.status ≡ false
      → is_pay t.transaction_type && is_success status ≡ false
      → Of owner t.project_id
      → s'
        ≡ with_tables s (record s.db {
          transactions = map (set_transaction t.id status raw time) s.db.transactions;
        })
      → Step env owner s s'
  -- a payment succeeds and its invoice is paid, in one step
  approve :
      (t : Transaction) (v : Invoice) (raw : String) (time time' : Time)
      → transaction_at t.id s.db ≡ some t
      → is_pay t.transaction_type ≡ true
      → is_success t.status ≡ false
      → Bills s.db.invoices t v
      → is_paid v.status ≡ false
      → Of owner t.project_id
      → s'
        ≡ with_tables s (record s.db {
          transactions =
              map (set_transaction t.id TransactionStatus.success raw time) s.db.transactions;
          invoices = map (set_invoice t.invoice_id InvoiceStatus.paid time') s.db.invoices;
        })
      → Step env owner s s'
  -- an organization, a project or a gateway account of a fresh key, the project on a domain that no
  -- project has; a step for a project adds no other and no organization
  add_organization :
      (o : Organization)
      → exists? (λ r. r.id == o.id) s.db.organizations ≡ false
      → owner ≡ none
      → s' ≡ with_tables s (record s.db { organizations = o ∷ s.db.organizations })
      → Step env owner s s'
  add_project :
      (p : Project)
      → exists? (λ r. r.id == p.id) s.db.projects ≡ false
      → exists? (λ r. text_is r.custom_domain p.custom_domain) s.db.projects ≡ false
      → owner ≡ none
      → s' ≡ with_tables s (record s.db { projects = p ∷ s.db.projects })
      → Step env owner s s'
  add_account :
      (a : GatewayAccount)
      → exists? (λ r. r.id == a.id) s.db.gateway_accounts ≡ false
      → Of owner a.project_id
      → s' ≡ with_tables s (record s.db { gateway_accounts = a ∷ s.db.gateway_accounts })
      → Step env owner s s'
  -- an unpaid invoice of a fresh key, of a project that is there
  bill :
      (v : Invoice)
      → exists? (λ r. r.id == v.id) s.db.invoices ≡ false
      → exists? (λ p. p.id == v.project_id) s.db.projects ≡ true
      → is_paid v.status ≡ false
      → Of owner v.project_id
      → s' ≡ with_tables s (record s.db { invoices = v ∷ s.db.invoices })
      → Step env owner s s'

-- Any number of steps.
pub data History (env : Env) (owner : Option Uuid) (s : State) : State → Type 0 where
  start : History env owner s s
  next : {t u : State} → History env owner s t → Step env owner t u → History env owner s u
