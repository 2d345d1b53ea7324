-- ===== src/Store/Writes.antt =====
-- The INSERT and UPDATE statements: khazina/internal/store/checkout.sql.go, invoices.sql.go
-- and payment_sessions.sql.go, with the defaults, keys, references and unique indexes
-- of khazina/internal/store/migrations, and the trigger that sets `updated_at`.
use saftaja.Prelude.{
  ◌+◌, Bool, true, none, some, List, [], ◌∷◌, ◌&&◌, ◌==◌, exists?, map, not, if◌then◌else◌, String,
}
use saftaja.Domain.{
  Uuid, Time, Text, Decimal, InvoiceStatus, PaymentSessionStatus, TransactionType,
  TransactionStatus, is_pay, is_success,
}
use saftaja.Mpgs.Types.{Body}
use saftaja.Errors.{Error}
use saftaja.Store.Rows.{Invoice, PaymentSession, Transaction, Db}
use saftaja.Exec.{Sql, gives, rejects, Exec, Stamp, write}
use saftaja.Store.Reads.{text_is}
use saftaja.Env.{Env}

-- A row that a constraint refuses.
abbrev pub unless : {A : Type 0} → Bool → String → Sql A → Sql A
unless broken name r = if broken then rejects (Error.db_failure name) else r

-- `expires_at TIMESTAMPTZ NOT NULL DEFAULT (NOW() + INTERVAL '30 minutes')`
abbrev pub session_lifetime : Time
session_lifetime = 1800

pub record CreatePaymentSessionParams : Type 0 where
  pub invoice_id : Uuid
  pub project_id : Uuid
  pub gateway_account_id : Uuid
  pub gateway_session_id : String
  pub payment_method : String
  pub payer_ip : Text
  pub payer_user_agent : Text
  pub idempotency_key : Text

pub record CreateTransactionParams : Type 0 where
  pub payment_session_id : Uuid
  pub invoice_id : Uuid
  pub project_id : Uuid
  pub transaction_type : TransactionType
  pub gateway_transaction_id : String
  pub amount : Decimal
  pub currency : String
  pub raw_request : Body

abbrev pub new_session : Stamp → CreatePaymentSessionParams → PaymentSession
new_session stamp arg = record {
  id = stamp.uuid;
  invoice_id = arg.invoice_id;
  project_id = arg.project_id;
  gateway_account_id = arg.gateway_account_id;
  gateway_session_id = arg.gateway_session_id;
  status = PaymentSessionStatus.created;
  payment_method = arg.payment_method;
  payer_ip = arg.payer_ip;
  payer_user_agent = arg.payer_user_agent;
  expires_at = some (stamp.time + session_lifetime);
  created_at = stamp.time;
  updated_at = stamp.time;
  deleted_at = none;
  idempotency_key = arg.idempotency_key;
}

abbrev pub new_transaction : Stamp → CreateTransactionParams → Transaction
new_transaction stamp arg = record {
  id = stamp.uuid;
  payment_session_id = arg.payment_session_id;
  invoice_id = arg.invoice_id;
  project_id = arg.project_id;
  transaction_type = arg.transaction_type;
  gateway_transaction_id = arg.gateway_transaction_id;
  amount = arg.amount;
  currency = arg.currency;
  status = TransactionStatus.pending;
  raw_request = arg.raw_request;
  raw_response = none;
  created_at = stamp.time;
  updated_at = stamp.time;
  deleted_at = none;
}

-- a successful payment of this invoice
abbrev pub pays : Uuid → Transaction → Bool
pays invoice_id t = t.invoice_id == invoice_id && is_pay t.transaction_type && is_success t.status

unfoldable pub insert_session : CreatePaymentSessionParams → Stamp → Db → Sql (PaymentSession × Db)
insert_session arg stamp d =
    let s = new_session stamp arg in
    unless (exists? (λ r. r.id == s.id) d.payment_sessions) "payment_sessions_pkey" (
      unless (not (exists? (λ v. v.id == s.invoice_id) d.invoices))
        "payment_sessions_invoice_id_fkey"
        (unless (not (exists? (λ p. p.id == s.project_id) d.projects))
          "payment_sessions_project_id_fkey"
          (unless (not (exists? (λ a. a.id == s.gateway_account_id) d.gateway_accounts))
            "payment_sessions_gateway_account_id_fkey"
            (unless
              (exists?
                (λ r. r.invoice_id == s.invoice_id && text_is r.idempotency_key s.idempotency_key)
                d.payment_sessions)
              "idx_payment_sessions_idempotency_key"
              (gives (s, record d { payment_sessions = s ∷ d.payment_sessions }))))))

unfoldable pub insert_transaction : CreateTransactionParams → Stamp → Db → Sql (Transaction × Db)
insert_transaction arg stamp d =
    let t = new_transaction stamp arg in
    unless (exists? (λ r. r.id == t.id) d.transactions) "transactions_pkey" (
      unless (not (exists? (λ s. s.id == t.payment_session_id) d.payment_sessions))
        "transactions_payment_session_id_fkey"
        (unless (not (exists? (λ v. v.id == t.invoice_id) d.invoices))
          "transactions_invoice_id_fkey"
          (unless (not (exists? (λ p. p.id == t.project_id) d.projects))
            "transactions_project_id_fkey"
            (gives (t, record d { transactions = t ∷ d.transactions })))))

-- `UPDATE transactions SET status = $2, raw_response = $3 WHERE id = $1`, row by row
abbrev pub set_transaction : Uuid → TransactionStatus → String → Time → Transaction → Transaction
set_transaction id status raw time t =
    if t.id == id
    then record t { status = status; raw_response = some raw; updated_at = time }
    else t

-- `idx_one_successful_payment_per_invoice`: no two successful payments of one invoice
abbrev pub one_payment_per_invoice : List Transaction → Bool
one_payment_per_invoice [] = true
one_payment_per_invoice (t ∷ ts) =
    not (is_pay t.transaction_type && is_success t.status && exists? (pays t.invoice_id) ts)
    && one_payment_per_invoice ts

unfoldable pub update_transaction :
    Uuid → TransactionStatus → String → Stamp → Db → Sql (Unit {0} × Db)
update_transaction id status raw stamp d =
    let ts = map (set_transaction id status raw stamp.time) d.transactions in
    unless (not (one_payment_per_invoice ts)) "idx_one_successful_payment_per_invoice"
      (gives (tt, record d { transactions = ts }))

abbrev pub set_invoice : Uuid → InvoiceStatus → Time → Invoice → Invoice
set_invoice id status time v =
    if v.id == id then record v { status = status; updated_at = time } else v

unfoldable pub update_invoice : Uuid → InvoiceStatus → Stamp → Db → Sql (Unit {0} × Db)
update_invoice id status stamp d =
    gives (tt, record d { invoices = map (set_invoice id status stamp.time) d.invoices })

abbrev pub set_session_gateway_id : Uuid → String → Time → PaymentSession → PaymentSession
set_session_gateway_id id gateway_session_id time s =
    if s.id == id
    then record s { gateway_session_id = gateway_session_id; updated_at = time }
    else s

abbrev pub set_session_status : Uuid → PaymentSessionStatus → Time → PaymentSession → PaymentSession
set_session_status id status time s =
    if s.id == id then record s { status = status; updated_at = time } else s

module _ (env : Env) where
  unfoldable pub create_payment_session : CreatePaymentSessionParams → Exec PaymentSession
  create_payment_session arg = write env (insert_session arg)

  unfoldable pub create_transaction : CreateTransactionParams → Exec Transaction
  create_transaction arg = write env (insert_transaction arg)

  unfoldable pub update_transaction_status : Uuid → TransactionStatus → String → Exec (Unit {0})
  update_transaction_status id status raw_response =
      write env (update_transaction id status raw_response)

  unfoldable pub update_invoice_status : Uuid → InvoiceStatus → Exec (Unit {0})
  update_invoice_status id status = write env (update_invoice id status)

  -- No code calls the next two.
  unfoldable pub update_payment_session_gateway_id : Uuid → String → Exec (Unit {0})
  update_payment_session_gateway_id id gateway_session_id = write env λ stamp d. gives (
    tt,
    record d {
      payment_sessions =
          map (set_session_gateway_id id gateway_session_id stamp.time) d.payment_sessions;
    },
  )

  unfoldable pub update_payment_session_status : Uuid → PaymentSessionStatus → Exec (Unit {0})
  update_payment_session_status id status = write env λ stamp d. gives (
    tt,
    record d {
      payment_sessions = map (set_session_status id status stamp.time) d.payment_sessions;
    },
  )
