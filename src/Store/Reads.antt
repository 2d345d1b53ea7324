-- ===== src/Store/Reads.antt =====
-- The SELECT statements: khazina/internal/store/checkout.sql.go, invoices.sql.go,
-- invoice_items.sql.go and payment_sessions.sql.go. A `:one` query with no row is `no_rows`.
use saftaja.Prelude.{
  Bool, true, false, Option, none, some, List, [], ◌∷◌, ◌&&◌, ◌==◌, ltb, str_eq, find?, keep,
  is_some, if◌then◌else◌, not,
}
use saftaja.Domain.{Uuid, Text, PaymentSessionStatus, is_pay, is_success, is_authenticate_payer}
use saftaja.Errors.{Error}
use saftaja.Store.Rows.{
  Project, GatewayAccount, Invoice, InvoiceItem, PaymentSession, Transaction, Db,
}
use saftaja.Exec.{Sql, gives, rejects, Exec, read}
use saftaja.Env.{Env}

-- `QueryRow(…).Scan(…)`
abbrev pub one : {A : Type 0} → Option A → Sql A
one none = rejects Error.no_rows
one (some a) = gives a

-- `column = $1` on a text column; NULL equals nothing.
abbrev pub text_is : Text → Text → Bool
text_is (some s) (some t) = str_eq s t
text_is _ _ = false

-- `ORDER BY created_at DESC LIMIT 1`; of rows of the same time the newest.
unfoldable pub latest : List Transaction → Option Transaction
latest [] = none
latest (t ∷ ts) = elim (latest ts) [
  | none ↦ some t
  | some u ↦ if ltb t.created_at u.created_at then some u else some t
]

unfoldable pub latest_session : List PaymentSession → Option PaymentSession
latest_session [] = none
latest_session (t ∷ ts) = elim (latest_session ts) [
  | none ↦ some t
  | some u ↦ if ltb t.created_at u.created_at then some u else some t
]

-- `ORDER BY created_at ASC`: insertion keeps rows of the same time in the order in which they came.
abbrev insert_item : InvoiceItem → List InvoiceItem → List InvoiceItem
insert_item t [] = t ∷ []
insert_item t (u ∷ us) = if ltb t.created_at u.created_at then t ∷ u ∷ us else u ∷ insert_item t us

abbrev pub sort_items : List InvoiceItem → List InvoiceItem
sort_items [] = []
sort_items (t ∷ ts) = insert_item t (sort_items ts)

-- The three statuses that `GetLatestPaymentSession` lists.
abbrev is_open : PaymentSessionStatus → Bool
is_open PaymentSessionStatus.created = true
is_open PaymentSessionStatus.authenticating = true
is_open PaymentSessionStatus.authenticated = true
is_open _ = false

-- a join of two tables, through the key of the second
abbrev pub account_of_session : Uuid → Db → Option GatewayAccount
account_of_session id d = elim (find? (λ s. s.id == id) d.payment_sessions) [
  | none ↦ none
  | some s ↦ find? (λ a. a.id == s.gateway_account_id) d.gateway_accounts
]

abbrev pub project_of_session : Uuid → Db → Option Project
project_of_session id d = elim (find? (λ s. s.id == id) d.payment_sessions) [
  | none ↦ none
  | some s ↦ find? (λ p. p.id == s.project_id) d.projects
]

module _ (env : Env) where
  unfoldable pub list_active_gateway_accounts : Uuid → Exec (List GatewayAccount)
  list_active_gateway_accounts project_id = read env λ d. gives (
      keep (λ a. a.project_id == project_id && a.is_active && not (is_some a.deleted_at))
        d.gateway_accounts)

  unfoldable pub get_gateway_account : Uuid → Exec GatewayAccount
  get_gateway_account id = read env λ d. one (find? (λ a. a.id == id) d.gateway_accounts)

  unfoldable pub get_gateway_account_by_id_and_project : Uuid → Uuid → Exec GatewayAccount
  get_gateway_account_by_id_and_project id project_id =
      read env λ d. one (find? (λ a. a.id == id && a.project_id == project_id) d.gateway_accounts)

  unfoldable pub get_gateway_account_by_payment_session_id : Uuid → Exec GatewayAccount
  get_gateway_account_by_payment_session_id id = read env λ d. one (account_of_session id d)

  unfoldable pub get_project_by_payment_session_id : Uuid → Exec Project
  get_project_by_payment_session_id id = read env λ d. one (project_of_session id d)

  unfoldable pub get_project_by_custom_domain : Text → Exec Project
  get_project_by_custom_domain custom_domain = read env λ d.
      one (
        find? (λ p. text_is p.custom_domain custom_domain && not (is_some p.deleted_at)) d.projects)

  unfoldable pub get_invoice_by_id : Uuid → Exec Invoice
  get_invoice_by_id id = read env λ d. one (find? (λ v. v.id == id) d.invoices)

  unfoldable pub get_invoice_by_id_and_project : Uuid → Uuid → Exec Invoice
  get_invoice_by_id_and_project id project_id =
      read env λ d. one (find? (λ v. v.id == id && v.project_id == project_id) d.invoices)

  unfoldable pub get_invoice_items : Uuid → Exec (List InvoiceItem)
  get_invoice_items invoice_id =
      read env λ d. gives (sort_items (keep (λ i. i.invoice_id == invoice_id) d.invoice_items))

  unfoldable pub get_latest_payment_session : Uuid → Exec PaymentSession
  get_latest_payment_session invoice_id = read env λ d. one (
      latest_session
        (keep (λ s. s.invoice_id == invoice_id && is_open s.status) d.payment_sessions))

  unfoldable pub get_payment_session_by_id : Uuid → Exec PaymentSession
  get_payment_session_by_id id = read env λ d. one (find? (λ s. s.id == id) d.payment_sessions)

  unfoldable pub get_payment_session_by_id_and_project : Uuid → Uuid → Exec PaymentSession
  get_payment_session_by_id_and_project id project_id =
      read env λ d. one (find? (λ s. s.id == id && s.project_id == project_id) d.payment_sessions)

  unfoldable pub get_payment_session_by_idempotency_key : Uuid → Text → Exec PaymentSession
  get_payment_session_by_idempotency_key invoice_id key = read env λ d.
      one (
        find? (λ s. s.invoice_id == invoice_id && text_is s.idempotency_key key) d.payment_sessions)

  unfoldable pub get_pay_transaction_by_session_id : Uuid → Exec Transaction
  get_pay_transaction_by_session_id session_id = read env λ d. one (
      find?
        (λ t.
          t.payment_session_id == session_id && is_pay t.transaction_type && is_success t.status)
        d.transactions)

  unfoldable pub get_successful_auth_transaction : Uuid → Exec Transaction
  get_successful_auth_transaction session_id = read env λ d. one (
      latest (
        keep
          (λ t.
            t.payment_session_id == session_id
            && is_authenticate_payer t.transaction_type
            && is_success t.status)
          d.transactions))

  unfoldable pub get_latest_transaction : Uuid → Exec Transaction
  get_latest_transaction session_id =
      read env λ d. one (latest (keep (λ t. t.payment_session_id == session_id) d.transactions))
