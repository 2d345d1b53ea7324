-- ===== src/Ledger/Taken.antt =====
-- The last calls of `FinalizePayment` (khazina/internal/payment/service.go), where nothing fails.
use mathlib.Core.Path.{subst}
use saftaja.Prelude.{
  ℕ, ◌≤◌, true, false, ◌≡◌, refl, ◌==◌, exists?, some, String, str_eq, arith, map,
}
use saftaja.Domain.{Time, TransactionStatus, InvoiceStatus, is_paid, is_pay, is_success}
use saftaja.Env.{Env, DbOutcome, HttpRequest, HttpResponse}
use saftaja.Exec.{World, ok, http_do, lift, ◌>>=◌}
use saftaja.Exec.After.{Answers, bind-After, on_error-After, pure-After, done}
use saftaja.Exec.After.Forward.{write-Answers}
use saftaja.Mpgs.Types.{ExecutePayResponse, ExecutePayRequest, Response, code_approved, Body}
use saftaja.Mpgs.Client.{
  execute_pay, do_request, decode_response, Client, request, transaction_path,
}
use saftaja.Connectors.Types.{Credentials}
use saftaja.Connectors.Credentials.{parse_encrypted_credentials}
use saftaja.Store.Rows.{Db, GatewayAccount, Invoice, PaymentSession, Transaction}
use saftaja.Store.Reads.{account_of_session}
use saftaja.Store.Writes.{
  update_transaction_status, update_invoice_status, update_invoice, set_transaction, set_invoice,
}
use saftaja.Payment.Types.{Service, FinalizePaymentRequest, FinalizePaymentResult}
use saftaja.Payment.Finalize.{record_payment, record_approved, success_result}
use saftaja.Ledger.Step.{invoice_at, Bills, transaction_at}
use saftaja.Ledger.Inv.{Inv, paid_flag}
use saftaja.Ledger.Books.{paid_flag-map_self}
use saftaja.Ledger.Decides.{approve-Inv}
use saftaja.Ledger.Traffic.{paid_flag-bound}
use saftaja.Ledger.Unrefused.{update_transaction-accepts}

-- The database answers, and the gateway approves every payment.
pub record Reachable (env : Env) : Type 0 where
  pub answers : (n : ℕ) → env.db_outcome n ≡ DbOutcome.answered
  pub approves :
      (n : ℕ) (r : HttpRequest) (p : ExecutePayRequest)
      → r.body ≡ Body.execute_pay p
      → (answer : HttpResponse) × (e : ExecutePayResponse) × (env.http_do n r ≡ some answer)
        × (answer.status_code ≡ 201)
        × (env.decode_execute_pay answer.body ≡ some e)
        × (str_eq e.gateway_code code_approved ≡ true)

-- What the session and its invoice need for a payment to be taken.
pub record Payable (env : Env) (s : Service) (session : PaymentSession) (v : Invoice) (d : Db)
    (from : ℕ) : Type 0 where
  pub account : GatewayAccount
  pub account_found : account_of_session session.id d ≡ some account
  pub creds : Credentials
  pub parsed : parse_encrypted_credentials env account.credentials s.encryption_key ≡ ok creds
  pub project : exists? (λ p. p.id == v.project_id) d.projects ≡ true
  pub fresh : (n : ℕ) → from ≤ n → exists? (λ t. t.id == env.new_uuid n) d.transactions ≡ false

module _ (env : Env) (up : Reachable env) where
  pub execute_pay-Answers :
      {K : Response ExecutePayResponse → World → Type 0} (c : Client) (order_id tx_id : String)
      (req : ExecutePayRequest) (w : World)
      → ((resp : Response ExecutePayResponse) (u : World)
          → u.db ≡ w.db
          → str_eq resp.value.gateway_code code_approved ≡ true
          → K resp u)
      → Answers K (execute_pay env c order_id tx_id req w)
  unfolding execute_pay do_request decode_response http_do lift ◌>>=◌
  execute_pay-Answers c order_id tx_id req w k =
      let (answer, e, got, status, decodes, approved) =
        up.approves w.step
          (request c "PUT" (transaction_path c order_id tx_id) (Body.execute_pay req)) req refl in
      rw (got, status, decodes) (done _ _ (k _ _ refl approved))

  -- What is left once the payment is taken.
  abbrev pub Taken : FinalizePaymentRequest → Invoice → FinalizePaymentResult → World → Type 0
  Taken req v r u = (r ≡ success_result env req) × Inv u.db × (paid_flag v.id u.db.invoices ≡ 1)

  pub record_payment-Answers :
      (req : FinalizePaymentRequest) (v : Invoice) (t : Transaction)
      (resp : Response ExecutePayResponse) (w : World)
      → Inv w.db
      → transaction_at t.id w.db ≡ some t
      → is_pay t.transaction_type ≡ true
      → is_success t.status ≡ false
      → Bills w.db.invoices t v
      → t.invoice_id ≡ v.id
      → is_paid v.status ≡ false
      → str_eq resp.value.gateway_code code_approved ≡ true
      → Answers (Taken req v) (record_payment env req v.id t.id resp w)
  unfolding record_payment record_approved update_transaction_status update_invoice_status
      update_invoice
  record_payment-Answers req v t resp w inv found pay undecided bills key unpaid approved =
      let raw = resp.raw_body in
      let after : (time : Time)
          → Inv (record w.db {
            transactions =
                map (set_transaction t.id TransactionStatus.success raw (env.now w.step))
                  w.db.transactions;
            invoices = map (set_invoice v.id InvoiceStatus.paid time) w.db.invoices;
          }) =
        λ time.
          subst
            (λ k. Inv (record w.db {
              transactions =
                  map (set_transaction t.id TransactionStatus.success raw (env.now w.step))
                    w.db.transactions;
              invoices = map (set_invoice k InvoiceStatus.paid time) w.db.invoices;
            }))
            key
            (approve-Inv w.db t v raw (env.now w.step) time inv found pay undecided bills unpaid) in
      rw approved (
        bind-After _ _ w (
          on_error-After _ _ w (
            write-Answers env _ w tt _ (up.answers _)
              (update_transaction-accepts t.id TransactionStatus.success raw _ w.db λ i. omega (
                arith,
                (after 0).books i,
                paid_flag-bound i (map (set_invoice v.id InvoiceStatus.paid 0) w.db.invoices),
              ))
              (bind-After _ _ _ (
                on_error-After _ _ _ (
                  write-Answers env _ _ tt _ (up.answers _) refl (
                    pure-After _ _ (
                      refl,
                      after _,
                      paid_flag-map_self v.id _ t.project_id v w.db.invoices (
                          subst (λ k. invoice_at k t.project_id w.db.invoices ≡ some v) key
                            bills.found),
                    ))))))))
