-- ===== src/Ledger/Refines/Recording.antt =====
-- What `FinalizePayment` (khazina/internal/payment/service.go) records of the answer of the gateway,
-- against the steps of the specification.
use mathlib.Core.Path.{subst}
use saftaja.Prelude.{
  List, true, false, ◌≡◌, ap, ◌∙◌, map, str_eq, some, String, Bool-cases, inl, inr, if◌then◌else◌,
}
use saftaja.Domain.{Uuid, TransactionStatus, InvoiceStatus, is_paid, is_pay}
use saftaja.Env.{Env}
use saftaja.Exec.{State, World, tick, with_db}
use saftaja.Exec.After.{Runs, bind-After, on_error-After, pure-After, write-After}
use saftaja.Mpgs.Types.{code_approved, Response, ExecutePayResponse}
use saftaja.Store.Rows.{Db, Invoice, Transaction}
use saftaja.Store.Writes.{update_transaction_status, update_invoice_status, set_invoice}
use saftaja.Payment.Types.{Service, FinalizePaymentRequest, FinalizePaymentResult}
use saftaja.Payment.Finalize.{record_payment, record_approved, record_declined}
use saftaja.Ledger.Step.{History, next, approve, settle, invoice_at, with_tables}
use saftaja.Ledger.Sql.{update_transaction-gives, update_invoice-gives}
use saftaja.Ledger.Placed.{Placed}
use saftaja.Ledger.Inv.{Inv, paid_flag}
use saftaja.Ledger.Books.{paid_flag-map_self}

-- The result says success exactly when the invoice has been marked as paid; a decline leaves every
-- invoice as it was.
abbrev pub Agrees : Uuid → List Invoice → FinalizePaymentResult → Db → Type 0
Agrees i before r d = if r.success then (paid_flag i d.invoices ≡ 1) else (d.invoices ≡ before)

module _ (env : Env) (s : Service) (q : Uuid) (s0 : State) where
  abbrev Past : State → Type 0
  Past = History env (some q) s0

  abbrev Ends : Uuid → List Invoice → FinalizePaymentResult → World → Type 0
  Ends i before r v = Past v.state × (Inv s0.db → Agrees i before r v.db)

  module _ (req : FinalizePaymentRequest) (t : Transaction) (v : Invoice) (k : Uuid)
      (of : t.invoice_id ≡ k) (raw : String) (w : World) (h : Past w.state) (p : Placed w.db t v)
      (pay : is_pay t.transaction_type ≡ true) (whose : t.project_id ≡ q) (i : Uuid) (key : k ≡ i)
      (before : List Invoice) (kept_so_far : w.db.invoices ≡ before) where
    record_approved-Runs :
        is_paid v.status ≡ false
        → Runs
            (λ u. Past (record u { db = w.db }))
            (λ a u. Past u.state × Past (with_db w.db u).state × Ends i before a u)
            (record_approved env req k t.id raw (tick w))
    unfolding record_approved update_transaction_status update_invoice_status
    record_approved-Runs unpaid = bind-After _ _ _ (
        on_error-After _ _ _ (
          write-After env _ _ h λ st u d e. (
            h,
            bind-After _ _ _ (
                on_error-After _ _ _ (
                  write-After env _ _ h λ st' u' d' e'.
                    let tables =
                      update_invoice-gives k InvoiceStatus.paid st' d u' d' e'
                      ∙ ap
                          (λ (x : Db). record x {
                            invoices = map (set_invoice k InvoiceStatus.paid st'.time) x.invoices;
                          })
                          (update_transaction-gives t.id TransactionStatus.success raw st w.db u d
                            e) in
                    let past : Past (with_tables w.state d') = next h (
                      approve t v raw st.time st'.time p.found pay p.undecided p.bills unpaid whose
                        (rw of (ap (with_tables w.state) tables))) in
                    let paid : paid_flag k d'.invoices ≡ 1 = rw tables (
                      paid_flag-map_self k st'.time t.project_id v w.db.invoices (
                        subst (λ x. invoice_at x t.project_id w.db.invoices ≡ some v) of
                          p.bills.found)) in
                    (
                      h,
                      pure-After _ _
                          (past, h, (past, λ _. subst (λ x. paid_flag x d'.invoices ≡ 1) key paid)),
                    ))),
          )))

    record_declined-Runs :
        Runs
          (λ u. Past (record u { db = w.db }))
          (λ a u. Past u.state × Past (with_db w.db u).state × Ends i before a u)
          (record_declined env req t.id raw (tick w))
    unfolding record_declined update_transaction_status
    record_declined-Runs = bind-After _ _ _ (
        on_error-After _ _ _ (
          write-After env _ _ h λ st u d e.
            let past : Past (with_tables w.state d) = next h (
              settle t TransactionStatus.failed raw st.time p.found p.undecided (rw pay) whose (
                ap (with_tables w.state)
                  (update_transaction-gives t.id TransactionStatus.failed raw st w.db u d e))) in
            let kept : d.invoices ≡ before =
              ap (λ (x : Db). x.invoices)
                (update_transaction-gives t.id TransactionStatus.failed raw st w.db u d e)
              ∙ kept_so_far in
            (h, pure-After _ _ (past, h, (past, λ _. kept)))))

    pub record_payment-Runs :
        (resp : Response ExecutePayResponse)
        → resp.raw_body ≡ raw
        → is_paid v.status ≡ false
        → Runs
            (λ u. Past (record u { db = w.db }))
            (λ a u. Past u.state × Past (with_db w.db u).state × Ends i before a u)
            (record_payment env req k t.id resp (tick w))
    unfolding record_payment
    record_payment-Runs resp same unpaid =
        elim (Bool-cases (str_eq resp.value.gateway_code code_approved)) [
          | inl e ↦ rw (e, same) (record_approved-Runs unpaid)
          | inr n ↦ rw (n, same) record_declined-Runs
        ]
