-- ===== src/Concurrent/Finalize/Recorded.antt =====
-- The transaction in which `FinalizePayment` records the answer of the gateway, among other programs.
use saftaja.Prelude.{true, ◌≡◌, ap, sym, ◌∙◌, map, some, String, str_eq, Bool-cases, inl, inr}
use mathlib.Core.Path.{subst}
use saftaja.Domain.{TransactionType, Time, TransactionStatus, InvoiceStatus, is_pay}
use saftaja.Env.{Env}
use saftaja.Exec.{State, World, tick, with_db, transaction}
use saftaja.Exec.After.{
  Runs, bind-After, on_error-After, pure-After, write-After, transaction-After,
}
use saftaja.Mpgs.Types.{code_approved, Response, ExecutePayResponse}
use saftaja.Store.Rows.{Db, Invoice, Transaction}
use saftaja.Store.Writes.{
  update_transaction_status, update_invoice_status, set_transaction, set_invoice,
  one_payment_per_invoice,
}
use saftaja.Payment.Types.{FinalizePaymentRequest, FinalizePaymentResult}
use saftaja.Payment.Finalize.{record_payment, record_approved, record_declined}
use saftaja.Ledger.Step.{invoice_at, Bills}
use saftaja.Ledger.Sql.{update_transaction-gives, update_invoice-gives}
use saftaja.Ledger.Inv.{Inv}
use saftaja.Ledger.Decides.{settle-Inv, approve-Inv}
use saftaja.Ledger.Indexed.{update_transaction-indexed, indexed-unpaid}
use saftaja.Concurrent.Change.{Holds, Move, still}
use saftaja.Concurrent.Change.Updates.{decided, decided-Holds, approved}
use saftaja.Concurrent.Ready.{Created}

module _ (env : Env) (req : FinalizePaymentRequest) (v : Invoice) (t : Transaction) (w : World)
    (inv : Inv w.db) (held : Holds (some t.id) w.db)
    (p : Created v TransactionType.pay t w.db) where
  abbrev Good : State → Type 0
  Good s = Move (some t.id) (some t.id) w.db s.db × Holds (some t.id) s.db

  is_payment : is_pay t.transaction_type ≡ true
  is_payment = ap is_pay (p.2).type

  resting : Good w.state
  resting = (still (some t.id) w.db inv, held)

  -- The invoice of the payment, as it is now.
  kept :
      (raw : String) (time later : Time)
      → one_payment_per_invoice
          (map (set_transaction t.id TransactionStatus.success raw time) w.db.transactions)
        ≡ true
      → Inv (record w.db {
        transactions =
            map (set_transaction t.id TransactionStatus.success raw time) w.db.transactions;
        invoices = map (set_invoice v.id InvoiceStatus.paid later) w.db.invoices;
      })
  kept raw time later index =
      let (found, (u, at, amount, currency), is) = p in
      let bill : invoice_at t.invoice_id t.project_id w.db.invoices ≡ some u =
        rw (is.invoice, is.project) at in
      let unpaid = indexed-unpaid w.db t u raw time inv found is_payment is.undecided bill index in
      let bills : Bills w.db.invoices t u = record {
        found = bill;
        amount = is.amount ∙ sym amount;
        currency = is.currency ∙ sym currency;
      } in
      subst
        (λ k. Inv (record w.db {
          transactions =
              map (set_transaction t.id TransactionStatus.success raw time) w.db.transactions;
          invoices = map (set_invoice k InvoiceStatus.paid later) w.db.invoices;
        }))
        is.invoice
        (approve-Inv w.db t u raw time later inv found is_payment is.undecided bills unpaid)

  record_declined-Good :
      (raw : String)
      → Runs
          (λ s. Good (record s { db = w.db }))
          (λ (_ : FinalizePaymentResult) u.
            Good u.state × Good (with_db w.db u).state × Good u.state)
          (record_declined env req t.id raw (tick w))
  unfolding record_declined update_transaction_status
  record_declined-Good raw = bind-After _ _ _ (
      on_error-After _ _ _ (
        write-After env _ _ resting λ st u d e.
          let tables = update_transaction-gives t.id TransactionStatus.failed raw st w.db u d e in
          let kept : Inv d = rw tables (
            settle-Inv w.db t TransactionStatus.failed raw st.time inv p.0 (p.2).undecided
              (rw is_payment)) in
          let good : Good (with_db d w).state = (
            decided w.db t.id TransactionStatus.failed raw st.time kept tables,
            decided-Holds w.db t.id TransactionStatus.failed raw st.time d held
                (ap (λ (x : Db). x.transactions) tables),
          ) in
          (resting, pure-After _ _ (good, resting, good))))

  record_approved-Good :
      (raw : String)
      → Runs
          (λ s. Good (record s { db = w.db }))
          (λ (_ : FinalizePaymentResult) u.
            Good u.state × Good (with_db w.db u).state × Good u.state)
          (record_approved env req v.id t.id raw (tick w))
  unfolding record_approved update_transaction_status update_invoice_status
  record_approved-Good raw = bind-After _ _ _ (
      on_error-After _ _ _ (
        write-After env _ _ resting λ st u d e. (
          resting,
          bind-After _ _ _ (
              on_error-After _ _ _ (
                write-After env _ _ resting λ st' u' d' e'.
                  let index =
                    update_transaction-indexed t.id TransactionStatus.success raw st w.db u d e in
                  let tables =
                    update_invoice-gives v.id InvoiceStatus.paid st' d u' d' e'
                    ∙ ap
                        (λ (x : Db). record x {
                          invoices = map (set_invoice v.id InvoiceStatus.paid st'.time) x.invoices;
                        })
                        (update_transaction-gives t.id TransactionStatus.success raw st w.db u d
                          e) in
                  let good : Good (with_db d' w).state = (
                    approved w.db t.id TransactionStatus.success raw st.time v.id st'.time
                        (rw tables (kept raw st.time st'.time index)) tables,
                    decided-Holds w.db t.id TransactionStatus.success raw st.time d' held
                        (ap (λ (x : Db). x.transactions) tables),
                  ) in
                  (resting, pure-After _ _ (good, resting, good)))),
        )))

  record_payment-Good :
      (resp : Response ExecutePayResponse)
      → Runs
          (λ s. Good (record s { db = w.db }))
          (λ (_ : FinalizePaymentResult) u.
            Good u.state × Good (with_db w.db u).state × Good u.state)
          (record_payment env req v.id t.id resp (tick w))
  unfolding record_payment
  record_payment-Good resp = elim (Bool-cases (str_eq resp.value.gateway_code code_approved)) [
    | inl e ↦ rw e (record_approved-Good resp.raw_body)
    | inr n ↦ rw n (record_declined-Good resp.raw_body)
  ]

  -- However the recording ends, the tables satisfy the invariant.
  pub recording-Good :
      (resp : Response ExecutePayResponse)
      → Runs Good
          (λ (_ : FinalizePaymentResult) u. Good u.state)
          (transaction env (record_payment env req v.id t.id resp) w)
  recording-Good resp = transaction-After env _ w resting (record_payment-Good resp)
