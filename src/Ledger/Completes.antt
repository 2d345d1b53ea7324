-- ===== src/Ledger/Completes.antt =====
-- When `FinalizePayment` (khazina/internal/payment/service.go) takes the payment.
use mathlib.Core.Path.{subst}
use saftaja.Prelude.{
  ℕ, ◌≤◌, suc, true, false, ◌≡◌, refl, sym, ap, ◌∙◌, ◌==◌, ==_refl, some, arith, none,
}
use saftaja.Domain.{TransactionType, is_paid}
use saftaja.Env.{Env}
use saftaja.Exec.{World, ok, gives, tick, Stamp}
use saftaja.Exec.After.{
  Answers, Answers-result, bind-After, on_error-After, now-After, new_uuid-After,
  attempt-read-After,
}
use saftaja.Exec.After.Forward.{
  read-Answers, write-Answers, lift-Answers, guard-Answers, transaction-Answers,
}
use saftaja.Mpgs.Types.{Body}
use saftaja.Store.Rows.{Invoice, PaymentSession}
use saftaja.Store.Reads.{
  one, get_payment_session_by_id_and_project, get_invoice_by_id_and_project,
  get_pay_transaction_by_session_id, get_successful_auth_transaction,
  get_gateway_account_by_payment_session_id,
}
use saftaja.Store.Writes.{new_transaction, create_transaction}
use saftaja.Payment.Types.{Service, FinalizePaymentRequest}
use saftaja.Payment.Finalize.{finalize_payment, charge, success_result, pay_request}
use saftaja.Ledger.Step.{invoice_at, session_at, start, Bills, transaction_at}
use saftaja.Ledger.Inv.{Inv, paid_flag, payments}
use saftaja.Ledger.Unrefused.{insert_transaction-accepts, session_at-exists, invoice_at-exists}
use saftaja.Ledger.Guards.{Permitted, Payer}
use saftaja.Ledger.Sql.{insert_transaction-gives}
use saftaja.Ledger.Placed.{Placed-of_Inserted, opens, own_invoice, own_session, own_key}
use saftaja.Ledger.Keeps.{Step-Inv}
use saftaja.Ledger.Refines.Finalize.{settled-never}
use saftaja.Payment.Auth.{transaction_params}
use saftaja.Ledger.Taken.{Reachable, Payable, Taken, execute_pay-Answers, record_payment-Answers}

module _ (env : Env) (up : Reachable env) where
  charge-Answers :
      (s : Service) (req : FinalizePaymentRequest) (session : PaymentSession) (v : Invoice)
      (w : World) (from : ℕ)
      → Inv w.db
      → Payer w.db session
      → Payable env s session v w.db from
      → from ≤ w.step
      → invoice_at v.id v.project_id w.db.invoices ≡ some v
      → is_paid v.status ≡ false
      → (session_at session.id v.project_id w.db.payment_sessions ≡ some session)
        × (session.invoice_id ≡ v.id)
      → Answers (Taken env up req v) (charge env s req session v w)
  unfolding charge get_successful_auth_transaction get_gateway_account_by_payment_session_id
      create_transaction
  charge-Answers s req session v w from inv (auth_tx, payer) able late billed unpaid own =
      bind-After _ _ w (
        on_error-After _ _ w (
          read-Answers env _ w auth_tx (up.answers _) (rw payer refl) (
            bind-After _ _ _ (
              read-Answers env _ _ able.account (up.answers _) (rw able.account_found refl) (
                bind-After _ _ _ (
                  on_error-After _ _ _ (
                    lift-Answers _ _ able.creds able.parsed (
                      bind-After _ _ _ (
                        new_uuid-After env _ (
                          let tx_id = env.uuid_string (env.new_uuid (suc (suc w.step))) in
                          let body = Body.execute_pay (pay_request env v session auth_tx) in
                          let arg = transaction_params session v TransactionType.pay tx_id body in
                          let stamp : Stamp = record {
                            time = env.now (suc (suc (suc w.step)));
                            uuid = env.new_uuid (suc (suc (suc w.step)));
                          } in
                          let accepted =
                            insert_transaction-accepts arg stamp w.db
                              (able.fresh _ (omega (arith, late)))
                              (session_at-exists session.id v.project_id session
                                w.db.payment_sessions own.0)
                              (invoice_at-exists v.id v.project_id v w.db.invoices billed)
                              able.project in
                          let ins = insert_transaction-gives arg stamp w.db _ _ accepted in
                          let placed =
                            Placed-of_Inserted session v TransactionType.pay tx_id body w.db billed
                              _ _ ins in
                          let kept =
                            Step-Inv
                              (opens session v TransactionType.pay tx_id body w.db billed _ _ ins
                                own env {owner = none} tt w.state refl)
                              inv in
                          bind-After _ _ _ (
                            on_error-After _ _ _ (
                              write-Answers env _ _ _ _ (up.answers _) accepted (
                                bind-After _ _ _ (
                                  on_error-After _ _ _ (
                                    execute_pay-Answers env up _ _ _ _ _ λ resp u same approved.
                                      transaction-Answers env _ u up.answers (
                                        record_payment-Answers env up req v
                                          (new_transaction stamp arg) resp (tick u)
                                          (subst Inv (sym same) kept)
                                          (subst
                                            (λ d.
                                              transaction_at stamp.uuid d
                                              ≡ some (new_transaction stamp arg))
                                            (sym same) placed.found)
                                          refl placed.undecided
                                          (subst
                                            (λ d. Bills d.invoices (new_transaction stamp arg) v)
                                            (sym same) placed.bills)
                                          ins.invoice unpaid approved))))))))))))))))

completes :
    (env : Env) (s : Service) (req : FinalizePaymentRequest) (w : World) (up : Reachable env)
    (permit : Permitted req (env.now (suc w.step)) w.db)
    → Payable env s permit.session permit.invoice w.db w.step
    → Inv w.db
    → Answers (Taken env up req permit.invoice) (finalize_payment env s req w)
unfolding finalize_payment get_payment_session_by_id_and_project get_invoice_by_id_and_project
    get_pay_transaction_by_session_id
completes env s req w up permit able inv =
    let session = permit.session in
    let v = permit.invoice in
    let srow : one (session_at req.payment_session_id req.project_id w.db.payment_sessions)
        ≡ gives session =
      rw permit.session_found refl in
    let row : one (invoice_at req.invoice_id req.project_id w.db.invoices) ≡ gives v =
      rw permit.invoice_found refl in
    let same : (session.invoice_id == req.invoice_id) ≡ true =
      rw permit.of_invoice (==_refl req.invoice_id) in
    let billed = own_invoice req.invoice_id req.project_id v w.db row in
    let own =
      own_session req.payment_session_id req.project_id req.invoice_id session v w.db srow same
        row in
    bind-After _ _ _ (
      on_error-After _ _ _ (
        read-Answers env _ w session (up.answers _) srow (
          bind-After _ _ _ (
            guard-Answers _ _ _ same (
              bind-After _ _ _ (
                now-After env _ (
                  bind-After _ _ _ (
                    guard-Answers _ _ _ (rw permit.live refl) (
                      bind-After _ _ _ (
                        on_error-After _ _ _ (
                          read-Answers env _ _ v (up.answers _) row (
                            bind-After _ _ _ (
                              guard-Answers _ _ _ (rw permit.unpaid refl) (
                                bind-After _ _ _ (
                                  attempt-read-After env _ _
                                    (λ t found. absurd (
                                      settled-never env s req.project_id w.state req session v w
                                        start billed permit.unpaid own t found inv))
                                    (λ e.
                                      charge-Answers env up s req session v _ w.step inv
                                        permit.payer able (omega arith) billed permit.unpaid
                                        own))))))))))))))))

-- Where the database answers and the gateway approves, a request to finalise a payment that is
-- permitted, whose session has an account with readable credentials and whose new key is free,
-- returns success, over tables that satisfy the invariant, and leaves its invoice paid, with one
-- successful payment.
pub finalize_payment-completes :
    (env : Env) (s : Service) (req : FinalizePaymentRequest) (w : World) (up : Reachable env)
    (permit : Permitted req (env.now (suc w.step)) w.db)
    → Payable env s permit.session permit.invoice w.db w.step
    → Inv w.db
    → ((finalize_payment env s req w).0 ≡ ok (success_result env req))
      × (paid_flag req.invoice_id (finalize_payment env s req w).1.db.invoices ≡ 1)
      × (payments req.invoice_id (finalize_payment env s req w).1.db.transactions ≡ 1)
finalize_payment-completes env s req w up permit able inv =
    let (r, is, (success, kept, flag)) =
      Answers-result (completes env s req w up permit able inv) in
    let key =
      own_key req.invoice_id req.project_id permit.invoice w.db (rw permit.invoice_found refl) in
    let paid = subst (λ i. paid_flag i (finalize_payment env s req w).1.db.invoices ≡ 1) key flag in
    (is ∙ ap ok success, paid, kept.books req.invoice_id ∙ paid)
