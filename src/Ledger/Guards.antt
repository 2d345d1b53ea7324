-- ===== src/Ledger/Guards.antt =====
-- What `FinalizePayment` (khazina/internal/payment/service.go) asks for before it does anything.
use saftaja.Prelude.{
  Bool, true, false, ◌≡◌, refl, ◌⊎◌, inl, inr, some, ==-eq, keep, arith, suc, if◌then◌else◌,
}
use saftaja.Domain.{Time, is_paid, is_success}
use saftaja.Env.{Env}
use saftaja.Exec.{State, World, ok, pure}
use saftaja.Exec.After.{
  Runs, bind-After, on_error-After, read-After, guard-After, now-After, attempt-read-After,
  Runs-final, Runs-ok, Runs-always, Runs-map,
}
use saftaja.Store.Rows.{Db, Invoice, PaymentSession, Transaction}
use saftaja.Store.Reads.{
  latest, get_payment_session_by_id_and_project, get_invoice_by_id_and_project,
  get_pay_transaction_by_session_id, get_successful_auth_transaction,
}
use saftaja.Store.Latest.{authenticates}
use saftaja.Payment.Types.{Service, FinalizePaymentRequest, FinalizePaymentResult}
use saftaja.Payment.Finalize.{finalize_payment, charge, is_expired, success_result}
use saftaja.Ledger.Step.{invoice_at, session_at, start}
use saftaja.Ledger.Sql.{one-gives}
use saftaja.Ledger.Inv.{Inv}
use saftaja.Ledger.Placed.{own_invoice, own_session}
use saftaja.Ledger.Refines.Finalize.{settled-never}

abbrev pub Payer : Db → PaymentSession → Type 0
Payer d session =
    (t : Transaction) × (latest (keep (authenticates session.id) d.transactions) ≡ some t)

-- The request names a session of its project and invoice that has not expired at `time`, the
-- invoice is not paid, and a payer has authenticated in the session.
pub record Permitted (req : FinalizePaymentRequest) (time : Time) (d : Db) : Type 0 where
  pub session : PaymentSession
  pub session_found :
      session_at req.payment_session_id req.project_id d.payment_sessions ≡ some session
  pub of_invoice : session.invoice_id ≡ req.invoice_id
  pub live : is_expired session.expires_at time ≡ false
  pub invoice : Invoice
  pub invoice_found : invoice_at req.invoice_id req.project_id d.invoices ≡ some invoice
  pub unpaid : is_paid invoice.status ≡ false
  pub payer : Payer d session

module _ (env : Env) (s : Service) (req : FinalizePaymentRequest) (w0 : World)
    (inv : Inv w0.db) where
  -- when `time.Now` is called
  abbrev Allowed : Type 0
  Allowed = Permitted req (env.now (suc w0.step)) w0.db

  abbrev Unmoved : State → Type 0
  Unmoved t = (t ≡ w0.state) ⊎ Allowed

  charge-guarded :
      (session : PaymentSession) (v : Invoice) (w : World)
      → w.state ≡ w0.state
      → (Payer w.db session → Allowed)
      → Runs Unmoved (λ _ _. Allowed) (charge env s req session v w)
  unfolding charge get_successful_auth_transaction
  charge-guarded session v w h allow = bind-After _ _ _ (
      on_error-After _ _ _ (
        read-After env _ _ (inl h) λ auth_tx row.
          let a = allow (auth_tx, one-gives _ auth_tx row) in
          Runs-always (λ _. inr a) (λ _ _. a) _))

  settled-guarded :
      (session : PaymentSession) (v : Invoice) (w : World)
      → w.state ≡ w0.state
      → (Payer w.db session → Allowed)
      → (b : Bool) → (b ≡ true → ⊥)
      → Runs Unmoved
          (λ _ _. Allowed)
          ((if b then pure (success_result env req) else charge env s req session v) w)
  settled-guarded session v w h allow true never = absurd (never refl)
  settled-guarded session v w h allow false never = charge-guarded session v w h allow

  guarded-Runs : Runs Unmoved (λ _ _. Allowed) (finalize_payment env s req w0)
  unfolding finalize_payment get_payment_session_by_id_and_project get_invoice_by_id_and_project
      get_pay_transaction_by_session_id
  guarded-Runs = bind-After _ _ _ (
      on_error-After _ _ _ (
        read-After env _ _ (inl refl) λ session srow. bind-After _ _ _ (
          guard-After _ _ _ (inl refl) λ same. bind-After _ _ _ (
            now-After env _ (
              bind-After _ _ _ (
                guard-After _ _ _ (inl refl) λ live. bind-After _ _ _ (
                  on_error-After _ _ _ (
                    read-After env _ _ (inl refl) λ v row. bind-After _ _ _ (
                      guard-After _ _ _ (inl refl) λ unpaid.
                        let expired : is_expired session.expires_at (env.now (suc w0.step))
                            ≡ false =
                          ground arith in
                        let open_invoice : is_paid v.status ≡ false = ground arith in
                        let permit : Payer w0.db session → Allowed = λ payer. record {
                          session = session;
                          session_found = one-gives _ session srow;
                          of_invoice = ==-eq session.invoice_id req.invoice_id same;
                          live = expired;
                          invoice = v;
                          invoice_found = one-gives _ v row;
                          unpaid = open_invoice;
                          payer = payer;
                        } in
                        let billed = own_invoice req.invoice_id req.project_id v w0.db row in
                        let own =
                          own_session req.payment_session_id req.project_id req.invoice_id session v
                            w0.db srow same row in
                        bind-After _ _ _ (
                          attempt-read-After env _ _
                            (λ t found.
                              settled-guarded session v _ refl permit (is_success t.status) (λ _.
                                settled-never env s req.project_id w0.state req session v w0 start
                                  billed open_invoice own t found inv))
                            (λ e. charge-guarded session v _ refl permit)))))))))))

-- Over tables that satisfy the invariant, `FinalizePayment` changes no table and sends nothing to the
-- gateway unless the request is permitted: its session and invoice are of the project, the session
-- is of the invoice and has not expired, the invoice is unpaid, and the payer has authenticated.
pub finalize_payment-Permitted :
    (env : Env) (s : Service) (req : FinalizePaymentRequest) (w : World)
    → Inv w.db
    → ((finalize_payment env s req w).1.state ≡ w.state) ⊎ Permitted req (env.now (suc w.step)) w.db
finalize_payment-Permitted env s req w inv =
    Runs-final (Runs-map (λ _ _. inr) (guarded-Runs env s req w inv))

-- Over tables that satisfy the invariant, `FinalizePayment` gives a result, of success or of a
-- decline, only to a permitted request.
pub finalize_payment-ok_Permitted :
    (env : Env) (s : Service) (req : FinalizePaymentRequest) (w : World) (r : FinalizePaymentResult)
    → Inv w.db
    → (finalize_payment env s req w).0 ≡ ok r
    → Permitted req (env.now (suc w.step)) w.db
finalize_payment-ok_Permitted env s req w r inv e = Runs-ok (guarded-Runs env s req w inv) e
