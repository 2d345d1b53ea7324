-- ===== src/Ledger/Refines/Finalize.antt =====
-- `FinalizePayment` (khazina/internal/payment/service.go) against the steps of the specification.
use mathlib.Core.Path.{subst}
use mathlib.Core.Bool.{false≢true}
use saftaja.Prelude.{
  List, none, find?, Bool, true, false, ◌≡◌, refl, sym, ap, ◌∙◌, some, arith, if◌then◌else◌,
}
use saftaja.Domain.{Uuid, TransactionType, is_paid, is_pay, is_success}
use saftaja.Env.{Env}
use saftaja.Exec.{State, World, gives, pure, ok}
use saftaja.Exec.After.{
  Runs, bind-After, on_error-After, pure-After, lift-After, read-After, write-After, guard-After,
  Runs-final, Runs-map, Runs-ok, now-After, new_uuid-After, attempt-read-After, transaction-After,
}
use saftaja.Mpgs.Client.{new_client}
use saftaja.Mpgs.Calls.{execute_pay-After}
use saftaja.Store.Rows.{Db, Invoice, PaymentSession, Transaction}
use saftaja.Store.Reads.{
  one, get_payment_session_by_id_and_project, get_invoice_by_id_and_project,
  get_pay_transaction_by_session_id, get_successful_auth_transaction,
  get_gateway_account_by_payment_session_id,
}
use saftaja.Store.Writes.{create_transaction}
use saftaja.Payment.Types.{Service, FinalizePaymentRequest, FinalizePaymentResult}
use saftaja.Payment.Finalize.{finalize_payment, charge, pay_request, success_result}
use saftaja.Ledger.Step.{
  History, start, next, charge as charge_step, invoice_at, session_at, with_tables,
}
use saftaja.Ledger.Sql.{one-gives, insert_transaction-gives}
use saftaja.Ledger.Placed.{
  Placed-of_Inserted, opens, own_invoice, own_session, own_key, own_project,
}
use saftaja.Ledger.Inv.{Inv}
use saftaja.Ledger.Keeps.{History-Inv}
use saftaja.Ledger.Settled.{settled_in, settled_in-none}
use saftaja.Ledger.Refines.Recording.{Agrees, record_payment-Runs}

some≢none : {A : Type 0} {a : A} → some a ≡ none → ⊥
some≢none h = cc

module _ (env : Env) (s : Service) (q : Uuid) (s0 : State) where
  abbrev Past : State → Type 0
  Past = History env (some q) s0

  abbrev Ends : Uuid → List Invoice → FinalizePaymentResult → World → Type 0
  Ends i before r v = Past v.state × (Inv s0.db → Agrees i before r v.db)

  charge-Runs :
      (req : FinalizePaymentRequest) (session : PaymentSession) (v : Invoice) (w : World)
      → Past w.state
      → invoice_at v.id v.project_id w.db.invoices ≡ some v
      → is_paid v.status ≡ false
      → (session_at session.id v.project_id w.db.payment_sessions ≡ some session)
        × (session.invoice_id ≡ v.id)
      → v.project_id ≡ q
      → (i : Uuid) → v.id ≡ i
      → Runs Past (Ends i w.db.invoices) (charge env s req session v w)
  unfolding charge get_successful_auth_transaction get_gateway_account_by_payment_session_id
      create_transaction
  charge-Runs req session v w h billed unpaid own whose i key = bind-After _ _ _ (
      on_error-After _ _ _ (
        read-After env _ _ h λ auth_tx _. bind-After _ _ _ (
          read-After env _ _ h λ account _. bind-After _ _ _ (
            on_error-After _ _ _ (
              lift-After _ _ h λ creds _. bind-After _ _ _ (
                new_uuid-After env _ (
                  bind-After _ _ _ (
                    on_error-After _ _ _ (
                      write-After env _ _ h λ st t d e.
                        let ins = insert_transaction-gives _ st w.db t d e in
                        let p =
                          Placed-of_Inserted session v TransactionType.pay _ _ w.db billed t d
                            ins in
                        let opened : Past (with_tables w.state d) = next h (
                          opens session v TransactionType.pay _ _ w.db billed t d ins own env
                            (ins.project ∙ whose) w.state refl) in
                        let is_payment : is_pay t.transaction_type ≡ true = ap is_pay ins.type in
                        let charged = next opened (
                          charge_step _ (pay_request env v session auth_tx) t v refl p.found
                            is_payment p.undecided p.bills unpaid refl refl refl
                            (ins.project ∙ whose) refl) in
                        (
                          opened,
                          bind-After _ _ _ (
                              on_error-After _ _ _ (
                                execute_pay-After env (new_client creds) _ _ _ _ charged λ resp.
                                  transaction-After env _ _ charged (
                                    record_payment-Runs env s q s0 req t v v.id ins.invoice
                                      resp.raw_body _ charged p is_payment (ins.project ∙ whose) i
                                      key w.db.invoices (ap (λ (x : Db). x.invoices) ins.tables)
                                      resp refl unpaid))),
                        ))))))))))

  -- The branch for a session that has paid already is not reached: its invoice would be paid.
  pub settled-never :
      (req : FinalizePaymentRequest) (session : PaymentSession) (v : Invoice) (w : World)
      → Past w.state
      → invoice_at v.id v.project_id w.db.invoices ≡ some v
      → is_paid v.status ≡ false
      → (session_at session.id v.project_id w.db.payment_sessions ≡ some session)
        × (session.invoice_id ≡ v.id)
      → (t : Transaction) → one (find? (settled_in session.id) w.db.transactions) ≡ gives t
      → Inv s0.db
      → ⊥
  settled-never req session v w h billed unpaid own t row inv =
      let none_found =
        settled_in-none w.db v.project_id v.project_id session v (History-Inv h inv) own.0
          (subst (λ x. invoice_at x v.project_id w.db.invoices ≡ some v) (sym own.1) billed)
          unpaid in
      some≢none (sym (one-gives _ t row) ∙ none_found)

  finish-Runs :
      (req : FinalizePaymentRequest) (session : PaymentSession) (v : Invoice) (w : World)
      → Past w.state
      → invoice_at v.id v.project_id w.db.invoices ≡ some v
      → is_paid v.status ≡ false
      → (session_at session.id v.project_id w.db.payment_sessions ≡ some session)
        × (session.invoice_id ≡ v.id)
      → v.project_id ≡ q
      → (b : Bool) → (b ≡ true → Inv s0.db → ⊥)
      → (i : Uuid) → v.id ≡ i
      → Runs Past
          (Ends i w.db.invoices)
          ((if b then pure (success_result env req) else charge env s req session v) w)
  finish-Runs req session v w h billed unpaid own whose true never i key =
      pure-After _ _ (h, λ inv. absurd (never refl inv))
  finish-Runs req session v w h billed unpaid own whose false never i key =
      charge-Runs req session v w h billed unpaid own whose i key

  finalize-Runs :
      (req : FinalizePaymentRequest) (w : World)
      → req.project_id ≡ q
      → Past w.state
      → Runs Past (Ends req.invoice_id w.db.invoices) (finalize_payment env s req w)
  unfolding finalize_payment get_payment_session_by_id_and_project get_invoice_by_id_and_project
      get_pay_transaction_by_session_id
  finalize-Runs req w mine h = bind-After _ _ _ (
      on_error-After _ _ _ (
        read-After env _ _ h λ session srow. bind-After _ _ _ (
          guard-After _ _ _ h λ same. bind-After _ _ _ (
            now-After env _ (
              bind-After _ _ _ (
                guard-After _ _ _ h λ _. bind-After _ _ _ (
                  on_error-After _ _ _ (
                    read-After env _ _ h λ v row. bind-After _ _ _ (
                      guard-After _ _ _ h λ unpaid.
                        let billed = own_invoice req.invoice_id req.project_id v w.db row in
                        let own =
                          own_session req.payment_session_id req.project_id req.invoice_id session v
                            w.db srow same row in
                        let u : is_paid v.status ≡ false = ground arith in
                        let whose : v.project_id ≡ q =
                          own_project req.invoice_id req.project_id v w.db row ∙ mine in
                        let key = own_key req.invoice_id req.project_id v w.db row in
                        bind-After _ _ _ (
                          attempt-read-After env _ _
                            (λ t found.
                              finish-Runs req session v _ h billed u own whose (is_success t.status)
                                (λ _. settled-never req session v w h billed u own t found)
                                req.invoice_id key)
                            (λ e.
                              finish-Runs req session v _ h billed u own whose false
                                (λ x. absurd (false≢true x)) req.invoice_id key)))))))))))

-- However it ends, and whatever the database and the gateway answer, `FinalizePayment` takes the
-- tables and the requests to the gateway only through steps of the specification, for the project of
-- the request.
pub finalize_payment-History :
    (env : Env) (s : Service) (req : FinalizePaymentRequest) (w : World)
    → History env (some req.project_id) w.state (finalize_payment env s req w).1.state
finalize_payment-History env s req w =
    Runs-final
      (Runs-map (λ a v k. k.0) (finalize-Runs env s req.project_id w.state req w refl start))

-- Over tables that satisfy the invariant, a result of `FinalizePayment` agrees with the invoice of
-- the request: if it says success the invoice is paid, and if not no invoice has changed.
pub finalize_payment-Agrees :
    (env : Env) (s : Service) (req : FinalizePaymentRequest) (w : World) (r : FinalizePaymentResult)
    → Inv w.db
    → (finalize_payment env s req w).0 ≡ ok r
    → Agrees req.invoice_id w.db.invoices r (finalize_payment env s req w).1.db
finalize_payment-Agrees env s req w r inv e =
    (Runs-ok (finalize-Runs env s req.project_id w.state req w refl start) e).1 inv
