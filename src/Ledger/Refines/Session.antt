-- ===== src/Ledger/Refines/Session.antt =====
-- `InitiateSession` (khazina/internal/payment/service.go) against the steps of the specification.
use saftaja.Prelude.{
  false, ◌≡◌, refl, ap, ◌∙◌, some, none, Option, String, arith, Bool-cases, inl, inr, str_eq,
}
use saftaja.Domain.{is_paid}
use saftaja.Env.{Env}
use saftaja.Errors.{is_no_rows}
use saftaja.Exec.{State, World, Result, ok, err, panic}
use saftaja.Exec.After.{
  Runs, bind-After, on_error-After, pure-After, raise-After, crash-After, lift-After, read-After,
  write-After, guard-After, attempt-read-After, Runs-final, after_sending,
}
use saftaja.Mpgs.Types.{Body, SessionDetails}
use saftaja.Mpgs.Client.{new_client, request, merchant_path, ◌<>◌}
use saftaja.Mpgs.Calls.{create_session-After, update_session-After}
use saftaja.Store.Rows.{Invoice, PaymentSession}
use saftaja.Store.Reads.{
  get_invoice_by_id_and_project, get_payment_session_by_idempotency_key,
  get_gateway_account_by_id_and_project,
}
use saftaja.Store.Writes.{create_payment_session}
use saftaja.Payment.Types.{Service, InitiateSessionRequest}
use saftaja.Payment.Initiate.{
  initiate_session, open_session, reuse, gateway_session_id, session_params, session_request,
}
use saftaja.Ledger.Step.{
  History, start, next, ask, open_session as open_step, with_tables, invoice_at,
}
use saftaja.Ledger.Sql.{insert_session-gives}
use saftaja.Ledger.Placed.{own_invoice, own_account, own_project}

module _ (env : Env) (s : Service) (s0 : State) (req : InitiateSessionRequest) where
  abbrev Past : State → Type 0
  Past = History env (some req.project_id) s0

  abbrev Ends : {A : Type 0} → A → World → Type 0
  Ends _ v = Past v.state

  gateway_session-Runs :
      {K : String → World → Type 0} (d : Option SessionDetails) (w : World)
      → Past w.state
      → ((id : String) → K id w)
      → Runs Past K (gateway_session_id d w)
  gateway_session-Runs none w h k = crash-After w h
  gateway_session-Runs (some d) w h k = pure-After _ w (k d.id)

  open-Runs :
      (v : Invoice) (w : World)
      → Past w.state
      → invoice_at v.id v.project_id w.db.invoices ≡ some v
      → v.project_id ≡ req.project_id
      → is_paid v.status ≡ false
      → Runs Past Ends (open_session env s req v w)
  unfolding open_session get_gateway_account_by_id_and_project create_payment_session
  open-Runs v w h billed project unpaid = bind-After _ _ _ (
      on_error-After _ _ _ (
        read-After env _ _ h λ account row. bind-After _ _ _ (
          on_error-After _ _ _ (
            lift-After _ _ h λ creds _.
              let s1 =
                after_sending
                  (request (new_client creds) "POST"
                    (merchant_path (new_client creds) <> "/session")
                    (Body.create_session session_request))
                  w.state in
              let asked : Past s1 = next h (ask _ refl refl) in
              bind-After _ _ _ (
                on_error-After _ _ _ (
                  create_session-After env (new_client creds) _ _ asked λ resp. bind-After _ _ _ (
                    gateway_session-Runs resp.value.session _ asked λ id. bind-After _ _ _ (
                      on_error-After _ _ _ (
                        write-After env _ _ asked λ st p d e.
                          let ins =
                            insert_session-gives (session_params req v account id) st w.db p d e in
                          let opened : Past (with_tables s1 d) = next asked (
                            open_step p v account (rw (ins.invoice, ins.project) billed) unpaid
                              (rw (ins.account, ins.project, project)
                                (own_account req.gateway_account_id req.project_id account w.db
                                  row))
                              ins.status ins.fresh (ins.project ∙ project)
                              (ap (with_tables s1) ins.tables)) in
                          let told = next opened (ask _ refl refl) in
                          (
                            opened,
                            bind-After _ _ _ (
                                on_error-After _ _ _ (
                                  update_session-After env (new_client creds) _ _ _ told
                                    λ _. pure-After _ _ told)),
                          ))))))))))

  reuse-Runs :
      (v : Invoice) (r : Result PaymentSession) (w : World)
      → Past w.state
      → invoice_at v.id v.project_id w.db.invoices ≡ some v
      → v.project_id ≡ req.project_id
      → is_paid v.status ≡ false
      → Runs Past Ends (reuse env s req v r w)
  reuse-Runs v (ok p) w h billed project unpaid = pure-After _ w h
  reuse-Runs v (err e) w h billed project unpaid = elim (Bool-cases (is_no_rows e)) [
    | inl y ↦ rw y (open-Runs v w h billed project unpaid)
    | inr n ↦ rw n (raise-After _ w h)
  ]
  reuse-Runs v panic w h billed project unpaid = crash-After w h

  initiate-Runs : (w : World) → Past w.state → Runs Past Ends (initiate_session env s req w)
  unfolding initiate_session get_invoice_by_id_and_project get_payment_session_by_idempotency_key
  initiate-Runs w h = bind-After _ _ _ (
      on_error-After _ _ _ (
        read-After env _ _ h λ v row. bind-After _ _ _ (
          guard-After _ _ _ h λ unpaid.
            let billed = own_invoice req.invoice_id req.project_id v w.db row in
            let project = own_project req.invoice_id req.project_id v w.db row in
            let u : is_paid v.status ≡ false = ground arith in
            elim (Bool-cases (str_eq req.idempotency_key "")) [
              | inl e ↦ rw e (open-Runs v _ h billed project u)
              | inr n ↦ rw n (
                  bind-After _ _ _ (
                    attempt-read-After env _ _ (λ p _. reuse-Runs v (ok p) _ h billed project u)
                      (λ x. reuse-Runs v (err x) _ h billed project u)))
            ])))

-- However it ends, `InitiateSession` takes only steps of the specification, for the project of
-- the request.
pub initiate_session-History :
    (env : Env) (s : Service) (req : InitiateSessionRequest) (w : World)
    → History env (some req.project_id) w.state (initiate_session env s req w).1.state
initiate_session-History env s req w = Runs-final (initiate-Runs env s w.state req w start)
