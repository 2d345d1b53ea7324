-- ===== src/Ledger/Refines/Auth.antt =====
-- `InitiateAuth` and `ProcessAuth` (khazina/internal/payment/service.go) against the steps of the
-- specification.
use saftaja.Prelude.{false, ◌≡◌, refl, ap, ◌∙◌, some, String}
use saftaja.Domain.{Uuid, TransactionType, TransactionStatus, is_pay}
use saftaja.Env.{Env}
use saftaja.Exec.{State, World}
use saftaja.Exec.After.{
  Runs, bind-After, on_error-After, pure-After, lift-After, read-After, write-After, guard-After,
  new_uuid-After, Runs-final,
}
use saftaja.Mpgs.Client.{new_client}
use saftaja.Mpgs.Calls.{initiate_authentication-After, authenticate_payer-After}
use saftaja.Store.Rows.{Invoice, Transaction}
use saftaja.Store.Reads.{
  get_payment_session_by_id_and_project, get_invoice_by_id_and_project,
  get_gateway_account_by_payment_session_id, get_latest_transaction,
  get_project_by_payment_session_id,
}
use saftaja.Store.Writes.{create_transaction, update_transaction_status}
use saftaja.Payment.Types.{Service, InitiateAuthRequest, ProcessAuthRequest}
use saftaja.Payment.Auth.{initiate_auth, process_auth}
use saftaja.Ledger.Step.{History, start, next, ask, settle, with_tables}
use saftaja.Ledger.Sql.{insert_transaction-gives, update_transaction-gives}
use saftaja.Ledger.Placed.{Placed, Placed-of_Inserted, opens, own_invoice, own_session, own_project}

module _ (env : Env) (s : Service) (q : Uuid) (s0 : State) where
  abbrev Past : State → Type 0
  Past = History env (some q) s0

  abbrev Ends : {A : Type 0} → A → World → Type 0
  Ends _ v = Past v.state

  -- The decision of an authentication, after the gateway's answer.
  decide-Runs :
      {K : Unit {0} → World → Type 0} (t : Transaction) (v : Invoice) (status : TransactionStatus)
      (raw : String) (w : World)
      → Past w.state
      → Placed w.db t v
      → is_pay t.transaction_type ≡ false
      → t.project_id ≡ q
      → ((x : Unit {0}) (u : World) → Past u.state → K x u)
      → Runs Past K (update_transaction_status env t.id status raw w)
  unfolding update_transaction_status
  decide-Runs t v status raw w h p no_payment whose k = write-After env _ _ h λ st u d e.
      let past : Past (with_tables w.state d) = next h (
        settle t status raw st.time p.found p.undecided (rw no_payment) whose
          (ap (with_tables w.state) (update_transaction-gives t.id status raw st w.db u d e))) in
      (past, k u _ past)

  initiate-Runs :
      (req : InitiateAuthRequest) (w : World)
      → req.project_id ≡ q
      → Past w.state
      → Runs Past Ends (initiate_auth env s req w)
  unfolding initiate_auth get_payment_session_by_id_and_project get_invoice_by_id_and_project
      get_gateway_account_by_payment_session_id create_transaction
  initiate-Runs req w mine h = bind-After _ _ _ (
      on_error-After _ _ _ (
        read-After env _ _ h λ session srow. bind-After _ _ _ (
          guard-After _ _ _ h λ same. bind-After _ _ _ (
            read-After env _ _ h λ v row. bind-After _ _ _ (
              read-After env _ _ h λ account _. bind-After _ _ _ (
                on_error-After _ _ _ (
                  lift-After _ _ h λ creds _. bind-After _ _ _ (
                    new_uuid-After env _ (
                      bind-After _ _ _ (
                        on_error-After _ _ _ (
                          write-After env _ _ h λ st t d e.
                            let billed = own_invoice req.invoice_id req.project_id v w.db row in
                            let own =
                              own_session req.payment_session_id req.project_id req.invoice_id
                                session v w.db srow same row in
                            let ins = insert_transaction-gives _ st w.db t d e in
                            let whose : t.project_id ≡ q =
                              ins.project
                              ∙ own_project req.invoice_id req.project_id v w.db row
                              ∙ mine in
                            let p =
                              Placed-of_Inserted session v TransactionType.initiate_authentication _
                                _ w.db billed t d ins in
                            let opened : Past (with_tables w.state d) = next h (
                              opens session v TransactionType.initiate_authentication _ _ w.db
                                billed t d ins own env whose w.state refl) in
                            let asked = next opened (ask _ refl refl) in
                            (
                              opened,
                              bind-After _ _ _ (
                                  on_error-After _ _ _ (
                                    initiate_authentication-After env (new_client creds) _ _ _ _
                                      asked
                                      λ resp. bind-After _ _ _ (
                                        on_error-After _ _ _ (
                                          decide-Runs t v _ _ _ asked p (ap is_pay ins.type) whose
                                            λ x u past. pure-After _ _ past)))),
                            ))))))))))))

  process-Runs :
      (req : ProcessAuthRequest) (w : World)
      → req.project_id ≡ q
      → Past w.state
      → Runs Past Ends (process_auth env s req w)
  unfolding process_auth get_payment_session_by_id_and_project get_invoice_by_id_and_project
      get_gateway_account_by_payment_session_id create_transaction get_latest_transaction
      get_project_by_payment_session_id
  process-Runs req w mine h = bind-After _ _ _ (
      on_error-After _ _ _ (
        read-After env _ _ h λ session srow. bind-After _ _ _ (
          guard-After _ _ _ h λ same. bind-After _ _ _ (
            read-After env _ _ h λ v row. bind-After _ _ _ (
              on_error-After _ _ _ (
                read-After env _ _ h λ last_tx _. bind-After _ _ _ (
                  guard-After _ _ _ h λ _. bind-After _ _ _ (
                    read-After env _ _ h λ account _. bind-After _ _ _ (
                      read-After env _ _ h λ project _. bind-After _ _ _ (
                        guard-After _ _ _ h λ _. bind-After _ _ _ (
                          on_error-After _ _ _ (
                            lift-After _ _ h λ creds _. bind-After _ _ _ (
                              on_error-After _ _ _ (
                                write-After env _ _ h λ st t d e.
                                  let billed =
                                    own_invoice req.invoice_id req.project_id v w.db row in
                                  let own =
                                    own_session req.payment_session_id req.project_id req.invoice_id
                                      session v w.db srow same row in
                                  let ins = insert_transaction-gives _ st w.db t d e in
                                  let whose : t.project_id ≡ q =
                                    ins.project
                                    ∙ own_project req.invoice_id req.project_id v w.db row
                                    ∙ mine in
                                  let p =
                                    Placed-of_Inserted session v TransactionType.authenticate_payer
                                      _ _ w.db billed t d ins in
                                  let opened : Past (with_tables w.state d) = next h (
                                    opens session v TransactionType.authenticate_payer _ _ w.db
                                      billed t d ins own env whose w.state refl) in
                                  let asked = next opened (ask _ refl refl) in
                                  (
                                    opened,
                                    bind-After _ _ _ (
                                        on_error-After _ _ _ (
                                          authenticate_payer-After env (new_client creds) _ _ _ _
                                            asked
                                            λ resp. bind-After _ _ _ (
                                              on_error-After _ _ _ (
                                                decide-Runs t v _ _ _ asked p (ap is_pay ins.type)
                                                  whose λ x u past. pure-After _ _ past)))),
                                  )))))))))))))))

-- However it ends, `InitiateAuth` takes only steps of the specification, for the project of the
-- request.
pub initiate_auth-History :
    (env : Env) (s : Service) (req : InitiateAuthRequest) (w : World)
    → History env (some req.project_id) w.state (initiate_auth env s req w).1.state
initiate_auth-History env s req w =
    Runs-final (initiate-Runs env s req.project_id w.state req w refl start)

-- However it ends, `ProcessAuth` takes only steps of the specification, for the project of the
-- request.
pub process_auth-History :
    (env : Env) (s : Service) (req : ProcessAuthRequest) (w : World)
    → History env (some req.project_id) w.state (process_auth env s req w).1.state
process_auth-History env s req w =
    Runs-final (process-Runs env s req.project_id w.state req w refl start)
