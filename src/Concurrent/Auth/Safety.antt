-- ===== src/Concurrent/Auth/Safety.antt =====
-- `InitiateAuth` and `ProcessAuth` (khazina/internal/payment/service.go) among other programs.
use saftaja.Prelude.{false, ◌≡◌, refl, ap, ◌∙◌, none, some, String}
use saftaja.Domain.{TransactionType, TransactionStatus, is_pay}
use saftaja.Env.{Env}
use saftaja.Exec.{World}
use saftaja.Exec.After.{Runs, write-After}
use saftaja.Mpgs.Client.{new_client}
use saftaja.Store.Rows.{Db, Invoice, Transaction}
use saftaja.Store.Reads.{
  get_payment_session_by_id_and_project, get_invoice_by_id_and_project,
  get_gateway_account_by_payment_session_id, get_latest_transaction,
  get_project_by_payment_session_id,
}
use saftaja.Store.Writes.{update_transaction_status}
use saftaja.Payment.Types.{Service, InitiateAuthRequest, ProcessAuthRequest, failed_to_update}
use saftaja.Ledger.Sql.{one-gives, update_transaction-gives}
use saftaja.Ledger.Inv.{Inv}
use saftaja.Ledger.Decides.{settle-Inv}
use saftaja.Concurrent.Program.{call, returns, rename_error, ◌>>=◌}
use saftaja.Concurrent.Auth.{initiate_auth, process_auth}
use saftaja.Concurrent.Calls.{
  new_uuid-Quiet, initiate_authentication-Quiet, authenticate_payer-Quiet,
}
use saftaja.Concurrent.Change.{Holds, still}
use saftaja.Concurrent.Change.Updates.{decided, decided-Holds}
use saftaja.Concurrent.Ready.{
  Found, Found-Stable, Ready, Ready-Stable, Ready-of_reads, Created, Created-Stable, create-Gave,
}
use saftaja.Concurrent.Safe.{Safe}
use saftaja.Concurrent.Rules.{
  Left, Gave, step-Safe, quiet-Safe, quiet_renamed-Safe, read-Quiet, read-Safe, plain_read-Safe,
  check-Safe, ends-Safe, nothing_known,
}

module _ (env : Env) where
  decide-Gave :
      (v : Invoice) (type : TransactionType)
      → is_pay type ≡ false
      → (t : Transaction) (status : TransactionStatus) (raw : String) (w : World) → Inv w.db
      → Holds (some t.id) w.db
      → Created v type t w.db
      → Runs
          (Left (some t.id) nothing_known w.db)
          (Gave (some t.id) (λ (_ : Unit {0}). some t.id) (λ _. nothing_known) w.db)
          (update_transaction_status env t.id status raw w)
  unfolding update_transaction_status
  decide-Gave v type other t status raw w inv held (found, priced, is) =
      write-After env _ w (still (some t.id) w.db inv, held, tt)
        λ st u d e.
          let tables = update_transaction-gives t.id status raw st w.db u d e in
          let no_payment : is_pay t.transaction_type ≡ false = ap is_pay is.type ∙ other in
          let kept : Inv d =
            rw tables
              (settle-Inv w.db t status raw st.time inv found is.undecided (rw no_payment)) in
          let move = decided w.db t.id status raw st.time kept tables in
          let there =
            decided-Holds w.db t.id status raw st.time d held
              (ap (λ (x : Db). x.transactions) tables) in
          ((move, there, tt), (move, there, tt))

  decide-Safe :
      {A : Type 0} (v : Invoice) (type : TransactionType)
      → is_pay type ≡ false
      → (t : Transaction) (status : TransactionStatus) (raw : String) (a : A)
      → Safe (some t.id) (Created v type t) (
          rename_error failed_to_update (call (update_transaction_status env t.id status raw))
          >>= λ _. returns a)
  decide-Safe v type other t status raw a =
      step-Safe (some t.id) (Created v type t) (λ _. some t.id) (λ _. nothing_known) _ _ _
        (decide-Gave v type other t status raw) (λ x d d' c y. y) (λ x. tt)

  module _ (s : Service) where
    pub initiate_auth-Safe :
        (req : InitiateAuthRequest) → Safe none nothing_known (initiate_auth env s req)
    unfolding initiate_auth get_payment_session_by_id_and_project get_invoice_by_id_and_project
        get_gateway_account_by_payment_session_id
    initiate_auth-Safe req =
        let i = req.payment_session_id in
        let q = req.project_id in
        let type = TransactionType.initiate_authentication in
        read-Safe none nothing_known (Found i q) _ env _ _
          (λ d p session row. one-gives _ session row) (Found-Stable i q)
          λ session. check-Safe none (Found i q session) _ _ _ λ same.
            plain_read-Safe none (Found i q session) (Ready session) env _ _
              (λ d found v row. Ready-of_reads i q req.invoice_id session v d found same row)
              (Ready-Stable session)
              λ v.
                let steady = Ready-Stable session v in
                quiet-Safe none (Ready session v) _ (read-Quiet env _) steady _ λ account.
                  ends-Safe none (Ready session v) _ _ _ λ creds.
                    quiet-Safe none (Ready session v) _ (new_uuid-Quiet env) steady _ λ tx_id.
                      step-Safe none (Ready session v) (λ t. some t.id) (Created v type) _ _ _
                        (λ w inv held ready. create-Gave env session v type _ _ w inv ready)
                        (Created-Stable v type)
                        λ t.
                          quiet_renamed-Safe (some t.id) (Created v type t) _
                            (initiate_authentication-Quiet env (new_client creds) _ _ _)
                            (Created-Stable v type t) _ _ λ resp. decide-Safe v type refl t _ _ _

    pub process_auth-Safe :
        (req : ProcessAuthRequest) → Safe none nothing_known (process_auth env s req)
    unfolding process_auth get_payment_session_by_id_and_project get_invoice_by_id_and_project
        get_gateway_account_by_payment_session_id get_latest_transaction
        get_project_by_payment_session_id
    process_auth-Safe req =
        let i = req.payment_session_id in
        let q = req.project_id in
        let type = TransactionType.authenticate_payer in
        read-Safe none nothing_known (Found i q) _ env _ _
          (λ d p session row. one-gives _ session row) (Found-Stable i q)
          λ session. check-Safe none (Found i q session) _ _ _ λ same.
            plain_read-Safe none (Found i q session) (Ready session) env _ _
              (λ d found v row. Ready-of_reads i q req.invoice_id session v d found same row)
              (Ready-Stable session)
              λ v.
                let steady = Ready-Stable session v in
                quiet_renamed-Safe none (Ready session v) _ (read-Quiet env _) steady _ _ λ last_tx.
                  check-Safe none (Ready session v) _ _ _ λ _.
                    quiet-Safe none (Ready session v) _ (read-Quiet env _) steady _ λ account.
                      quiet-Safe none (Ready session v) _ (read-Quiet env _) steady _ λ project.
                        check-Safe none (Ready session v) _ _ _ λ _.
                          ends-Safe none (Ready session v) _ _ _ λ creds.
                            step-Safe none (Ready session v) (λ t. some t.id) (Created v type) _ _ _
                              (λ w inv held ready. create-Gave env session v type _ _ w inv ready)
                              (Created-Stable v type)
                              λ t.
                                quiet_renamed-Safe (some t.id) (Created v type t) _
                                  (authenticate_payer-Quiet env (new_client creds) _ _ _)
                                  (Created-Stable v type t) _ _
                                  λ resp. decide-Safe v type refl t _ _ _
