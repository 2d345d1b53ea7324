-- ===== src/Concurrent/Initiate/Safety.antt =====
-- `InitiateSession` (khazina/internal/payment/service.go) among other programs.
use saftaja.Prelude.{none, Option, String, Bool-cases, inl, inr, not, str_eq, some}
use saftaja.Env.{Env}
use saftaja.Errors.{is_no_rows}
use saftaja.Exec.{World, Result, ok, err, panic}
use saftaja.Exec.After.{Runs, write-After}
use saftaja.Mpgs.Types.{SessionDetails}
use saftaja.Mpgs.Client.{new_client}
use saftaja.Store.Rows.{Invoice, PaymentSession}
use saftaja.Store.Reads.{
  get_invoice_by_id_and_project, get_payment_session_by_idempotency_key,
  get_gateway_account_by_id_and_project,
}
use saftaja.Store.Writes.{create_payment_session, CreatePaymentSessionParams}
use saftaja.Payment.Types.{Service, InitiateSessionRequest}
use saftaja.Ledger.Sql.{insert_session-gives}
use saftaja.Ledger.Inv.{Inv}
use saftaja.Ledger.Keeps.{open_session-Inv}
use saftaja.Concurrent.Program.{Program, ◌>>=◌}
use saftaja.Concurrent.Initiate.{initiate_session, open_session, reuse, gateway_session_id}
use saftaja.Concurrent.Calls.{create_session-Quiet, update_session-Quiet}
use saftaja.Concurrent.Change.{Move, still}
use saftaja.Concurrent.Change.Inserts.{session_opened}
use saftaja.Concurrent.Safe.{Safe}
use saftaja.Concurrent.Rules.{
  Left, Gave, step-Safe, quiet_renamed-Safe, read-Quiet, catch-Safe, check-Safe, ends-Safe,
  nothing_known,
}

module _ (env : Env) where
  create-Gave :
      (arg : CreatePaymentSessionParams) (w : World)
      → Inv w.db
      → Runs
          (Left none nothing_known w.db)
          (Gave none (λ (_ : PaymentSession). none) (λ _. nothing_known) w.db)
          (create_payment_session env arg w)
  unfolding create_payment_session
  create-Gave arg w inv =
      write-After env _ w (still none w.db inv, tt, tt)
        λ st p d e.
          let ins = insert_session-gives arg st w.db p d e in
          let move : Move none none w.db d = rw ins.tables (
            session_opened w.db p ins.fresh none
              (open_session-Inv w.db p inv ins.status ins.fresh)) in
          ((move, tt, tt), (move, tt, tt))

  details-Safe :
      {A : Type 0} (d : Option SessionDetails) (f : String → Program A)
      → ((id : String) → Safe none nothing_known (f id))
      → Safe none nothing_known (gateway_session_id d >>= f)
  unfolding ◌>>=◌
  details-Safe none f k = tt
  details-Safe (some d) f k = k d.id

  module _ (s : Service) where
    open_session-Safe :
        (req : InitiateSessionRequest) (v : Invoice)
        → Safe none nothing_known (open_session env s req v)
    unfolding open_session get_gateway_account_by_id_and_project
    open_session-Safe req v =
        quiet_renamed-Safe none nothing_known _ (read-Quiet env _) (λ d d' c x. x) _ _
          λ account. ends-Safe none nothing_known _ _ _ λ creds.
            quiet_renamed-Safe none nothing_known _ (create_session-Quiet env (new_client creds) _)
              (λ d d' c x. x) _ _
              λ resp. details-Safe resp.value.session _ λ id.
                step-Safe none nothing_known (λ _. none) (λ _. nothing_known) _ _ _
                  (λ w inv held p. create-Gave _ w inv) (λ a d d' c x. x)
                  λ p.
                    quiet_renamed-Safe none nothing_known _
                      (update_session-Quiet env (new_client creds) _ _) (λ d d' c x. x) _ _ λ _. tt

    reuse-Safe :
        (req : InitiateSessionRequest) (v : Invoice) (r : Result PaymentSession)
        → Safe none nothing_known (reuse env s req v r)
    reuse-Safe req v (ok p) = tt
    reuse-Safe req v (err e) = elim (Bool-cases (not (is_no_rows e))) [
      | inl y ↦ rw y tt
      | inr n ↦ rw n (open_session-Safe req v)
    ]
    reuse-Safe req v panic = tt

    pub initiate_session-Safe :
        (req : InitiateSessionRequest) → Safe none nothing_known (initiate_session env s req)
    unfolding initiate_session get_invoice_by_id_and_project get_payment_session_by_idempotency_key
    initiate_session-Safe req =
        quiet_renamed-Safe none nothing_known _ (read-Quiet env _) (λ d d' c x. x) _ _
          λ v. check-Safe none nothing_known _ _ _ λ unpaid.
            elim (Bool-cases (str_eq req.idempotency_key "")) [
              | inl y ↦ rw y (open_session-Safe req v)
              | inr n ↦ rw n (
                  catch-Safe none nothing_known env _ _ (λ d d' c x. x)
                    λ existing. reuse-Safe req v existing)
            ]
