-- ===== src/Concurrent/Finalize/Charged.antt =====
-- The part of `FinalizePayment` that charges the payer, among other programs.
use saftaja.Prelude.{none, some}
use saftaja.Domain.{TransactionType}
use saftaja.Env.{Env}
use saftaja.Exec.{transaction}
use saftaja.Exec.After.{Runs-weaken}
use saftaja.Mpgs.Types.{ExecutePayResponse, Response}
use saftaja.Mpgs.Client.{new_client}
use saftaja.Store.Rows.{Invoice, PaymentSession, Transaction}
use saftaja.Store.Reads.{get_successful_auth_transaction, get_gateway_account_by_payment_session_id}
use saftaja.Payment.Types.{Service, FinalizePaymentRequest}
use saftaja.Payment.Finalize.{record_payment}
use saftaja.Concurrent.Program.{ends, call}
use saftaja.Concurrent.Finalize.{charge}
use saftaja.Concurrent.Finalize.Recorded.{recording-Good}
use saftaja.Concurrent.Calls.{new_uuid-Quiet, execute_pay-Quiet}
use saftaja.Concurrent.Ready.{Ready, Ready-Stable, Created, Created-Stable, create-Gave}
use saftaja.Concurrent.Safe.{Safe}
use saftaja.Concurrent.Rules.{
  call-Safe, step-Safe, quiet-Safe, quiet_renamed-Safe, read-Quiet, ends-Safe, nothing_known,
}

module _ (env : Env) (s : Service) where
  recorded :
      (req : FinalizePaymentRequest) (v : Invoice) (t : Transaction)
      (resp : Response ExecutePayResponse)
      → Safe
          (some t.id)
          (Created v TransactionType.pay t)
          (call (transaction env (record_payment env req v.id t.id resp)))
  recorded req v t resp =
      call-Safe (some t.id) (Created v TransactionType.pay t) nothing_known (λ _. some t.id)
        (λ _. nothing_known) _ ends
        (λ w inv held p.
          Runs-weaken (λ u g. (g.0, g.1, tt)) (λ a u g. (g.0, g.1, tt))
            (recording-Good env req v t w inv held p resp))
        (λ a d d' c x. x) (λ d d' c x. x) (λ a. tt) (λ e. tt) tt

  pub charge-Safe :
      (req : FinalizePaymentRequest) (session : PaymentSession) (v : Invoice)
      → Safe none (Ready session v) (charge env s req session v)
  unfolding charge get_successful_auth_transaction get_gateway_account_by_payment_session_id
  charge-Safe req session v =
      let steady = Ready-Stable session v in
      quiet_renamed-Safe none (Ready session v) _ (read-Quiet env _) steady _ _ λ auth_tx.
        quiet-Safe none (Ready session v) _ (read-Quiet env _) steady _ λ account.
          ends-Safe none (Ready session v) _ _ _ λ creds.
            quiet-Safe none (Ready session v) _ (new_uuid-Quiet env) steady _ λ gateway_tx_id.
              step-Safe none (Ready session v) (λ t. some t.id) (Created v TransactionType.pay) _ _
                _
                (λ w inv held ready. create-Gave env session v TransactionType.pay _ _ w inv ready)
                (Created-Stable v TransactionType.pay)
                λ t.
                  quiet_renamed-Safe (some t.id) (Created v TransactionType.pay t) _
                    (execute_pay-Quiet env (new_client creds) _ _ _)
                    (Created-Stable v TransactionType.pay t) _ _ λ resp. recorded req v t resp
