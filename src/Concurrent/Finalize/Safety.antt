-- ===== src/Concurrent/Finalize/Safety.antt =====
-- `FinalizePayment` (khazina/internal/payment/service.go) among other programs.
use saftaja.Ledger.Sql.{one-gives}
use saftaja.Prelude.{Bool, true, false, none, if◌then◌else◌}
use saftaja.Env.{Env}
use saftaja.Store.Rows.{Invoice, PaymentSession}
use saftaja.Store.Reads.{
  get_payment_session_by_id_and_project, get_invoice_by_id_and_project,
  get_pay_transaction_by_session_id,
}
use saftaja.Payment.Types.{Service, FinalizePaymentRequest}
use saftaja.Payment.Finalize.{is_settled, success_result}
use saftaja.Concurrent.Program.{returns}
use saftaja.Concurrent.Finalize.{finalize_payment, charge}
use saftaja.Concurrent.Finalize.Charged.{charge-Safe}
use saftaja.Concurrent.Calls.{now-Quiet}
use saftaja.Concurrent.Ready.{Found, Found-Stable, Ready, Ready-Stable, Ready-of_reads}
use saftaja.Concurrent.Safe.{Safe}
use saftaja.Concurrent.Rules.{quiet-Safe, read-Safe, catch-Safe, check-Safe, nothing_known}

module _ (env : Env) (s : Service) where
  finish-Safe :
      (b : Bool) (req : FinalizePaymentRequest) (session : PaymentSession) (v : Invoice)
      → Safe none
          (Ready session v)
          (if b then returns (success_result env req) else charge env s req session v)
  finish-Safe true req session v = tt
  finish-Safe false req session v = charge-Safe env s req session v

  pub finalize_payment-Safe :
      (req : FinalizePaymentRequest) → Safe none nothing_known (finalize_payment env s req)
  unfolding finalize_payment get_payment_session_by_id_and_project get_invoice_by_id_and_project
      get_pay_transaction_by_session_id
  finalize_payment-Safe req =
      let i = req.payment_session_id in
      let q = req.project_id in
      read-Safe none nothing_known (Found i q) _ env _ _
        (λ d p session row. one-gives _ session row) (Found-Stable i q)
        λ session. check-Safe none (Found i q session) _ _ _ λ same.
          quiet-Safe none (Found i q session) _ (now-Quiet env) (Found-Stable i q session) _ λ time.
            check-Safe none (Found i q session) _ _ _ λ live.
              read-Safe none (Found i q session) (Ready session) _ env _ _
                (λ d found v row. Ready-of_reads i q req.invoice_id session v d found same row)
                (Ready-Stable session)
                λ v. check-Safe none (Ready session v) _ _ _ λ unpaid.
                  catch-Safe none (Ready session v) env _ _ (Ready-Stable session v)
                    λ existing. finish-Safe (is_settled existing) req session v
