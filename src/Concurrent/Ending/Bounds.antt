-- ===== src/Concurrent/Ending/Bounds.antt =====
-- How many calls of the database, the clock and the gateway the operations of `Service` in
-- khazina/internal/payment/service.go and in khazina/internal/admin/service.go make at most.
use saftaja.Prelude.{
  ℕ, ◌≤◌, Bool, true, false, ◌≡◌, Option, none, some, String, List, ◌==◌, count_by, not, str_eq,
  Bool-cases, inl, inr, if◌then◌else◌,
}
use saftaja.Env.{Env}
use saftaja.Errors.{is_no_rows}
use saftaja.Exec.{World, Result, ok, err, panic}
use saftaja.Mpgs.Types.{SessionDetails}
use saftaja.Store.Rows.{Invoice, PaymentSession}
use saftaja.Payment.Types.{
  Service, InitiateSessionRequest, InitiateAuthRequest, ProcessAuthRequest, FinalizePaymentRequest,
}
use saftaja.Admin.Types
use saftaja.Payment.Finalize.{is_settled, success_result}
use saftaja.Concurrent.Program.{Program, returns, ◌>>=◌}
use saftaja.Concurrent.Pool.{interleave}
use saftaja.Concurrent.Initiate.{initiate_session, open_session, reuse, gateway_session_id}
use saftaja.Concurrent.Auth.{initiate_auth, process_auth}
use saftaja.Concurrent.Finalize.{finalize_payment, charge}
use saftaja.Concurrent.Checkout.Safety.{get_checkout_data-Within, verify_domain-Within}
use saftaja.Concurrent.Admin.Safety.{
  create_organization-Within, create_project-Within, create_gateway_account-Within,
  create_invoice-Within,
}
use saftaja.Concurrent.Ending.{
  Within, step-Within, plain-Within, catch-Within, ends-Within, check-Within, more-Within,
  grow-Within, ended_at,
}
use saftaja.Concurrent.Many.{pool-ended}
use saftaja.Concurrent.Server.{Operation, thread, threads}

module _ (env : Env) (s : Service) where
  charge-Within :
      (req : FinalizePaymentRequest) (session : PaymentSession) (v : Invoice)
      → Within 6 (charge env s req session v)
  unfolding charge
  charge-Within req session v = step-Within 5 _ _ _ λ auth_tx. plain-Within 4 _ _ λ account.
      ends-Within 4 _ _ _ λ creds.
        plain-Within 3 _ _ λ tx_id. step-Within 2 _ _ _ λ t. step-Within 1 _ _ _ λ resp. λ r. tt

  finish-Within :
      (b : Bool) (req : FinalizePaymentRequest) (session : PaymentSession) (v : Invoice)
      → Within 6 (if b then returns (success_result env req) else charge env s req session v)
  finish-Within true req session v = tt
  finish-Within false req session v = charge-Within req session v

  finalize_payment-Within : (req : FinalizePaymentRequest) → Within 10 (finalize_payment env s req)
  unfolding finalize_payment
  finalize_payment-Within req = step-Within 9 _ _ _ λ session. check-Within 9 _ _ _ (
      plain-Within 8 _ _ λ time. check-Within 8 _ _ _ (
        step-Within 7 _ _ _ λ v.
          check-Within 7 _ _ _
            (catch-Within 6 _ _ λ existing. finish-Within (is_settled existing) req session v)))

  initiate_auth-Within : (req : InitiateAuthRequest) → Within 7 (initiate_auth env s req)
  unfolding initiate_auth
  initiate_auth-Within req = step-Within 6 _ _ _ λ session. check-Within 6 _ _ _ (
      plain-Within 5 _ _ λ v. plain-Within 4 _ _ λ account. ends-Within 4 _ _ _ λ creds.
        plain-Within 3 _ _
          λ tx_id. step-Within 2 _ _ _ λ t. step-Within 1 _ _ _ λ resp. step-Within 0 _ _ _ λ u. tt)

  process_auth-Within : (req : ProcessAuthRequest) → Within 8 (process_auth env s req)
  unfolding process_auth
  process_auth-Within req = step-Within 7 _ _ _ λ session. check-Within 7 _ _ _ (
      plain-Within 6 _ _ λ v. step-Within 5 _ _ _ λ last_tx. check-Within 5 _ _ _ (
        plain-Within 4 _ _ λ account. plain-Within 3 _ _ λ project. check-Within 3 _ _ _ (
          ends-Within 3 _ _ _ λ creds.
            step-Within 2 _ _ _ λ t. step-Within 1 _ _ _ λ resp. step-Within 0 _ _ _ λ u. tt)))

  details-Within :
      {A : Type 0} (n : ℕ) (d : Option SessionDetails) (f : String → Program A)
      → ((id : String) → Within n (f id))
      → Within n (gateway_session_id d >>= f)
  unfolding ◌>>=◌
  details-Within n none f k = tt
  details-Within n (some d) f k = k d.id

  open_session-Within :
      (req : InitiateSessionRequest) (v : Invoice) → Within 4 (open_session env s req v)
  unfolding open_session
  open_session-Within req v = step-Within 3 _ _ _ λ account. ends-Within 3 _ _ _ λ creds.
      step-Within 2 _ _ _ λ resp.
        details-Within 2 resp.value.session _
          λ id. step-Within 1 _ _ _ λ p. step-Within 0 _ _ _ λ u. tt

  reuse-Within :
      (req : InitiateSessionRequest) (v : Invoice) (r : Result PaymentSession)
      → Within 4 (reuse env s req v r)
  reuse-Within req v (ok p) = tt
  reuse-Within req v (err e) = elim (Bool-cases (not (is_no_rows e))) [
    | inl y ↦ rw y tt
    | inr n ↦ rw n (open_session-Within req v)
  ]
  reuse-Within req v panic = tt

  initiate_session-Within : (req : InitiateSessionRequest) → Within 6 (initiate_session env s req)
  unfolding initiate_session
  initiate_session-Within req = step-Within 5 _ _ _ λ v.
      check-Within 5 _ _ _ (elim (Bool-cases (str_eq req.idempotency_key "")) [
        | inl y ↦ rw y (more-Within 4 (open_session env s req v) (open_session-Within req v))
        | inr n ↦ rw n (catch-Within 4 _ _ λ existing. reuse-Within req v existing)
      ])

  module _ (admin : Types.Service) where
    pub thread-Within : (op : Operation) → Within 10 (thread env s admin op).program
    thread-Within (Operation.checkout i q) = grow-Within 7 3 _ (get_checkout_data-Within env s i q)
    thread-Within (Operation.session req) = grow-Within 4 6 _ (initiate_session-Within req)
    thread-Within (Operation.authenticate req) = grow-Within 3 7 _ (initiate_auth-Within req)
    thread-Within (Operation.challenge req) = grow-Within 2 8 _ (process_auth-Within req)
    thread-Within (Operation.finalize req) = finalize_payment-Within req
    thread-Within (Operation.domain d) = grow-Within 9 1 _ (verify_domain-Within env s d)
    thread-Within (Operation.organization req) =
        grow-Within 9 1 _ (create_organization-Within env admin req)
    thread-Within (Operation.project req) = grow-Within 9 1 _ (create_project-Within env admin req)
    thread-Within (Operation.account req) =
        grow-Within 8 2 _ (create_gateway_account-Within env admin req)
    thread-Within (Operation.invoice req) = grow-Within 9 1 _ (create_invoice-Within env admin req)

    -- An operation has ended, in a result, an error or a panic, once it has had ten turns, whatever
    -- the others do meanwhile and whatever the database and the gateway answer.
    pub serve_together-ended :
        (turns : List ℕ) (ops : List Operation) (w : World) (i : ℕ)
        → 10 ≤ count_by (λ j. j == i) turns
        → ended_at i (interleave turns (threads env s admin ops) w).0 ≡ true
    serve_together-ended = pool-ended (thread env s admin) 10 thread-Within
