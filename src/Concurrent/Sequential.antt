-- ===== src/Concurrent/Sequential.antt =====
-- The programs and the calls of `Service` in khazina/internal/payment/service.go and in
-- khazina/internal/admin/service.go, one at a time.
use saftaja.Prelude.{◌≡◌}
use saftaja.Env.{Env}
use saftaja.Exec.{Exec}
use saftaja.Payment.Types.{Service}
use saftaja.Admin.Types
use saftaja.Admin.Service.{
  create_organization, create_project, create_gateway_account, create_invoice,
}
use saftaja.Payment.Checkout.{get_checkout_data, verify_domain}
use saftaja.Payment.Initiate.{initiate_session}
use saftaja.Payment.Auth.{initiate_auth, process_auth}
use saftaja.Payment.Finalize.{finalize_payment}
use saftaja.Concurrent.Program.{run}
use saftaja.Concurrent.Server.{Operation, thread}
use saftaja.Concurrent.Initiate.{initiate_session-alone}
use saftaja.Concurrent.Auth.{initiate_auth-alone, process_auth-alone}
use saftaja.Concurrent.Finalize.{finalize_payment-alone}
use saftaja.Concurrent.Checkout.{get_checkout_data-alone, verify_domain-alone}
use saftaja.Concurrent.Admin.{
  create_organization-alone, create_project-alone, create_gateway_account-alone,
  create_invoice-alone,
}

module _ (env : Env) (s : Service) (admin : Types.Service) where
  -- The call that an operation is when no other runs.
  abbrev pub alone_call : (op : Operation) → Exec (thread env s admin op).Answer
  alone_call (Operation.checkout i q) = get_checkout_data env s i q
  alone_call (Operation.session req) = initiate_session env s req
  alone_call (Operation.authenticate req) = initiate_auth env s req
  alone_call (Operation.challenge req) = process_auth env s req
  alone_call (Operation.finalize req) = finalize_payment env s req
  alone_call (Operation.domain d) = verify_domain env s d
  alone_call (Operation.organization req) = create_organization env admin req
  alone_call (Operation.project req) = create_project env admin req
  alone_call (Operation.account req) = create_gateway_account env admin req
  alone_call (Operation.invoice req) = create_invoice env admin req

  -- The program of an operation, when no other runs, ends in the same result and leaves the same
  -- tables, the same requests to the gateway and the same count of calls as the call of the service.
  pub thread-alone : (op : Operation) → run (thread env s admin op).program ≡ alone_call op
  thread-alone (Operation.checkout i q) = get_checkout_data-alone env s i q
  thread-alone (Operation.session req) = initiate_session-alone env s req
  thread-alone (Operation.authenticate req) = initiate_auth-alone env s req
  thread-alone (Operation.challenge req) = process_auth-alone env s req
  thread-alone (Operation.finalize req) = finalize_payment-alone env s req
  thread-alone (Operation.domain d) = verify_domain-alone env s d
  thread-alone (Operation.organization req) = create_organization-alone env admin req
  thread-alone (Operation.project req) = create_project-alone env admin req
  thread-alone (Operation.account req) = create_gateway_account-alone env admin req
  thread-alone (Operation.invoice req) = create_invoice-alone env admin req
