-- ===== src/Concurrent/Server.antt =====
-- The operations of `Service` in khazina/internal/payment/service.go and in
-- khazina/internal/admin/service.go, which the server of khazina/main.go runs at the same time.
use saftaja.Prelude.{ℕ, String, ◌≤◌, ◌≡◌, none, List, arith}
use saftaja.Domain.{Uuid}
use saftaja.Env.{Env}
use saftaja.Exec.{World}
use saftaja.Payment.Types.{
  Service, InitiateSessionRequest, InitiateAuthRequest, ProcessAuthRequest, FinalizePaymentRequest,
}
use saftaja.Admin.Types
use saftaja.Admin.Types.{
  CreateOrganizationRequest, CreateProjectRequest, CreateGatewayAccountRequest,
  CreateInvoiceRequest,
}
use saftaja.Ledger.Inv.{Inv, paid_flag, payments}
use saftaja.Ledger.Traffic.{paid_flag-bound}
use saftaja.Concurrent.Pool.{Thread, interleave, pool}
use saftaja.Concurrent.Safe.{Safe}
use saftaja.Concurrent.Rules.{nothing_known}
use saftaja.Concurrent.Many.{pool-Inv}
use saftaja.Concurrent.Initiate.{initiate_session}
use saftaja.Concurrent.Initiate.Safety.{initiate_session-Safe}
use saftaja.Concurrent.Auth.{initiate_auth, process_auth}
use saftaja.Concurrent.Auth.Safety.{initiate_auth-Safe, process_auth-Safe}
use saftaja.Concurrent.Checkout.{get_checkout_data, verify_domain}
use saftaja.Concurrent.Checkout.Safety.{get_checkout_data-Safe, verify_domain-Safe}
use saftaja.Concurrent.Admin.{
  create_organization, create_project, create_gateway_account, create_invoice,
}
use saftaja.Concurrent.Admin.Safety.{
  create_organization-Safe, create_project-Safe, create_gateway_account-Safe, create_invoice-Safe,
}
use saftaja.Concurrent.Finalize.{finalize_payment}
use saftaja.Concurrent.Finalize.Safety.{finalize_payment-Safe}

pub data Operation : Type 0 where
  checkout : Uuid → Uuid → Operation
  session : InitiateSessionRequest → Operation
  authenticate : InitiateAuthRequest → Operation
  challenge : ProcessAuthRequest → Operation
  finalize : FinalizePaymentRequest → Operation
  domain : String → Operation
  organization : CreateOrganizationRequest → Operation
  project : CreateProjectRequest → Operation
  account : CreateGatewayAccountRequest → Operation
  invoice : CreateInvoiceRequest → Operation

module _ (env : Env) (s : Service) (admin : Types.Service) where
  abbrev pub thread : Operation → Thread
  thread (Operation.checkout i q) = record { Answer = _; program = get_checkout_data env s i q }
  thread (Operation.session req) = record { Answer = _; program = initiate_session env s req }
  thread (Operation.authenticate req) = record { Answer = _; program = initiate_auth env s req }
  thread (Operation.challenge req) = record { Answer = _; program = process_auth env s req }
  thread (Operation.finalize req) = record { Answer = _; program = finalize_payment env s req }
  thread (Operation.domain d) = record { Answer = _; program = verify_domain env s d }
  thread (Operation.organization req) = record {
    Answer = _;
    program = create_organization env admin req;
  }
  thread (Operation.project req) = record { Answer = _; program = create_project env admin req }
  thread (Operation.account req) = record {
    Answer = _;
    program = create_gateway_account env admin req;
  }
  thread (Operation.invoice req) = record { Answer = _; program = create_invoice env admin req }

  abbrev pub threads : List Operation → List Thread
  threads ops = pool thread ops

  -- What is left after these turns: the number of a turn is the place of the operation that makes it.
  unfoldable pub serve_together : List ℕ → List Operation → World → World
  serve_together turns ops w = (interleave turns (threads ops) w).1

  pub thread-Safe : (op : Operation) → Safe none nothing_known (thread op).program
  thread-Safe (Operation.checkout i q) = get_checkout_data-Safe env s i q
  thread-Safe (Operation.session req) = initiate_session-Safe env s req
  thread-Safe (Operation.authenticate req) = initiate_auth-Safe env s req
  thread-Safe (Operation.challenge req) = process_auth-Safe env s req
  thread-Safe (Operation.finalize req) = finalize_payment-Safe env s req
  thread-Safe (Operation.domain d) = verify_domain-Safe env s d
  thread-Safe (Operation.organization req) = create_organization-Safe env admin req
  thread-Safe (Operation.project req) = create_project-Safe env admin req
  thread-Safe (Operation.account req) = create_gateway_account-Safe env admin req
  thread-Safe (Operation.invoice req) = create_invoice-Safe env admin req

  -- However the statements of operations that run at the same time follow one another, and at every
  -- point, the tables satisfy the invariant if they did before.
  pub serve_together-Inv :
      (turns : List ℕ) (ops : List Operation) (w : World)
      → Inv w.db
      → Inv (serve_together turns ops w).db
  unfolding serve_together
  serve_together-Inv = pool-Inv thread thread-Safe

  -- However the statements of operations that run at the same time follow one another, and at every
  -- point, an invoice has at most one successful payment, and it has one just when it is marked as
  -- paid.
  pub serve_together-payments :
      (turns : List ℕ) (ops : List Operation) (w : World) (i : Uuid)
      → Inv w.db
      → (payments i (serve_together turns ops w).db.transactions
          ≡ paid_flag i (serve_together turns ops w).db.invoices)
        × (payments i (serve_together turns ops w).db.transactions ≤ 1)
  serve_together-payments turns ops w i inv =
      let books = (serve_together-Inv turns ops w inv).books i in
      (books, omega (arith, books, paid_flag-bound i (serve_together turns ops w).db.invoices))
