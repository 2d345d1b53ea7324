-- ===== src/Ledger/Traffic.antt =====
-- Any traffic: calls of the operations of interface `Service` (khazina/internal/payment/service.go),
-- one after the other, each with its own answers from the database and the gateway.
use saftaja.Prelude.{◌≤◌, ◌≡◌, String, List, [], ◌∷◌, Option, none, some, arith, All}
use saftaja.Domain.{Uuid, PaymentSessionStatus}
use saftaja.Env.{Env}
use saftaja.Exec.{State, World}
use saftaja.Store.Rows.{Invoice, PaymentSession}
use saftaja.Payment.Types.{
  Service, InitiateSessionRequest, InitiateAuthRequest, ProcessAuthRequest, FinalizePaymentRequest,
}
use saftaja.Payment.Checkout.{get_checkout_data, verify_domain}
use saftaja.Payment.Initiate.{initiate_session}
use saftaja.Payment.Auth.{initiate_auth, process_auth}
use saftaja.Payment.Finalize.{finalize_payment}
use saftaja.Ledger.Step.{History, start}
use saftaja.Ledger.Inv.{Inv, paid_flag, payments}
use saftaja.Ledger.Keeps.{History-Inv, History-append, History-any}
use saftaja.Ledger.Refines.Checkout.{get_checkout_data-unchanged, verify_domain-unchanged}
use saftaja.Ledger.Refines.Session.{initiate_session-History}
use saftaja.Ledger.Refines.Auth.{initiate_auth-History, process_auth-History}
use saftaja.Ledger.Refines.Finalize.{finalize_payment-History}

pub data Call : Type 0 where
  checkout : Uuid → Uuid → Call
  session : InitiateSessionRequest → Call
  authenticate : InitiateAuthRequest → Call
  challenge : ProcessAuthRequest → Call
  finalize : FinalizePaymentRequest → Call
  domain : String → Call

-- The project that a call is made for.
abbrev pub project_of : Call → Option Uuid
project_of (Call.checkout i p) = some p
project_of (Call.session req) = some req.project_id
project_of (Call.authenticate req) = some req.project_id
project_of (Call.challenge req) = some req.project_id
project_of (Call.finalize req) = some req.project_id
project_of (Call.domain d) = none

module _ (env : Env) (s : Service) where
  -- What a call leaves behind, whether it ends in a result, an error or a panic.
  unfoldable pub serve : Call → World → World
  serve (Call.checkout i p) w = (get_checkout_data env s i p w).1
  serve (Call.session req) w = (initiate_session env s req w).1
  serve (Call.authenticate req) w = (initiate_auth env s req w).1
  serve (Call.challenge req) w = (process_auth env s req w).1
  serve (Call.finalize req) w = (finalize_payment env s req w).1
  serve (Call.domain d) w = (verify_domain env s d w).1

  unfoldable pub serve_all : List Call → World → World
  serve_all [] w = w
  serve_all (c ∷ cs) w = serve_all cs (serve c w)

  unchanged : {owner : Option Uuid} {u v : State} → v ≡ u → History env owner u v
  unchanged e = rw e start

  -- A call of the service, whatever the database and the gateway answer and however it ends, takes
  -- the tables and the requests to the gateway only through steps of the specification, and those
  -- that it takes are for the project of the call.
  pub serve-History : (c : Call) (w : World) → History env (project_of c) w.state (serve c w).state
  unfolding serve
  serve-History (Call.checkout i p) w = unchanged (get_checkout_data-unchanged env s i p w)
  serve-History (Call.session req) w = initiate_session-History env s req w
  serve-History (Call.authenticate req) w = initiate_auth-History env s req w
  serve-History (Call.challenge req) w = process_auth-History env s req w
  serve-History (Call.finalize req) w = finalize_payment-History env s req w
  serve-History (Call.domain d) w = unchanged (verify_domain-unchanged env s d w)

  -- Any sequence of calls of the service, whatever the database and the gateway answer and however
  -- each call ends, takes the tables and the requests to the gateway only through steps of the
  -- specification.
  pub serve_all-History :
      (cs : List Call) (w : World) → History env none w.state (serve_all cs w).state
  unfolding serve_all
  serve_all-History [] w = start
  serve_all-History (c ∷ cs) w =
      History-append (History-any (serve-History c w)) (serve_all-History cs (serve c w))

  pub serve-Inv : (c : Call) (w : World) → Inv w.db → Inv (serve c w).db
  serve-Inv c w inv = History-Inv (serve-History c w) inv

  -- Any sequence of calls keeps the invariant of the tables.
  pub serve_all-Inv : (cs : List Call) (w : World) → Inv w.db → Inv (serve_all cs w).db
  serve_all-Inv cs w inv = History-Inv (serve_all-History cs w) inv

pub paid_flag-bound : (i : Uuid) (vs : List Invoice) → paid_flag i vs ≤ 1
paid_flag-bound i [] = omega arith
paid_flag-bound i (v ∷ vs) = ground (arith, paid_flag-bound i vs)

-- After any sequence of calls from tables that satisfy the invariant, an invoice has at most one
-- successful payment, and it has one just when it is marked as paid.
pub serve_all-payments :
    (env : Env) (s : Service) (cs : List Call) (w : World) (i : Uuid)
    → Inv w.db
    → (payments i (serve_all env s cs w).db.transactions
        ≡ paid_flag i (serve_all env s cs w).db.invoices)
      × (payments i (serve_all env s cs w).db.transactions ≤ 1)
serve_all-payments env s cs w i inv =
    let books = (serve_all-Inv env s cs w inv).books i in
    (books, omega (arith, books, paid_flag-bound i (serve_all env s cs w).db.invoices))

-- After any sequence of calls from tables that satisfy the invariant, every session still has the
-- status with which it was created.
pub serve_all-created :
    (env : Env) (s : Service) (cs : List Call) (w : World)
    → Inv w.db
    → All
        (λ (p : PaymentSession). p.status ≡ PaymentSessionStatus.created)
        (serve_all env s cs w).db.payment_sessions
serve_all-created env s cs w inv = (serve_all-Inv env s cs w inv).created_only
