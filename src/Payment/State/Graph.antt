-- ===== src/Payment/State/Graph.antt =====
-- khazina/internal/payment/state.go against the two status graphs as relations, one constructor for
-- each arrow. The arrows are those that the tests of state_test.go call valid; of sessions README.md
-- draws one more, from created to failed.
use saftaja.Prelude.{ℕ, suc, ◌+◌, ◌≤◌, arith, ◌≡◌, ◌↔◌, refl, none}
use saftaja.Domain.{InvoiceStatus, PaymentSessionStatus}
use saftaja.Payment.State.{
  validate_session_transition, validate_invoice_transition, valid_session_transitions,
  valid_invoice_transitions,
}

pub data SessionEdge : PaymentSessionStatus → PaymentSessionStatus → Type 0 where
  authenticate : SessionEdge PaymentSessionStatus.created PaymentSessionStatus.authenticating
  authenticated : SessionEdge PaymentSessionStatus.authenticating PaymentSessionStatus.authenticated
  not_authenticated : SessionEdge PaymentSessionStatus.authenticating PaymentSessionStatus.failed
  pay : SessionEdge PaymentSessionStatus.authenticated PaymentSessionStatus.paying
  complete : SessionEdge PaymentSessionStatus.paying PaymentSessionStatus.completed
  decline : SessionEdge PaymentSessionStatus.paying PaymentSessionStatus.failed

pub data InvoiceEdge : InvoiceStatus → InvoiceStatus → Type 0 where
  process : InvoiceEdge InvoiceStatus.pending InvoiceStatus.processing
  cancel : InvoiceEdge InvoiceStatus.pending InvoiceStatus.failed
  settle : InvoiceEdge InvoiceStatus.processing InvoiceStatus.paid
  fail : InvoiceEdge InvoiceStatus.processing InvoiceStatus.failed

edge_accepted :
    {a b : PaymentSessionStatus} → SessionEdge a b → validate_session_transition a b ≡ none
unfolding validate_session_transition valid_session_transitions
edge_accepted SessionEdge.authenticate = refl
edge_accepted SessionEdge.authenticated = refl
edge_accepted SessionEdge.not_authenticated = refl
edge_accepted SessionEdge.pay = refl
edge_accepted SessionEdge.complete = refl
edge_accepted SessionEdge.decline = refl

accepted_edge :
    (a b : PaymentSessionStatus) → validate_session_transition a b ≡ none → SessionEdge a b
unfolding validate_session_transition valid_session_transitions
accepted_edge PaymentSessionStatus.created PaymentSessionStatus.created h = cc
accepted_edge PaymentSessionStatus.created PaymentSessionStatus.authenticating h =
    SessionEdge.authenticate
accepted_edge PaymentSessionStatus.created PaymentSessionStatus.authenticated h = cc
accepted_edge PaymentSessionStatus.created PaymentSessionStatus.paying h = cc
accepted_edge PaymentSessionStatus.created PaymentSessionStatus.completed h = cc
accepted_edge PaymentSessionStatus.created PaymentSessionStatus.failed h = cc
accepted_edge PaymentSessionStatus.authenticating PaymentSessionStatus.created h = cc
accepted_edge PaymentSessionStatus.authenticating PaymentSessionStatus.authenticating h = cc
accepted_edge PaymentSessionStatus.authenticating PaymentSessionStatus.authenticated h =
    SessionEdge.authenticated
accepted_edge PaymentSessionStatus.authenticating PaymentSessionStatus.paying h = cc
accepted_edge PaymentSessionStatus.authenticating PaymentSessionStatus.completed h = cc
accepted_edge PaymentSessionStatus.authenticating PaymentSessionStatus.failed h =
    SessionEdge.not_authenticated
accepted_edge PaymentSessionStatus.authenticated PaymentSessionStatus.created h = cc
accepted_edge PaymentSessionStatus.authenticated PaymentSessionStatus.authenticating h = cc
accepted_edge PaymentSessionStatus.authenticated PaymentSessionStatus.authenticated h = cc
accepted_edge PaymentSessionStatus.authenticated PaymentSessionStatus.paying h = SessionEdge.pay
accepted_edge PaymentSessionStatus.authenticated PaymentSessionStatus.completed h = cc
accepted_edge PaymentSessionStatus.authenticated PaymentSessionStatus.failed h = cc
accepted_edge PaymentSessionStatus.paying PaymentSessionStatus.created h = cc
accepted_edge PaymentSessionStatus.paying PaymentSessionStatus.authenticating h = cc
accepted_edge PaymentSessionStatus.paying PaymentSessionStatus.authenticated h = cc
accepted_edge PaymentSessionStatus.paying PaymentSessionStatus.paying h = cc
accepted_edge PaymentSessionStatus.paying PaymentSessionStatus.completed h = SessionEdge.complete
accepted_edge PaymentSessionStatus.paying PaymentSessionStatus.failed h = SessionEdge.decline
accepted_edge PaymentSessionStatus.completed b h = cc
accepted_edge PaymentSessionStatus.failed b h = cc

-- `ValidateSessionTransition` accepts exactly six transitions: created to authenticating,
-- authenticating to authenticated or failed, authenticated to paying, and paying to completed or
-- failed. So it refuses the one from created to failed that README.md draws.
pub validate_session_transition-SessionEdge :
    (a b : PaymentSessionStatus) → (validate_session_transition a b ≡ none) ↔ SessionEdge a b
validate_session_transition-SessionEdge a b = (accepted_edge a b, edge_accepted)

invoice_edge_accepted :
    {a b : InvoiceStatus} → InvoiceEdge a b → validate_invoice_transition a b ≡ none
unfolding validate_invoice_transition valid_invoice_transitions
invoice_edge_accepted InvoiceEdge.process = refl
invoice_edge_accepted InvoiceEdge.cancel = refl
invoice_edge_accepted InvoiceEdge.settle = refl
invoice_edge_accepted InvoiceEdge.fail = refl

accepted_invoice_edge :
    (a b : InvoiceStatus) → validate_invoice_transition a b ≡ none → InvoiceEdge a b
unfolding validate_invoice_transition valid_invoice_transitions
accepted_invoice_edge InvoiceStatus.pending InvoiceStatus.pending h = cc
accepted_invoice_edge InvoiceStatus.pending InvoiceStatus.processing h = InvoiceEdge.process
accepted_invoice_edge InvoiceStatus.pending InvoiceStatus.paid h = cc
accepted_invoice_edge InvoiceStatus.pending InvoiceStatus.failed h = InvoiceEdge.cancel
accepted_invoice_edge InvoiceStatus.processing InvoiceStatus.pending h = cc
accepted_invoice_edge InvoiceStatus.processing InvoiceStatus.processing h = cc
accepted_invoice_edge InvoiceStatus.processing InvoiceStatus.paid h = InvoiceEdge.settle
accepted_invoice_edge InvoiceStatus.processing InvoiceStatus.failed h = InvoiceEdge.fail
accepted_invoice_edge InvoiceStatus.paid b h = cc
accepted_invoice_edge InvoiceStatus.failed b h = cc

-- `ValidateInvoiceTransition` accepts exactly four transitions: pending to processing or failed, and
-- processing to paid or failed.
pub validate_invoice_transition-InvoiceEdge :
    (a b : InvoiceStatus) → (validate_invoice_transition a b ≡ none) ↔ InvoiceEdge a b
validate_invoice_transition-InvoiceEdge a b = (accepted_invoice_edge a b, invoice_edge_accepted)

-- A chain of accepted transitions, with their number.
pub data Chain : ℕ → PaymentSessionStatus → PaymentSessionStatus → Type 0 where
  here : (a : PaymentSessionStatus) → Chain 0 a a
  then :
      {n : ℕ} {a b c : PaymentSessionStatus}
      → Chain n a b
      → validate_session_transition b c ≡ none
      → Chain (suc n) a c

-- how far a status is along the graph
abbrev rank : PaymentSessionStatus → ℕ
rank PaymentSessionStatus.created = 0
rank PaymentSessionStatus.authenticating = 1
rank PaymentSessionStatus.authenticated = 2
rank PaymentSessionStatus.paying = 3
rank PaymentSessionStatus.completed = 4
rank PaymentSessionStatus.failed = 4

rank_grows : {a b : PaymentSessionStatus} → SessionEdge a b → suc (rank a) ≤ rank b
rank_grows SessionEdge.authenticate = omega arith
rank_grows SessionEdge.authenticated = omega arith
rank_grows SessionEdge.not_authenticated = omega arith
rank_grows SessionEdge.pay = omega arith
rank_grows SessionEdge.complete = omega arith
rank_grows SessionEdge.decline = omega arith

rank_bound : (a : PaymentSessionStatus) → rank a ≤ 4
rank_bound PaymentSessionStatus.created = omega arith
rank_bound PaymentSessionStatus.authenticating = omega arith
rank_bound PaymentSessionStatus.authenticated = omega arith
rank_bound PaymentSessionStatus.paying = omega arith
rank_bound PaymentSessionStatus.completed = omega arith
rank_bound PaymentSessionStatus.failed = omega arith

Chain-rank : {n : ℕ} {a b : PaymentSessionStatus} → Chain n a b → n + rank a ≤ rank b
Chain-rank (here a) = omega arith
Chain-rank (then {b = b} {c = c} k e) =
    omega (arith, Chain-rank k, rank_grows (accepted_edge b c e))

-- A session changes its status through accepted transitions four times at most.
pub Chain-bound : (n : ℕ) (a b : PaymentSessionStatus) → Chain n a b → n ≤ 4
Chain-bound n a b k = omega (arith, Chain-rank k, rank_bound b)
