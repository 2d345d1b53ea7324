-- ===== src/Concurrent/Http/Server.antt =====
-- Requests to the server of khazina/main.go that overlap.
use saftaja.Prelude.{ℕ, ◌≤◌, ◌≡◌, true, ◌==◌, count_by, List, arith}
use saftaja.Domain.{Uuid}
use saftaja.Env.{Env}
use saftaja.Exec.{World}
use saftaja.Ledger.Inv.{Inv, paid_flag, payments}
use saftaja.Ledger.Traffic.{paid_flag-bound}
use saftaja.Web.Router.{App}
use saftaja.Web.Request.{Request, Route, WebEnv}
use saftaja.Concurrent.Pool.{Thread, interleave, pool}
use saftaja.Concurrent.Many.{pool-Inv, pool-ended}
use saftaja.Concurrent.Ending.{ended_at}
use saftaja.Concurrent.Http.{handle}
use saftaja.Concurrent.Http.Safety.{handle-Sound}

module _ (web : WebEnv) (env : Env) (app : App) where
  abbrev pub request_thread : Route × Request → Thread
  request_thread x = record { Answer = _; program = handle web env app x.0 x.1 }

  -- What is left after these turns of the requests.
  unfoldable pub handle_together : List ℕ → List (Route × Request) → World → World
  handle_together turns rs w = (interleave turns (pool request_thread rs) w).1

  -- However the statements of HTTP requests that overlap, to any routes and hosts, of payers and of
  -- the admin API, follow one another, and at every point, the tables satisfy the invariant if they
  -- did before.
  pub handle_together-Inv :
      (turns : List ℕ) (rs : List (Route × Request)) (w : World)
      → Inv w.db
      → Inv (handle_together turns rs w).db
  unfolding handle_together
  handle_together-Inv = pool-Inv request_thread λ x. (handle-Sound web env app x.0 x.1).safe

  -- However the statements of HTTP requests that overlap, to any routes and hosts, of payers and of
  -- the admin API, follow one another, and at every point, from tables that satisfy the invariant,
  -- an invoice has at most one successful payment, and it has one just when it is marked as paid.
  pub handle_together-payments :
      (turns : List ℕ) (rs : List (Route × Request)) (w : World) (i : Uuid)
      → Inv w.db
      → (payments i (handle_together turns rs w).db.transactions
          ≡ paid_flag i (handle_together turns rs w).db.invoices)
        × (payments i (handle_together turns rs w).db.transactions ≤ 1)
  handle_together-payments turns rs w i inv =
      let books = (handle_together-Inv turns rs w inv).books i in
      (books, omega (arith, books, paid_flag-bound i (handle_together turns rs w).db.invoices))

  -- An HTTP request has ended once it has had twelve turns, whatever the others that overlap do
  -- meanwhile and whatever the database and the gateway answer.
  pub handle_together-ended :
      (turns : List ℕ) (rs : List (Route × Request)) (w : World) (i : ℕ)
      → 12 ≤ count_by (λ j. j == i) turns
      → ended_at i (interleave turns (pool request_thread rs) w).0 ≡ true
  handle_together-ended =
      pool-ended request_thread 12 λ x. (handle-Sound web env app x.0 x.1).within
