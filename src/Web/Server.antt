-- ===== src/Web/Server.antt =====
-- Any requests to the HTTP server (khazina/main.go), one after the other.
use mathlib.Core.Path.{subst}
use saftaja.Prelude.{All, ◌≤◌, ◌≡◌, List, [], ◌∷◌, none, arith, inl, inr}
use saftaja.Domain.{Uuid}
use saftaja.Env.{Env, HttpRequest}
use saftaja.Exec.{State, World}
use saftaja.Web.Router.{App, handle}
use saftaja.Ledger.Refines.Admin.{administer, administer-History}
use saftaja.Ledger.Billing.{empty-Inv}
use saftaja.Ledger.Step.{History, start}
use saftaja.Ledger.Inv.{Inv, paid_flag, payments}
use saftaja.Ledger.Keeps.{History-Inv, History-append, History-any}
use saftaja.Ledger.Traffic.{serve, serve-History, paid_flag-bound}
use saftaja.Web.Request.{Request, Route, WebEnv}
use saftaja.Web.Tenant.{strip_port}
use saftaja.Web.Outcome.{OneCall}
use saftaja.Ledger.Charges.{Exact, Exact-History}
use saftaja.Web.Traffic.{handle-OneCall}

module _ (web : WebEnv) (env : Env) (app : App) where
  -- what the server has done after these requests
  unfoldable pub handle_all : List (Route × Request) → World → World
  handle_all [] w = w
  handle_all ((route, r) ∷ rs) w = handle_all rs (handle web env app route r w).1

  pub handle-History :
      (route : Route) (r : Request) (w : World)
      → History env none w.state (handle web env app route r w).1.state
  handle-History route r w = steps (handle-OneCall web env app route r w)
    where
      steps :
          {t : State}
          → OneCall env app (strip_port r.host) r.admin_key w.state t
          → History env none w.state t
      steps (inl e) = rw e start
      steps (inr (inl (c, u, e, e', hosted))) = rw e' (
          subst (λ x. History env none x (serve env app.payments c u).state) e
            (History-any (serve-History env app.payments c u)))
      steps (inr (inr (c, u, e, e', right))) = rw e' (
          subst (λ x. History env none x (administer env app.admins c u).state) e
            (History-any (administer-History env app.admins c u)))

  pub handle_all-History :
      (rs : List (Route × Request)) (w : World) → History env none w.state (handle_all rs w).state
  unfolding handle_all
  handle_all-History [] w = start
  handle_all-History ((route, r) ∷ rs) w =
      History-append (handle-History route r w)
        (handle_all-History rs (handle web env app route r w).1)

module _ (web : WebEnv) (env : Env) (app : App) (rs : List (Route × Request)) (w : World) where
  -- After any sequence of HTTP requests to any routes and hosts, of payers and of the admin API, from
  -- tables that satisfy the invariant, an invoice has at most one successful payment, and it has one
  -- just when it is marked as paid.
  pub handle_all-payments :
      (i : Uuid)
      → Inv w.db
      → (payments i (handle_all web env app rs w).db.transactions
          ≡ paid_flag i (handle_all web env app rs w).db.invoices)
        × (payments i (handle_all web env app rs w).db.transactions ≤ 1)
  handle_all-payments i inv =
      let books = (History-Inv (handle_all-History web env app rs w) inv).books i in
      (books, omega (arith, books, paid_flag-bound i (handle_all web env app rs w).db.invoices))

  -- After any sequence of HTTP requests to any routes and hosts, of payers and of the admin API, from
  -- tables without invoices, sessions and transactions and an empty log, the tables satisfy the
  -- invariant, so that an invoice is paid just when it has its one successful payment, and every
  -- payment request in the log asks for exactly the amount and the currency of an invoice of the
  -- tables.
  pub handle_all-from_empty :
      w.db.invoices ≡ []
      → w.db.payment_sessions ≡ []
      → w.db.transactions ≡ []
      → w.sent ≡ []
      → Inv (handle_all web env app rs w).db
        × All
            (λ (r : HttpRequest). Exact env (handle_all web env app rs w).db.invoices r.body)
            (handle_all web env app rs w).sent
  handle_all-from_empty no_invoices no_sessions no_transactions no_requests =
      let history = handle_all-History web env app rs w in
      (
        History-Inv history (empty-Inv w.db no_invoices no_sessions no_transactions),
        Exact-History history (rw no_requests tt),
      )
