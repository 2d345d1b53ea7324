-- ===== src/Web/Isolation.antt =====
-- Requests to the HTTP server (khazina/main.go) and the rows of a project that they are not for.
use mathlib.Core.Path.{subst}
use mathlib.Core.Bool.{true≢false}
use saftaja.Prelude.{
  false, ◌≡◌, refl, sym, ◌∙◌, List, [], ◌∷◌, ◌==◌, some, All, inl, inr, str_eq, String,
}
use saftaja.Domain.{Uuid}
use saftaja.Env.{Env}
use saftaja.Exec.{State, World}
use saftaja.Store.Rows.{Db, Project}
use saftaja.Ledger.Inv.{Inv}
use saftaja.Ledger.Keeps.{History-Inv}
use saftaja.Ledger.Traffic.{Call, project_of, serve}
use saftaja.Ledger.Isolated.{Spared, Elsewhere, serve-Spared}
use saftaja.Web.Request.{Request, Route, WebEnv}
use saftaja.Web.Tenant.{strip_port}
use saftaja.Web.Router.{App, handle}
use saftaja.Web.Outcome.{OneCall, Hosted, hosted_project}
use saftaja.Web.Traffic.{handle-OneCall}
use saftaja.Web.Server.{handle_all, handle-History}

-- A request to a host that is not the project's domain, without the admin key.
abbrev pub Stranger : App → Uuid → Db → Route × Request → Type 0
Stranger app p d (route, r) =
    ((q : Project) → hosted_project (strip_port r.host) d ≡ some q → (q.id == p) ≡ false)
    × (str_eq app.admin_api_key r.admin_key ≡ false)

module _ (web : WebEnv) (env : Env) (app : App) (p : Uuid) where
  Elsewhere-of_Hosted :
      (d : Db) (host : String) (c : Call)
      → ((q : Project) → hosted_project host d ≡ some q → (q.id == p) ≡ false)
      → Hosted d host (project_of c)
      → Elsewhere p c
  Elsewhere-of_Hosted d host c far hosted q e =
      let (owner, found, key) = subst (Hosted d host) e hosted in rw (← key) (far owner found)

  handle-Spared :
      (route : Route) (r : Request) (w : World)
      → Inv w.db
      → Stranger app p w.db (route, r)
      → Spared p w.db (handle web env app route r w).1.db
  handle-Spared route r w inv (far, no_key) = spared (handle-OneCall web env app route r w)
    where
      spared :
          {t : State}
          → OneCall env app (strip_port r.host) r.admin_key w.state t
          → Spared p w.db t.db
      spared (inl e) = rw e (refl, refl)
      spared (inr (inl (c, u, e, e', hosted))) = rw e' (
          subst (λ (x : State). Spared p x.db (serve env app.payments c u).db) e
            (serve-Spared env app.payments p c u (rw e inv)
              (Elsewhere-of_Hosted w.db (strip_port r.host) c far hosted)))
      spared (inr (inr (c, u, e, e', right))) = absurd (true≢false (sym right ∙ no_key))

  -- Requests to hosts that are not the domain of a project, without the admin key, however many and
  -- to whatever routes, leave every row of this project as it was: the project, its gateway
  -- accounts, invoices, sessions and transactions; and they add no project.
  pub handle_all-Spared :
      (rs : List (Route × Request)) (w : World)
      → Inv w.db
      → All (Stranger app p w.db) rs
      → Spared p w.db (handle_all web env app rs w).db
  unfolding handle_all
  handle_all-Spared [] w inv far = (refl, refl)
  handle_all-Spared ((route, r) ∷ rs) w inv (far, rest) =
      let (rows, projects) = handle-Spared route r w inv far in
      let v = (handle web env app route r w).1 in
      let later : All (Stranger app p v.db) rs =
        subst (λ ps. All (Stranger app p (record w.db { projects = ps })) rs) (sym projects) rest in
      let (rows', projects') =
        handle_all-Spared rs v (History-Inv (handle-History web env app route r w) inv) later in
      (rows' ∙ rows, projects' ∙ projects)
