-- ===== src/Ledger/Isolated.antt =====
-- Calls for one project and the rows of another (khazina/internal/payment/service.go).
use saftaja.Prelude.{false, ◌≡◌, refl, ◌∙◌, List, [], ◌∷◌, ◌==◌, some, All}
use saftaja.Domain.{Uuid}
use saftaja.Env.{Env}
use saftaja.Exec.{State, World}
use saftaja.Payment.Types.{Service}
use saftaja.Store.Rows.{Db}
use saftaja.Ledger.Step.{History}
use saftaja.Ledger.Inv.{Inv}
use saftaja.Ledger.Tenants.{tenant, History-tenant, History-projects}
use saftaja.Ledger.Refines.Checkout.{get_checkout_data-unchanged, verify_domain-unchanged}
use saftaja.Ledger.Refines.Session.{initiate_session-History}
use saftaja.Ledger.Refines.Auth.{initiate_auth-History, process_auth-History}
use saftaja.Ledger.Refines.Finalize.{finalize_payment-History}
use saftaja.Ledger.Traffic.{Call, project_of, serve, serve_all, serve-Inv}

-- A call is not for this project.
abbrev pub Elsewhere : Uuid → Call → Type 0
Elsewhere p c = (q : Uuid) → project_of c ≡ some q → (q == p) ≡ false

-- The rows of the project, and which projects there are, are as before.
abbrev pub Spared : Uuid → Db → Db → Type 0
Spared p d d' = (tenant p d' ≡ tenant p d) × (d'.projects ≡ d.projects)

module _ (env : Env) (s : Service) (p : Uuid) where
  Spared-of_History :
      {q : Uuid} {u v : State}
      → (q == p) ≡ false
      → Inv u.db
      → History env (some q) u v
      → Spared p u.db v.db
  Spared-of_History {q} apart inv h = (History-tenant p q apart h inv, History-projects h)

  Spared-of_same : {u v : State} → v ≡ u → Spared p u.db v.db
  Spared-of_same e = rw e (refl, refl)

  pub serve-Spared :
      (c : Call) (w : World) → Inv w.db → Elsewhere p c → Spared p w.db (serve env s c w).db
  unfolding serve
  serve-Spared (Call.checkout i q) w inv far =
      Spared-of_same (get_checkout_data-unchanged env s i q w)
  serve-Spared (Call.session req) w inv far =
      Spared-of_History (far req.project_id refl) inv (initiate_session-History env s req w)
  serve-Spared (Call.authenticate req) w inv far =
      Spared-of_History (far req.project_id refl) inv (initiate_auth-History env s req w)
  serve-Spared (Call.challenge req) w inv far =
      Spared-of_History (far req.project_id refl) inv (process_auth-History env s req w)
  serve-Spared (Call.finalize req) w inv far =
      Spared-of_History (far req.project_id refl) inv (finalize_payment-History env s req w)
  serve-Spared (Call.domain d) w inv far = Spared-of_same (verify_domain-unchanged env s d w)

  -- A sequence of calls of which none is for a project leaves every row of this project as it was:
  -- the project, its gateway accounts, invoices, sessions and transactions; and it adds no project.
  pub serve_all-Spared :
      (cs : List Call) (w : World)
      → Inv w.db
      → All (Elsewhere p) cs
      → Spared p w.db (serve_all env s cs w).db
  unfolding serve_all
  serve_all-Spared [] w inv far = (refl, refl)
  serve_all-Spared (c ∷ cs) w inv (far, rest) =
      let (rows, projects) = serve-Spared c w inv far in
      let (rows', projects') =
        serve_all-Spared cs (serve env s c w) (serve-Inv env s c w inv) rest in
      (rows' ∙ rows, projects' ∙ projects)
