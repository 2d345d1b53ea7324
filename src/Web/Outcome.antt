-- ===== src/Web/Outcome.antt =====
-- What a request to the HTTP server (khazina/main.go) can leave behind.
use saftaja.Prelude.{
  true, ◌≡◌, refl, ◌⊎◌, inl, inr, Option, none, some, String, str_eq, not, find?, ◌&&◌, is_some,
}
use saftaja.Domain.{Uuid}
use saftaja.Env.{Env}
use saftaja.Errors.{Error}
use saftaja.Exec.{State, World, Exec}
use saftaja.Exec.After.{Runs, bind-After, pure-After, attempt-After}
use saftaja.Store.Rows.{Project, Db}
use saftaja.Store.Reads.{text_is}
use saftaja.Ledger.Traffic.{Call, project_of, serve}
use saftaja.Web.Request.{Response}
use saftaja.Web.Router.{App}
use saftaja.Ledger.Refines.Admin.{AdminCall, administer}
use saftaja.Web.Respond.{respond, parsed}

-- The project of the tables that has this custom domain and is not deleted.
abbrev pub hosted_project : String → Db → Option Project
hosted_project host d =
    find? (λ q. text_is q.custom_domain (some host) && not (is_some q.deleted_at)) d.projects

-- The project that the host of a request stands for, and no other.
abbrev pub Hosted : Db → String → Option Uuid → Type 0
Hosted d host none = Unit
Hosted d host (some q) = (p : Project) × (hosted_project host d ≡ some p) × (p.id ≡ q)

-- One call of the admin API has been made, under its key.
abbrev pub Administered : Env → App → String → State → State → Type 0
Administered env app key s0 t =
    (c : AdminCall) × (u : World) × (u.state ≡ s0)
    × (t ≡ (administer env app.admins c u).state)
    × (str_eq app.admin_api_key key ≡ true)

module _ (env : Env) (app : App) (host key : String) (s0 : State) where
  -- Nothing has changed, or one call of the payment service has been made, for the project of the
  -- host, or one of the admin API, under its key.
  abbrev pub OneCall : State → Type 0
  OneCall t =
      (t ≡ s0)
      ⊎ ((c : Call) × (u : World) × (u.state ≡ s0)
          × (t ≡ (serve env app.payments c u).state)
          × Hosted s0.db host (project_of c))
      ⊎ Administered env app key s0 t

  abbrev pub Ends : {A : Type 0} → A → World → Type 0
  Ends _ v = OneCall v.state

  pub called :
      (c : Call) (w : World)
      → w.state ≡ s0
      → Hosted s0.db host (project_of c)
      → OneCall (serve env app.payments c w).state
  called c w e hosted = inr (inl (c, w, e, refl, hosted))

  pub ordered :
      (c : AdminCall) (w : World)
      → w.state ≡ s0
      → str_eq app.admin_api_key key ≡ true
      → OneCall (administer env app.admins c w).state
  ordered c w e right = inr (inr (c, w, e, refl, right))

  pub respond-Runs :
      {A : Type 0} (call : Exec A) (next : A → Response) (failed : Error → Response) (w : World)
      → OneCall (call w).1.state
      → Runs OneCall Ends (respond call next failed w)
  respond-Runs call next failed w h =
      bind-After _ _ w (attempt-After call w h λ x _. pure-After _ _ h)

  pub parsed-Runs :
      {A : Type 0} (bad : Response) (o : Option A) (next : A → Exec Response) (w : World)
      → w.state ≡ s0
      → ((a : A) → o ≡ some a → Runs OneCall Ends (next a w))
      → Runs OneCall Ends (parsed bad o next w)
  parsed-Runs bad none next w e h = pure-After _ _ (inl e)
  parsed-Runs bad (some a) next w e h = h a refl
