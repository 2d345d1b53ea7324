-- ===== src/Web/Administration.antt =====
-- What a request to the admin API (khazina/internal/admin) leaves behind.
use mathlib.Core.Path.{subst}
use saftaja.Prelude.{Bool, true, false, ◌≡◌, inl, inr, String, str_eq, Bool-cases}
use saftaja.Env.{Env}
use saftaja.Exec.{State, World, Exec}
use saftaja.Exec.After.{Runs, pure-After}
use saftaja.Web.Request.{Request, Response, AdminRoute, WebEnv}
use saftaja.Web.Router.{App}
use saftaja.Admin.Handlers.{
  demand, api_key_auth, admin_handler, create_organization_handler, create_project_handler,
  create_gateway_account_handler, create_invoice_handler, with_environment,
}
use saftaja.Ledger.Refines.Admin.{AdminCall, administer}
use saftaja.Admin.Handlers.{invalid_body, is_nil_uuid}
use saftaja.Admin.Service.{
  create_organization, create_project, create_gateway_account, create_invoice,
}
use saftaja.Prelude.{not, is_some}
use saftaja.Web.Outcome.{OneCall, Ends, ordered, respond-Runs, parsed-Runs}

module _ (env : Env) (app : App) (host key : String) (s0 : State) where
  abbrev Fine : Exec Response → Type 0
  Fine m =
      (w : World)
      → w.state ≡ s0
      → Runs (OneCall env app host key s0) (Ends env app host key s0) (m w)

  demand-Runs :
      (missing : Bool) (message : String) (next : Exec Response)
      → Fine next
      → Fine (demand missing message next)
  demand-Runs true message next h w e = pure-After _ _ (inl e)
  demand-Runs false message next h w e = h w e

  module _ (web : WebEnv) (r : Request) (right : str_eq app.admin_api_key key ≡ true) where
    organizations-Runs : Fine (create_organization_handler web env app.admins r)
    unfolding create_organization_handler administer
    organizations-Runs w e =
        parsed-Runs env app host key s0 invalid_body (web.decode_organization r.body) _ w e λ req _.
          (demand-Runs (str_eq req.name "") "name is required" _ (λ v f.
              respond-Runs env app host key s0 (create_organization env app.admins req) _ _ v
                (ordered env app host key s0 (AdminCall.organization req) v f right)))
            w e

    projects-Runs : Fine (create_project_handler web env app.admins r)
    unfolding create_project_handler administer
    projects-Runs w e =
        parsed-Runs env app host key s0 invalid_body (web.decode_project r.body) _ w e λ req _.
          (demand-Runs (is_nil_uuid env req.organization_id) "organization_id is required" _ (
              demand-Runs (str_eq req.name "") "name is required" _ (λ v f.
                respond-Runs env app host key s0
                  (create_project env app.admins (with_environment req)) _ _ v
                  (ordered env app host key s0 (AdminCall.project (with_environment req)) v f
                    right))))
            w e

    accounts-Runs : Fine (create_gateway_account_handler web env app.admins r)
    unfolding create_gateway_account_handler administer
    accounts-Runs w e =
        parsed-Runs env app host key s0 invalid_body (web.decode_account r.body) _ w e λ req _.
          (demand-Runs (is_nil_uuid env req.project_id) "project_id is required" _ (
              demand-Runs (str_eq req.connector_type "") "connector_type is required" _ (
                demand-Runs (str_eq req.account_name "") "account_name is required" _ (
                  demand-Runs (not (is_some req.credentials)) "credentials is required" _ (λ v f.
                    respond-Runs env app host key s0 (create_gateway_account env app.admins req) _ _
                      v (ordered env app host key s0 (AdminCall.account req) v f right))))))
            w e

    invoices-Runs : Fine (create_invoice_handler web env app.admins r)
    unfolding create_invoice_handler administer
    invoices-Runs w e =
        parsed-Runs env app host key s0 invalid_body (web.decode_invoice r.body) _ w e λ req _.
          (demand-Runs (is_nil_uuid env req.project_id) "project_id is required" _ (
              demand-Runs (str_eq req.amount "") "amount is required" _ (
                demand-Runs (str_eq req.currency "") "currency is required" _ (λ v f.
                  respond-Runs env app host key s0 (create_invoice env app.admins req) _ _ v
                    (ordered env app host key s0 (AdminCall.invoice req) v f right)))))
            w e

    admin_handler-Runs : (a : AdminRoute) → Fine (admin_handler web env app.admins a r)
    admin_handler-Runs AdminRoute.organizations w e = organizations-Runs w e
    admin_handler-Runs AdminRoute.projects w e = projects-Runs w e
    admin_handler-Runs AdminRoute.gateway_accounts w e = accounts-Runs w e
    admin_handler-Runs AdminRoute.invoices w e = invoices-Runs w e

  -- Only the right key gets past the check.
  pub admin-Runs :
      (web : WebEnv) (r : Request) (a : AdminRoute)
      → r.admin_key ≡ key
      → Fine (api_key_auth app.admin_api_key r (admin_handler web env app.admins a r))
  unfolding api_key_auth
  admin-Runs web r a at w e = elim (Bool-cases (str_eq r.admin_key "")) [
    | inl y ↦ rw y (pure-After _ _ (inl e))
    | inr n ↦ rw n (elim (Bool-cases (str_eq app.admin_api_key r.admin_key)) [
      | inl y ↦
          rw y
            (admin_handler-Runs web r (subst (λ k. str_eq app.admin_api_key k ≡ true) at y) a w e)
      | inr n' ↦ rw n' (pure-After _ _ (inl e))
    ])
  ]
