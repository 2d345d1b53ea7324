-- ===== src/Admin/Handlers.antt =====
-- khazina/internal/admin/handlers.go and khazina/internal/admin/middleware.go. What a handler logs
-- is left out.
use saftaja.Prelude.{Bool, String, str_eq, not, if◌then◌else◌, is_some}
use saftaja.Domain.{Uuid}
use saftaja.Env.{Env}
use saftaja.Errors.{Error}
use saftaja.Exec.{Exec, pure}
use saftaja.Admin.Types.{Service, CreateProjectRequest, Created}
use saftaja.Admin.Service.{
  create_organization, create_project, create_gateway_account, create_invoice,
}
use saftaja.Web.Request.{Request, Response, AdminRoute, WebEnv}
use saftaja.Web.Respond.{parsed, respond}

abbrev pub invalid_body : Response
invalid_body = Response.admin_error "invalid request body" 400

-- `if value == "" { respondError(w, …); return }`
abbrev pub demand : Bool → String → Exec Response → Exec Response
demand missing message next = if missing then pure (Response.admin_error message 400) else next

-- the error of a call, whatever it is
abbrev pub failed_to : String → Error → Response
failed_to message e = Response.admin_error message 500

-- `req.Environment = "sandbox"` where there is none
abbrev pub with_environment : CreateProjectRequest → CreateProjectRequest
with_environment req =
    if str_eq req.environment "" then record req { environment = "sandbox" } else req

-- `id.String() == "00000000-0000-0000-0000-000000000000"`
abbrev pub is_nil_uuid : Env → Uuid → Bool
is_nil_uuid env id = str_eq (env.uuid_string id) "00000000-0000-0000-0000-000000000000"

module _ (web : WebEnv) (env : Env) (s : Service) where
  unfoldable pub create_organization_handler : Request → Exec Response
  create_organization_handler r = parsed invalid_body (web.decode_organization r.body) λ req.
      demand (str_eq req.name "") "name is required" (
        respond (create_organization env s req) (λ o. Response.created (Created.organization o))
          (failed_to "failed to create organization"))

  unfoldable pub create_project_handler : Request → Exec Response
  create_project_handler r = parsed invalid_body (web.decode_project r.body) λ req.
      demand (is_nil_uuid env req.organization_id) "organization_id is required" (
        demand (str_eq req.name "") "name is required" (
          respond (create_project env s (with_environment req))
            (λ p. Response.created (Created.project p)) (failed_to "failed to create project")))

  unfoldable pub create_gateway_account_handler : Request → Exec Response
  create_gateway_account_handler r = parsed invalid_body (web.decode_account r.body) λ req.
      demand (is_nil_uuid env req.project_id) "project_id is required" (
        demand (str_eq req.connector_type "") "connector_type is required" (
          demand (str_eq req.account_name "") "account_name is required" (
            demand (not (is_some req.credentials)) "credentials is required" (
              respond (create_gateway_account env s req) (λ a. Response.created (Created.account a))
                (failed_to "failed to create gateway account")))))

  unfoldable pub create_invoice_handler : Request → Exec Response
  create_invoice_handler r = parsed invalid_body (web.decode_invoice r.body) λ req.
      demand (is_nil_uuid env req.project_id) "project_id is required" (
        demand (str_eq req.amount "") "amount is required" (
          demand (str_eq req.currency "") "currency is required" (
            respond (create_invoice env s req) (λ v. Response.created (Created.invoice v))
              (failed_to "failed to create invoice"))))

  -- `RegisterRoutes`
  abbrev pub admin_handler : AdminRoute → Request → Exec Response
  admin_handler AdminRoute.organizations r = create_organization_handler r
  admin_handler AdminRoute.projects r = create_project_handler r
  admin_handler AdminRoute.gateway_accounts r = create_gateway_account_handler r
  admin_handler AdminRoute.invoices r = create_invoice_handler r

-- `subtle.ConstantTimeCompare` is 1 for equal texts, and 0 for any other two.
unfoldable pub api_key_auth : String → Request → Exec Response → Exec Response
api_key_auth api_key r next =
    if str_eq r.admin_key ""
    then pure (Response.admin_error "missing X-Admin-Key header" 401)
    else if not (str_eq api_key r.admin_key)
    then pure (Response.admin_error "invalid API key" 401)
    else next
