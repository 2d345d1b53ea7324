-- ===== src/Concurrent/Http/Handlers.antt =====
-- The handlers of khazina/internal/web/handlers.go and khazina/internal/admin/handlers.go as
-- programs.
pub mod Alone
pub mod Safety
use saftaja.Prelude.{Bool, Option, none, some, String, str_eq, not, if◌then◌else◌, is_some}
use saftaja.Env.{Env}
use saftaja.Errors.{Error}
use saftaja.Exec.{Result, ok, err, panic}
use saftaja.Store.Rows.{Project}
use saftaja.Localisation.Language.{detect_language}
use saftaja.Web.Texts.{respond_error}
use saftaja.Web.Errors.{handle_payment_error}
use saftaja.Web.Handlers.{
  unknown_project, bad_request, session_request, auth_request, process_request, finalize_request,
  page_of, session_response, not_found_or_broken, completion,
}
use saftaja.Web.Request.{Request, Response, AdminRoute, WebEnv}
use saftaja.Payment.Types.{Service}
use saftaja.Admin.Types
use saftaja.Admin.Types.{Created}
use saftaja.Admin.Handlers.{invalid_body, failed_to, with_environment, is_nil_uuid}
use saftaja.Concurrent.Program.{Program, ends, calls, returns}
use saftaja.Concurrent.Checkout.{get_checkout_data, verify_domain}
use saftaja.Concurrent.Initiate.{initiate_session}
use saftaja.Concurrent.Auth.{initiate_auth, process_auth}
use saftaja.Concurrent.Finalize.{finalize_payment}
use saftaja.Concurrent.Admin.{
  create_organization, create_project, create_gateway_account, create_invoice,
}

module _ {A B : Type 0} where
  -- What is made of the result of a program once it has ended.
  unfoldable pub finish : (Result A → Result B) → Program A → Program B
  finish h (ends r) = ends (h r)
  finish h (calls m next) = calls m (λ x. finish h (next x))

module _ {A : Type 0} where
  abbrev pub response_of : (A → Response) → (Error → Response) → Result A → Result Response
  response_of next failed (ok a) = ok (next a)
  response_of next failed (err e) = ok (failed e)
  response_of next failed panic = panic

  abbrev pub respond : Program A → (A → Response) → (Error → Response) → Program Response
  respond p next failed = finish (response_of next failed) p

  abbrev pub parsed : Response → Option A → (A → Program Response) → Program Response
  parsed bad none next = returns bad
  parsed bad (some a) next = next a

module _ {A : Type 0} where
  abbrev pub json_handler :
      {Req : Type 0}
      → WebEnv
      → Request
      → Option Project
      → (Project → Option Req)
      → (Req → Program A)
      → (A → Response)
      → Program Response
  json_handler web r none read_request operation next = returns (unknown_project web r)
  json_handler web r (some p) read_request operation next =
      parsed (bad_request web r) (read_request p)
        λ req. respond (operation req) next (λ e. respond_error web r (handle_payment_error e))

module _ (web : WebEnv) (env : Env) (s : Service) where
  abbrev pub checkout_page_handler : Option Project → Request → Program Response
  checkout_page_handler none r = returns (Response.plain 404)
  checkout_page_handler (some p) r = parsed (Response.plain 400) (web.parse_uuid r.invoice_id) λ i.
      respond (get_checkout_data env s i p.id) (page_of env (detect_language web r))
        not_found_or_broken

  abbrev pub initiate_session_handler : Option Project → Request → Program Response
  initiate_session_handler project r =
      json_handler web r project (session_request web r) (initiate_session env s)
        (session_response env)

  abbrev pub card_initiate_auth_handler : Option Project → Request → Program Response
  card_initiate_auth_handler project r =
      json_handler web r project (auth_request web r) (initiate_auth env s)
        (λ a. Response.auth_initiated a.next_step a.transaction_id)

  abbrev pub card_process_auth_handler : Option Project → Request → Program Response
  card_process_auth_handler project r =
      json_handler web r project (process_request web r) (process_auth env s)
        (λ a. Response.auth_processed a.next_step a.redirect_html)

  abbrev pub card_finalize_handler : Option Project → Request → Program Response
  card_finalize_handler project r =
      json_handler web r project (finalize_request web r) (finalize_payment env s)
        (completion web r)

module _ (env : Env) (s : Service) (verify_domain_secret : String) where
  abbrev pub verify_domain_handler : Request → Program Response
  verify_domain_handler r =
      if not (str_eq r.secret verify_domain_secret)
      then returns (Response.plain 403)
      else if str_eq r.domain ""
      then returns (Response.plain 400)
      else respond (verify_domain env s r.domain)
          (λ valid. if valid then Response.plain 200 else Response.plain 404)
          (λ _. Response.plain 500)

abbrev pub demand : Bool → String → Program Response → Program Response
demand missing message next = if missing then returns (Response.admin_error message 400) else next

module _ (web : WebEnv) (env : Env) (s : Types.Service) where
  abbrev pub admin_handler : AdminRoute → Request → Program Response
  admin_handler AdminRoute.organizations r =
      parsed invalid_body (web.decode_organization r.body) λ req.
        demand (str_eq req.name "") "name is required" (
          respond (create_organization env s req) (λ o. Response.created (Created.organization o))
            (failed_to "failed to create organization"))
  admin_handler AdminRoute.projects r = parsed invalid_body (web.decode_project r.body) λ req.
      demand (is_nil_uuid env req.organization_id) "organization_id is required" (
        demand (str_eq req.name "") "name is required" (
          respond (create_project env s (with_environment req))
            (λ p. Response.created (Created.project p)) (failed_to "failed to create project")))
  admin_handler AdminRoute.gateway_accounts r =
      parsed invalid_body (web.decode_account r.body) λ req.
        demand (is_nil_uuid env req.project_id) "project_id is required" (
          demand (str_eq req.connector_type "") "connector_type is required" (
            demand (str_eq req.account_name "") "account_name is required" (
              demand (not (is_some req.credentials)) "credentials is required" (
                respond (create_gateway_account env s req)
                  (λ a. Response.created (Created.account a))
                  (failed_to "failed to create gateway account")))))
  admin_handler AdminRoute.invoices r = parsed invalid_body (web.decode_invoice r.body) λ req.
      demand (is_nil_uuid env req.project_id) "project_id is required" (
        demand (str_eq req.amount "") "amount is required" (
          demand (str_eq req.currency "") "currency is required" (
            respond (create_invoice env s req) (λ v. Response.created (Created.invoice v))
              (failed_to "failed to create invoice"))))

abbrev pub api_key_auth : String → Request → Program Response → Program Response
api_key_auth api_key r next =
    if str_eq r.admin_key ""
    then returns (Response.admin_error "missing X-Admin-Key header" 401)
    else if not (str_eq api_key r.admin_key)
    then returns (Response.admin_error "invalid API key" 401)
    else next
