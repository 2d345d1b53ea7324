-- ===== src/Concurrent/Http.antt =====
-- The handlers and middlewares of khazina/main.go and khazina/internal/web as programs.
pub mod Handlers
pub mod Alone
pub mod Reading
pub mod Safety
pub mod Server
use saftaja.Prelude.{
  Bool, true, false, Option, none, some, String, str_eq, not, if◌then◌else◌, is_some,
}
use saftaja.Env.{Env}
use saftaja.Errors.{Error, is_no_rows}
use saftaja.Exec.{Result, ok, err, panic, read, gives}
use saftaja.Store.Rows.{Project}
use saftaja.Concurrent.Program.{Program, ends, calls, call, returns, catch, ◌>>=◌}
use saftaja.Concurrent.Http.Handlers.{
  finish, respond, checkout_page_handler, initiate_session_handler, card_initiate_auth_handler,
  card_process_auth_handler, card_finalize_handler, verify_domain_handler, api_key_auth,
  admin_handler,
}
use saftaja.Web.Router.{App, recovered}
use saftaja.Web.Request.{Request, Response, Route, WebEnv}
use saftaja.Web.Tenant.{
  WithOrigin, origin_host, strip_port, allowed, resolved, get_project_by_domain,
}
use saftaja.Store.Reads.{get_project_by_custom_domain}

module _ (env : Env) where
  abbrev pub validity : Result Project → Program Bool
  validity (ok _) = returns true
  validity (err e) = if is_no_rows e then returns false else ends (err e)
  validity panic = ends panic

  unfoldable pub is_domain_valid : String → Program Bool
  is_domain_valid domain = do
    found ← catch (call (get_project_by_custom_domain env (some domain)))
    validity found

  unfoldable pub tenant_resolver : Request → (Option Project → Program Response) → Program Response
  tenant_resolver r next = do
    found ← catch (call (get_project_by_domain env (strip_port r.host)))
    next (resolved env found)

  unfoldable pub origin_allowed : String → Program (Option String)
  origin_allowed origin = if str_eq origin "" then returns none else do
    valid ← catch (is_domain_valid (origin_host origin))
    returns (if allowed valid then some origin else none)

  abbrev pub with_origin : Option String → Result Response → Result WithOrigin
  with_origin allow (ok response) = ok (allow, response)
  with_origin allow (err e) = err e
  with_origin allow panic = panic

  unfoldable pub dynamic_cors : Request → Program Response → Program WithOrigin
  dynamic_cors r next = do
    allow ← origin_allowed r.origin
    if str_eq r.method "OPTIONS"
        then returns (allow, Response.plain 204)
        else finish (with_origin allow) next

abbrev pub recoverer : Program Response → Program Response
recoverer p = finish (λ r. ok (recovered r)) p

module _ (web : WebEnv) (env : Env) (app : App) where
  abbrev pub health_handler : Program Response
  health_handler =
      respond (call (read env λ _. gives tt)) (λ _. Response.plain 200) (λ _. Response.plain 503)

  abbrev pub route_handler : Route → Option Project → Request → Program Response
  route_handler Route.health project r = health_handler
  route_handler Route.checkout project r = checkout_page_handler web env app.payments project r
  route_handler Route.initiate project r = initiate_session_handler web env app.payments project r
  route_handler Route.initiate_auth project r =
      card_initiate_auth_handler web env app.payments project r
  route_handler Route.process_auth project r =
      card_process_auth_handler web env app.payments project r
  route_handler Route.finalize project r = card_finalize_handler web env app.payments project r
  route_handler Route.verify_domain project r =
      verify_domain_handler env app.payments app.verify_domain_secret r
  route_handler (Route.admin a) project r =
      api_key_auth app.admin_api_key r (admin_handler web env app.admins a r)

  unfoldable pub handle : Route → Request → Program WithOrigin
  handle route r =
      dynamic_cors env r
        (tenant_resolver env r λ project. recoverer (route_handler route project r))
