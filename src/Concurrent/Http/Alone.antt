-- ===== src/Concurrent/Http/Alone.antt =====
-- A request that runs alone is handled as khazina/main.go handles it.
use mathlib.Core.Path.{fun_ext}
use saftaja.Prelude.{◌≡◌, ◌∙◌, refl, ap, Option, String, str_eq, not, if◌then◌else◌}
use saftaja.Env.{Env}
use saftaja.Errors.{is_no_rows}
use saftaja.Exec
use saftaja.Exec.{Result, ok, err, panic, World, Exec}
use saftaja.Store.Rows.{Project}
use saftaja.Admin.Handlers as Admin
use saftaja.Web.Router as Router
use saftaja.Web.Router.{App}
use saftaja.Web.Tenant as Tenant
use saftaja.Web.Request.{Request, Response, Route, WebEnv}
use saftaja.Concurrent.Program.{Program, run, returns}
use saftaja.Concurrent.Program.Alone.{alone, run-call, run-ends, run-returns}
use saftaja.Concurrent.Http.Handlers.{finish, api_key_auth}
use saftaja.Concurrent.Http.{
  validity, is_domain_valid, tenant_resolver, origin_allowed, with_origin, dynamic_cors, recoverer,
  route_handler, handle,
}
use saftaja.Concurrent.Http.Handlers.Alone.{
  finish-at, run-respond, run-if, checkout-alone, initiate_session_handler-alone,
  initiate_auth_handler-alone, process_auth_handler-alone, finalize_handler-alone,
  verify_domain_handler-alone, admin_handler-alone,
}

module _ (env : Env) where
  validity-alone : (r : Result Project) → run (validity env r) ≡ Tenant.validity env r
  unfolding Exec.pure Exec.raise Exec.lift Exec.crash
  validity-alone (ok p) = run-returns _
  validity-alone (err e) = run-if (is_no_rows e) _ _ _ _ (run-returns _) (run-ends _)
  validity-alone panic = run-ends _

  is_domain_valid-alone :
      (domain : String) → run (is_domain_valid env domain) ≡ Tenant.is_domain_valid env domain
  unfolding is_domain_valid Tenant.is_domain_valid
  is_domain_valid-alone domain = simp (alone, validity-alone)

  origin_allowed-alone :
      (origin : String) → run (origin_allowed env origin) ≡ Tenant.origin_allowed env origin
  unfolding origin_allowed Tenant.origin_allowed
  origin_allowed-alone origin =
      run-if (str_eq origin "") _ _ _ _ (run-returns _)
        (simp (alone, is_domain_valid-alone, run-returns))

  tenant_resolver-alone :
      (r : Request) (f : Option Project → Program Response)
      → run (tenant_resolver env r f) ≡ Tenant.tenant_resolver env r (λ project. run (f project))
  unfolding tenant_resolver Tenant.tenant_resolver
  tenant_resolver-alone r f = simp (alone)

  with_origin_lem :
      (allow : Option String) (r : Result Response) (w : World)
      → (with_origin env allow r, w)
        ≡ Exec.◌>>=◌ (λ (_ : World). (r, w)) (λ response. Exec.pure (allow, response)) w
  unfolding Exec.◌>>=◌ Exec.pure
  with_origin_lem allow (ok a) w = refl
  with_origin_lem allow (err e) w = refl
  with_origin_lem allow panic w = refl

  finish-alone :
      (allow : Option String) (p : Program Response)
      → run (finish (with_origin env allow) p)
        ≡ Exec.◌>>=◌ (run p) (λ response. Exec.pure (allow, response))
  unfolding Exec.◌>>=◌ Exec.pure
  finish-alone allow p =
      fun_ext
        λ w. finish-at (with_origin env allow) p w ∙ with_origin_lem allow (run p w).0 (run p w).1

  answered-alone :
      (r : Request) (p : Program Response) (allow : Option String)
      → run (
          if str_eq r.method "OPTIONS"
          then returns (allow, Response.plain 204)
          else finish (with_origin env allow) p)
        ≡ (if str_eq r.method "OPTIONS"
            then Exec.pure (allow, Response.plain 204)
            else Exec.◌>>=◌ (run p) (λ response. Exec.pure (allow, response)))
  answered-alone r p allow =
      run-if (str_eq r.method "OPTIONS") _ _ _ _ (run-returns _) (finish-alone allow p)

  dynamic_cors-alone :
      (r : Request) (p : Program Response)
      → run (dynamic_cors env r p) ≡ Tenant.dynamic_cors env r (run p)
  unfolding dynamic_cors Tenant.dynamic_cors
  dynamic_cors-alone r p = simp (alone, origin_allowed-alone, answered-alone)

recoverer-alone : (p : Program Response) → run (recoverer p) ≡ Router.recoverer (run p)
unfolding Router.recoverer
recoverer-alone p = fun_ext λ w. finish-at (λ r. ok (Router.recovered r)) p w

api_key_auth-alone :
    (key : String) (r : Request) (p : Program Response) (m : Exec Response)
    → run p ≡ m
    → run (api_key_auth key r p) ≡ Admin.api_key_auth key r m
unfolding Admin.api_key_auth
api_key_auth-alone key r p m e =
    run-if (str_eq r.admin_key "") _ _ _ _ (run-returns _)
      (run-if (not (str_eq key r.admin_key)) _ _ _ _ (run-returns _) e)

module _ (web : WebEnv) (env : Env) (app : App) where
  route_handler-alone :
      (route : Route) (project : Option Project) (r : Request)
      → run (route_handler web env app route project r)
        ≡ Router.route_handler web env app route project r
  unfolding Router.health_handler
  route_handler-alone Route.health project r = run-respond _ _ _ _ (run-call _)
  route_handler-alone Route.checkout project r = checkout-alone web env app.payments _ project r
  route_handler-alone Route.initiate project r =
      initiate_session_handler-alone web env app.payments _ project r
  route_handler-alone Route.initiate_auth project r =
      initiate_auth_handler-alone web env app.payments _ project r
  route_handler-alone Route.process_auth project r =
      process_auth_handler-alone web env app.payments _ project r
  route_handler-alone Route.finalize project r =
      finalize_handler-alone web env app.payments _ project r
  route_handler-alone Route.verify_domain project r =
      verify_domain_handler-alone web env app.payments app.verify_domain_secret r
  route_handler-alone (Route.admin a) project r =
      api_key_auth-alone app.admin_api_key r _ _ (admin_handler-alone web env app.admins a r)

  -- The program of a request, when no other runs, gives the same response and leaves the same tables,
  -- the same requests to the gateway and the same count of calls as the handling of the request.
  pub handle-alone :
      (route : Route) (r : Request)
      → run (handle web env app route r) ≡ Router.handle web env app route r
  unfolding handle Router.handle
  handle-alone route r =
      dynamic_cors-alone env r _
      ∙ ap (Tenant.dynamic_cors env r) (
          tenant_resolver-alone env r _
          ∙ ap (Tenant.tenant_resolver env r) (
              fun_ext λ project.
                recoverer-alone _ ∙ ap Router.recoverer (route_handler-alone route project r)))
