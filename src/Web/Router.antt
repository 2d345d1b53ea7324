-- ===== src/Web/Router.antt =====
-- khazina/main.go: what `main` builds from its configuration, and the routes and middlewares around
-- the handlers.
use saftaja.Prelude.{String, Option}
use saftaja.Domain.{Bytes}
use saftaja.Env.{Env}
use saftaja.Exec.{Result, ok, err, panic, Exec, read, gives}
use saftaja.Store.Rows.{Project}
use saftaja.Config.{Config, get_encryption_key, validate}
use saftaja.Payment.Types.{Service}
use saftaja.Admin.Types
use saftaja.Admin.Handlers.{api_key_auth, admin_handler}
use saftaja.Web.Request.{Request, Response, Route, WebEnv}
use saftaja.Web.Tenant.{tenant_resolver, dynamic_cors, WithOrigin}
use saftaja.Web.Respond.{respond}
use saftaja.Web.Handlers.{
  checkout_page_handler, initiate_session_handler, card_initiate_auth_handler,
  card_process_auth_handler, card_finalize_handler, verify_domain_handler,
}

-- What the handlers are made from.
pub record App : Type 0 where
  pub payments : Service
  pub admins : Types.Service
  pub verify_domain_secret : String
  pub admin_api_key : String

abbrev pub app_with : Config → Bytes → App
app_with cfg encryption_key = record {
  payments = record { encryption_key = encryption_key };
  admins = record { encryption_key = encryption_key };
  verify_domain_secret = cfg.verify_domain_secret;
  admin_api_key = cfg.admin_api_key;
}

abbrev and_then : {A B : Type 0} → Result A → (A → Result B) → Result B
and_then (ok a) f = f a
and_then (err e) f = err e
and_then panic f = panic

-- From `LoadConfig`, once the configuration is read, to the services; an error is `log.Fatal`.
unfoldable pub build : Env → Config → Result App
build env cfg =
    and_then (validate env cfg)
      λ _. and_then (get_encryption_key env cfg) λ key. ok (app_with cfg key)

-- `middleware.Recoverer`
abbrev pub recovered : Result Response → Response
recovered (ok a) = a
recovered _ = Response.plain 500

unfoldable pub recoverer : Exec Response → Exec Response
recoverer m w = let (r, w') = m w in (ok (recovered r), w')

module _ (web : WebEnv) (env : Env) (app : App) where
  -- `dbPool.Ping`
  unfoldable pub health_handler : Exec Response
  health_handler =
      respond (read env λ _. gives tt) (λ _. Response.plain 200) (λ _. Response.plain 503)

  abbrev pub route_handler : Route → Option Project → Request → Exec Response
  route_handler Route.health project r = health_handler
  route_handler Route.checkout project r =
      checkout_page_handler web env app.payments app.verify_domain_secret project r
  route_handler Route.initiate project r =
      initiate_session_handler web env app.payments app.verify_domain_secret project r
  route_handler Route.initiate_auth project r =
      card_initiate_auth_handler web env app.payments app.verify_domain_secret project r
  route_handler Route.process_auth project r =
      card_process_auth_handler web env app.payments app.verify_domain_secret project r
  route_handler Route.finalize project r =
      card_finalize_handler web env app.payments app.verify_domain_secret project r
  route_handler Route.verify_domain project r =
      verify_domain_handler web env app.payments app.verify_domain_secret r
  route_handler (Route.admin a) project r =
      api_key_auth app.admin_api_key r (admin_handler web env app.admins a r)

  -- The router of `main`, once it has matched a route.
  unfoldable pub handle : Route → Request → Exec WithOrigin
  handle route r =
      dynamic_cors env r
        (tenant_resolver env r λ project. recoverer (route_handler route project r))
