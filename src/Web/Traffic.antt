-- ===== src/Web/Traffic.antt =====
-- What a request to the HTTP server (khazina/main.go and khazina/internal/web) does to the tables
-- and at the gateway.
pub mod Origin
use mathlib.Core.Path.{subst₂}
use saftaja.Prelude.{
  ◌∙◌, ◌≡◌, refl, inl, inr, Option, none, some, String, str_eq, Bool-cases, arith,
}
use saftaja.Env.{Env}
use saftaja.Exec.{State, World, Exec, Result, read, gives}
use saftaja.Exec.After.{
  Runs, bind-After, pure-After, attempt-read-After, Runs-final, read-After, Runs-map, Runs-weaken,
  done,
}
use saftaja.Store.Rows.{Project}
use saftaja.Store.Reads.{get_project_by_custom_domain}
use saftaja.Payment.Checkout.{get_checkout_data, verify_domain}
use saftaja.Payment.Types.{
  InitiateSessionRequest, InitiateAuthRequest, ProcessAuthRequest, FinalizePaymentRequest,
}
use saftaja.Ledger.Sql.{one-gives}
use saftaja.Ledger.Traffic.{Call, serve}
use saftaja.Web.Request.{Request, Response, Route, WebEnv}
use saftaja.Web.Router.{App, recoverer, health_handler, route_handler, handle}
use saftaja.Web.Tenant.{strip_port, get_project_by_domain, tenant_resolver, dynamic_cors}
use saftaja.Web.Handlers.{
  bad_request, json_handler, checkout_page_handler, initiate_session_handler,
  card_initiate_auth_handler, card_process_auth_handler, card_finalize_handler,
  verify_domain_handler, session_request, auth_request, process_request, finalize_request,
}
use saftaja.Web.Outcome.{hosted_project, OneCall, Ends, called, respond-Runs, parsed-Runs}
use saftaja.Web.Administration.{admin-Runs}
use saftaja.Web.Traffic.Origin.{origin-Runs}

none≢some : {A : Type 0} {a : A} → none ≡ some a → ⊥
none≢some h = cc

module _ (web : WebEnv) (r : Request) (p : Project) where
  session_request-project :
      (req : InitiateSessionRequest) → session_request web r p ≡ some req → p.id ≡ req.project_id
  session_request-project req h = ground arith

  auth_request-project :
      (req : InitiateAuthRequest) → auth_request web r p ≡ some req → p.id ≡ req.project_id
  auth_request-project req h = ground arith

  process_request-project :
      (req : ProcessAuthRequest) → process_request web r p ≡ some req → p.id ≡ req.project_id
  process_request-project req h = ground arith

  finalize_request-project :
      (req : FinalizePaymentRequest) → finalize_request web r p ≡ some req → p.id ≡ req.project_id
  finalize_request-project req h = ground arith

module _ (env : Env) (app : App) (host key : String) (s0 : State) where
  abbrev Safe : {A : Type 0} → Result A × World → Type 0
  Safe x = Runs (OneCall env app host key s0) (Ends env app host key s0) x

  json-Runs :
      {A Req : Type 0} (web : WebEnv) (r : Request) (project : Option Project)
      (read_request : Project → Option Req) (call : Req → Exec A) (next : A → Response) (w : World)
      → w.state ≡ s0
      → ((p : Project) (req : Req)
          → project ≡ some p
          → read_request p ≡ some req
          → OneCall env app host key s0 (call req w).1.state)
      → Safe (json_handler web r project read_request call next w)
  json-Runs web r none read_request call next w e h = pure-After _ _ (inl e)
  json-Runs web r (some p) read_request call next w e h =
      parsed-Runs env app host key s0 (bad_request web r) (read_request p) _ w e
        λ req read. respond-Runs env app host key s0 (call req) next _ w (h p req refl read)

  module _ (web : WebEnv) (r : Request) where
    checkout-Runs :
        (project : Option Project) (w : World)
        → w.state ≡ s0
        → ((p : Project) → project ≡ some p → hosted_project host s0.db ≡ some p)
        → Safe (checkout_page_handler web env app.payments app.verify_domain_secret project r w)
    unfolding checkout_page_handler serve
    checkout-Runs none w e own = pure-After _ _ (inl e)
    checkout-Runs (some p) w e own =
        parsed-Runs env app host key s0 _ (web.parse_uuid r.invoice_id) _ w e λ i _.
          respond-Runs env app host key s0 (get_checkout_data env app.payments i p.id) _ _ w
            (called env app host key s0 (Call.checkout i p.id) w e (p, own p refl, refl))

    verify-Runs :
        (w : World)
        → w.state ≡ s0
        → Safe (verify_domain_handler web env app.payments app.verify_domain_secret r w)
    unfolding verify_domain_handler serve
    verify-Runs w e = elim (Bool-cases (str_eq r.secret app.verify_domain_secret)) [
      | inr n ↦ rw n (pure-After _ _ (inl e))
      | inl y ↦ rw y (elim (Bool-cases (str_eq r.domain "")) [
        | inl y' ↦ rw y' (pure-After _ _ (inl e))
        | inr n' ↦ rw n' (
            respond-Runs env app host key s0 (verify_domain env app.payments r.domain) _ _ w
              (called env app host key s0 (Call.domain r.domain) w e tt))
      ])
    ]

    health-Runs : (w : World) → w.state ≡ s0 → Safe (health_handler web env app w)
    unfolding health_handler
    health-Runs w e =
        respond-Runs env app host key s0 (read env λ _. gives tt) _ _ w
          (inl (Runs-final {E = λ t. t ≡ s0} (read-After env (λ _. gives tt) w e λ _ _. e)))

    route-Runs :
        (route : Route) (project : Option Project) (w : World)
        → w.state ≡ s0
        → r.admin_key ≡ key
        → ((p : Project) → project ≡ some p → hosted_project host s0.db ≡ some p)
        → Safe (route_handler web env app route project r w)
    unfolding initiate_session_handler card_initiate_auth_handler card_process_auth_handler
        card_finalize_handler serve
    route-Runs Route.health project w e at own = health-Runs w e
    route-Runs (Route.admin a) project w e at own = admin-Runs env app host key s0 web r a at w e
    route-Runs Route.checkout project w e at own = checkout-Runs project w e own
    route-Runs Route.initiate project w e at own =
        json-Runs web r project _ _ _ w e λ p req is read.
          called env app host key s0 (Call.session req) w e
            (p, own p is, session_request-project web r p req read)
    route-Runs Route.initiate_auth project w e at own =
        json-Runs web r project _ _ _ w e λ p req is read.
          called env app host key s0 (Call.authenticate req) w e
            (p, own p is, auth_request-project web r p req read)
    route-Runs Route.process_auth project w e at own =
        json-Runs web r project _ _ _ w e λ p req is read.
          called env app host key s0 (Call.challenge req) w e
            (p, own p is, process_request-project web r p req read)
    route-Runs Route.finalize project w e at own =
        json-Runs web r project _ _ _ w e λ p req is read.
          called env app host key s0 (Call.finalize req) w e
            (p, own p is, finalize_request-project web r p req read)
    route-Runs Route.verify_domain project w e at own = verify-Runs w e

    -- `Recoverer` and the handler under it
    recovered-Runs : (m : Exec Response) (w : World) → Safe (m w) → Safe (recoverer m w)
    unfolding recoverer
    recovered-Runs m w h = done _ _ (Runs-final h)

    tenant-Runs :
        (route : Route) (w : World)
        → w.state ≡ s0
        → strip_port r.host ≡ host
        → r.admin_key ≡ key
        → Safe (
            tenant_resolver env r
              (λ project. recoverer (route_handler web env app route project r))
              w)
    unfolding tenant_resolver get_project_by_domain get_project_by_custom_domain
    tenant-Runs route w e at right = bind-After _ _ _ (
        attempt-read-After env _ _
          (λ p row.
            let hosted = subst₂ (λ x t. hosted_project x t.db ≡ some p) at e (one-gives _ p row) in
            recovered-Runs _ _ (route-Runs route (some p) _ e right λ q is. hosted ∙ is))
          (λ x. recovered-Runs _ _ (route-Runs route none _ e right λ q is. absurd (none≢some is))))

module _ (web : WebEnv) (env : Env) (app : App) (route : Route) (r : Request) (w : World) where
  abbrev pub Scoped : State → Type 0
  Scoped = OneCall env app (strip_port r.host) r.admin_key w.state

  handle-Runs : Runs Scoped (λ _ v. Scoped v.state) (handle web env app route r w)
  unfolding handle dynamic_cors
  handle-Runs = bind-After _ _ _ (
      Runs-weaken (λ t. inl)
        (λ allow v e. elim (Bool-cases (str_eq r.method "OPTIONS")) [
          | inl y ↦ rw y (pure-After _ _ (inl e))
          | inr n ↦ rw n (
              bind-After _ _ _ (
                Runs-map (λ x u h. pure-After _ _ h)
                  (tenant-Runs env app (strip_port r.host) r.admin_key w.state web r route v e refl
                    refl)))
        ])
        (origin-Runs env w r.origin))

-- A request to any route makes at most one call of the payment service or of the admin service, and
-- nothing else changes a table or reaches the gateway. A call of the payment service is made for the
-- project of the tables that has the host of the request as its custom domain, except for the
-- verification of a domain, which is made for no project; a call of the admin service is made only
-- where the request carries the admin key.
pub handle-OneCall :
    (web : WebEnv) (env : Env) (app : App) (route : Route) (r : Request) (w : World)
    → OneCall env app (strip_port r.host) r.admin_key w.state (handle web env app route r w).1.state
handle-OneCall web env app route r w = Runs-final (handle-Runs web env app route r w)
