-- ===== src/Concurrent/Http/Safety.antt =====
-- A request to the server of khazina/main.go among other programs, and how many calls it makes.
use saftaja.Prelude.{Bool-cases, inl, inr, Option, none, some, String, str_eq, if◌then◌else◌}
use saftaja.Env.{Env}
use saftaja.Errors.{is_no_rows}
use saftaja.Exec.{Result, ok, err, panic, read, gives}
use saftaja.Store.Rows.{Project}
use saftaja.Store.Reads.{get_project_by_custom_domain}
use saftaja.Web.Router.{App, recovered}
use saftaja.Web.Request.{Request, Response, Route, WebEnv}
use saftaja.Web.Tenant.{allowed, get_project_by_domain, resolved}
use saftaja.Concurrent.Program.{Program, ends, returns, call, catch, ◌>>=◌}
use saftaja.Concurrent.Rules.{nothing_known, read-Quiet, quiet_Runs, call-Safe, catch-Safe}
use saftaja.Concurrent.Ending.{Within, catch-Within}
use saftaja.Concurrent.Http.Handlers.Safety.{
  Sound, finish-Sound, returns-Sound, if-Sound, checkout-Sound, initiate_session-Sound,
  initiate_auth-Sound, process_auth-Sound, finalize-Sound, verify_domain-Sound, admin-Sound,
  key-Sound,
}
use saftaja.Concurrent.Http.Reading.{Reads, bind-Sound}
use saftaja.Concurrent.Http.{
  validity, is_domain_valid, tenant_resolver, origin_allowed, with_origin, dynamic_cors,
  route_handler, handle,
}

module _ (env : Env) where
  -- What is left of `origin_allowed` once the project is looked up.
  abbrev looked_up : String → Result Project → Program (Option String)
  looked_up origin r = catch (catch (ends r) >>= validity env) >>= λ valid.
      returns (if allowed valid then some origin else none)

  looked_up_ends :
      (origin : String) (r : Result Project)
      → Reads (looked_up origin r) × Within 0 (looked_up origin r)
  unfolding catch ◌>>=◌
  looked_up_ends origin (ok p) = (tt, tt)
  looked_up_ends origin (err e) = elim (Bool-cases (is_no_rows e)) [
    | inl y ↦ rw y (tt, tt)
    | inr n ↦ rw n (tt, tt)
  ]
  looked_up_ends origin panic = (tt, tt)

  origin_allowed_lem :
      (origin : String) → Reads (origin_allowed env origin) × Within 1 (origin_allowed env origin)
  unfolding origin_allowed is_domain_valid get_project_by_custom_domain catch ◌>>=◌
  origin_allowed_lem origin = elim (Bool-cases (str_eq origin "")) [
    | inl y ↦ rw y (tt, tt)
    | inr n ↦
        rw n
          ((read-Quiet env _, λ r. (looked_up_ends origin r).0), λ r. (looked_up_ends origin r).1)
  ]

  tenant-Sound :
      (r : Request) (next : Option Project → Program Response)
      → ((project : Option Project) → Sound 10 (next project))
      → Sound 11 (tenant_resolver env r next)
  unfolding tenant_resolver get_project_by_domain get_project_by_custom_domain
  tenant-Sound r next k = record {
    safe =
        catch-Safe none nothing_known env _ _ (λ d d' c x. x)
          λ found. (k (resolved env found)).safe;
    within = catch-Within 10 _ _ λ found. (k (resolved env found)).within;
  }

  cors-Sound :
      (r : Request) (next : Program Response) → Sound 11 next → Sound 12 (dynamic_cors env r next)
  unfolding dynamic_cors
  cors-Sound r next k =
      let (reads, bound) = origin_allowed_lem r.origin in
      bind-Sound _ 1 11 (origin_allowed env r.origin) reads bound λ allow.
        if-Sound 11 (str_eq r.method "OPTIONS") _ _ (returns-Sound 11 _)
          (finish-Sound (with_origin env allow) 11 next k)

module _ (web : WebEnv) (env : Env) (app : App) where
  ping-Sound : Sound 10 (call (read env λ _. gives tt))
  ping-Sound = record {
    safe =
        call-Safe none nothing_known nothing_known (λ _. none) (λ _. nothing_known) _ ends
          (quiet_Runs none nothing_known _ (read-Quiet env _) λ d d' c x. x) (λ a d d' c x. x)
          (λ d d' c x. x) (λ a. tt) (λ e. tt) tt;
    within = λ r. tt;
  }

  route-Sound :
      (route : Route) (project : Option Project) (r : Request)
      → Sound 10 (route_handler web env app route project r)
  route-Sound Route.health project r = finish-Sound _ 10 _ ping-Sound
  route-Sound Route.checkout project r = checkout-Sound web env app.payments app.admins project r
  route-Sound Route.initiate project r =
      initiate_session-Sound web env app.payments app.admins project r
  route-Sound Route.initiate_auth project r =
      initiate_auth-Sound web env app.payments app.admins project r
  route-Sound Route.process_auth project r =
      process_auth-Sound web env app.payments app.admins project r
  route-Sound Route.finalize project r = finalize-Sound web env app.payments app.admins project r
  route-Sound Route.verify_domain project r =
      verify_domain-Sound web env app.payments app.admins app.verify_domain_secret r
  route-Sound (Route.admin a) project r =
      key-Sound app.admin_api_key r _ (admin-Sound web env app.payments app.admins a r)

  pub handle-Sound : (route : Route) (r : Request) → Sound 12 (handle web env app route r)
  unfolding handle
  handle-Sound route r = cors-Sound env r _ (
      tenant-Sound env r _
        λ project. finish-Sound (λ x. ok (recovered x)) 10 _ (route-Sound route project r))
