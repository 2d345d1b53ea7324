-- ===== src/Admin/Access.antt =====
-- Requests to the admin API (khazina/internal/admin/middleware.go) without its key.
use saftaja.Prelude.{Bool, false, ◌≡◌, refl, String, str_eq, Bool-cases, inl, inr, arith}
use saftaja.Env.{Env}
use saftaja.Exec.{World, State, Result, ok, panic, Exec, pure, raise, attempt, read, ◌>>=◌}
use saftaja.Exec.After.{
  bind-After, pure-After, attempt-total, Answers, Answers-result, attempt-read-After, done,
  Runs-map,
}
use saftaja.Store.Reads.{get_project_by_custom_domain}
use saftaja.Web.Request.{Request, Response, Route, AdminRoute, WebEnv}
use saftaja.Web.Tenant.{
  is_domain_valid, origin_allowed, origin_host, tenant_resolver, get_project_by_domain,
  dynamic_cors, WithOrigin,
}
use saftaja.Web.Router.{App, recoverer, handle}
use saftaja.Admin.Handlers.{api_key_auth}

module _ (env : Env) (s0 : State) where
  -- The check of a domain leaves the state as it is, and does not panic.
  abbrev Checked : Result Bool × World → Type 0
  Checked x = (x.1.state ≡ s0) × (x.0 ≡ panic → ⊥)

  domain-Checked :
      (domain : String) (w : World) → w.state ≡ s0 → Checked (is_domain_valid env domain w)
  unfolding is_domain_valid get_project_by_custom_domain ◌>>=◌ attempt read pure raise
  domain-Checked domain w e = ground arith

  origin-Answers :
      (origin : String) (w : World)
      → w.state ≡ s0
      → Answers (λ _ u. u.state ≡ s0) (origin_allowed env origin w)
  unfolding origin_allowed
  origin-Answers origin w e =
      let checked = domain-Checked (origin_host origin) w e in
      elim (Bool-cases (str_eq origin "")) [
        | inl y ↦ rw y (pure-After _ _ e)
        | inr n ↦
            rw n (bind-After _ _ w (attempt-total _ w checked.1 λ x. pure-After _ _ checked.0))
      ]

module _ (web : WebEnv) (env : Env) (app : App) (a : AdminRoute) (r : Request) (w : World)
    (wrong : str_eq app.admin_api_key r.admin_key ≡ false) where
  abbrev Rejected : WithOrigin → World → Type 0
  Rejected reply u =
      (u.state ≡ w.state) × (message : String) × (reply.1 ≡ Response.admin_error message 401)

  refused-Answers :
      (next : Exec Response) (v : World)
      → v.state ≡ w.state
      → Answers
          (λ x u. (u.state ≡ w.state) × (message : String) × (x ≡ Response.admin_error message 401))
          (recoverer (api_key_auth app.admin_api_key r next) v)
  unfolding recoverer api_key_auth pure
  refused-Answers next v e = elim (Bool-cases (str_eq r.admin_key "")) [
    | inl y ↦ rw y (done _ _ (e, "missing X-Admin-Key header", refl))
    | inr n ↦ rw (n, wrong) (done _ _ (e, "invalid API key", refl))
  ]

  handle-Answers :
      str_eq r.method "OPTIONS" ≡ false → Answers Rejected (handle web env app (Route.admin a) r w)
  unfolding handle dynamic_cors tenant_resolver get_project_by_domain get_project_by_custom_domain
  handle-Answers other = bind-After _ _ _ (
      Runs-map
        (λ allow v e. rw other (
          bind-After _ _ v (
            Runs-map (λ x u h. pure-After _ _ h)
              (bind-After _ _ v (
                attempt-read-After env _ _ (λ p _. refused-Answers _ _ e)
                  (λ x. refused-Answers _ _ e))))))
        (origin-Answers env w.state r.origin w refl))

-- A request to a route of the admin API that is no preflight and does not carry the admin key is
-- answered with the status 401, whatever the database answers, and no table changes and nothing is
-- sent to the gateway.
pub handle-unauthorized :
    (web : WebEnv) (env : Env) (app : App) (a : AdminRoute) (r : Request) (w : World)
    → str_eq app.admin_api_key r.admin_key ≡ false
    → str_eq r.method "OPTIONS" ≡ false
    → (reply : WithOrigin) × ((handle web env app (Route.admin a) r w).0 ≡ ok reply)
      × ((handle web env app (Route.admin a) r w).1.state ≡ w.state)
      × (message : String) × (reply.1 ≡ Response.admin_error message 401)
handle-unauthorized web env app a r w wrong other =
    let (reply, is, (same, message, unauthorized)) =
      Answers-result (handle-Answers web env app a r w wrong other) in
    (reply, is, same, message, unauthorized)
