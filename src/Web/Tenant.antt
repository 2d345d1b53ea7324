-- ===== src/Web/Tenant.antt =====
-- khazina/internal/tenant/service.go, and the middlewares cors.go and tenant.go of
-- khazina/internal/web/middlewares.
use Prim.Native.String
use text.Mathlib.Text
use saftaja.Prelude.{Bool, true, false, Option, none, some, String, str_eq, if◌then◌else◌}
use saftaja.Env.{Env}
use saftaja.Errors.{is_no_rows}
use saftaja.Exec.{Result, ok, err, panic, Exec, pure, raise, crash, attempt, ◌>>=◌}
use saftaja.Store.Rows.{Project}
use saftaja.Store.Reads.{get_project_by_custom_domain}
use saftaja.Web.Request.{Request, Response}

-- `strings.TrimPrefix`
abbrev pub trim_prefix : String → String → String
trim_prefix s prefix =
    if Text.starts_with s prefix then String.slice s (String.len prefix) (String.len s) else s

-- the part before the first colon
abbrev pub strip_port : String → String
strip_port host = elim (Text.find? host ":") [ none ↦ host | some i ↦ String.slice host 0 i ]

abbrev pub origin_host : String → String
origin_host origin = trim_prefix (trim_prefix origin "https://") "http://"

-- a response with the value of `Access-Control-Allow-Origin`
abbrev pub WithOrigin : Type 0
WithOrigin = Option String × Response

-- `valid, _ := …`
abbrev pub allowed : Result Bool → Bool
allowed (ok b) = b
allowed _ = false

module _ (env : Env) where
  unfoldable pub get_project_by_domain : String → Exec Project
  get_project_by_domain domain = get_project_by_custom_domain env (some domain)

  abbrev pub validity : Result Project → Exec Bool
  validity (ok _) = pure true
  validity (err e) = if is_no_rows e then pure false else raise e
  validity panic = crash

  unfoldable pub is_domain_valid : String → Exec Bool
  is_domain_valid domain = do
    found ← attempt (get_project_by_custom_domain env (some domain))
    validity found

  -- `project, err := …; if err == nil`
  abbrev pub resolved : Result Project → Option Project
  resolved (ok p) = some p
  resolved _ = none

  unfoldable pub tenant_resolver : Request → (Option Project → Exec Response) → Exec Response
  tenant_resolver r next = do
    found ← attempt (get_project_by_domain (strip_port r.host))
    next (resolved found)

  unfoldable pub origin_allowed : String → Exec (Option String)
  origin_allowed origin = if str_eq origin "" then pure none else do
    valid ← attempt (is_domain_valid (origin_host origin))
    pure (if allowed valid then some origin else none)

  unfoldable pub dynamic_cors : Request → Exec Response → Exec WithOrigin
  dynamic_cors r next = do
    allow ← origin_allowed r.origin
    if str_eq r.method "OPTIONS"
        then pure (allow, Response.plain 204)
        else do response ← next; pure (allow, response)
