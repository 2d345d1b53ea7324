-- ===== src/Web/Cors.antt =====
-- The origins that CORS lets in (khazina/internal/web/middlewares/cors.go).
use mathlib.Core.Bool.{false≢true}
use saftaja.Prelude.{
  Bool, true, false, ◌≡◌, refl, ap, ◌∙◌, Option, none, some, String, str_eq, find?, ◌&&◌, not,
  is_some, if◌then◌else◌, Bool-cases, inl, inr,
}
use saftaja.Env.{Env}
use saftaja.Errors.{is_no_rows}
use saftaja.Exec.{World, Exec, ok, Result, err, panic}
use saftaja.Exec.After.{
  Runs, Runs-ok, Runs-map, bind-After, pure-After, raise-After, attempt-read-After, attempt-After,
  Runs-always,
}
use saftaja.Store.Rows.{Db, Project}
use saftaja.Store.Reads.{text_is, get_project_by_custom_domain}
use saftaja.Ledger.Sql.{one-gives}
use saftaja.Web.Request.{Request, Response}
use saftaja.Web.Tenant.{is_domain_valid, allowed, origin_allowed, origin_host, dynamic_cors}

-- a project that has this custom domain and is not deleted
abbrev pub live_at : String → Project → Bool
live_at domain p = text_is p.custom_domain (some domain) && not (is_some p.deleted_at)

-- Some project has this domain.
abbrev pub Registered : String → Db → Type 0
Registered domain d = (p : Project) × (find? (live_at domain) d.projects ≡ some p)

module _ (env : Env) (w : World) where
  valid-Runs :
      (domain : String)
      → Runs (λ _. Unit) (λ b v. b ≡ true → Registered domain w.db) (is_domain_valid env domain w)
  unfolding is_domain_valid get_project_by_custom_domain
  valid-Runs domain = bind-After _ _ _ (
      attempt-read-After env _ _ (λ p row. pure-After _ _ (λ _. (p, one-gives _ p row)))
        (λ x. elim (Bool-cases (is_no_rows x)) [
          | inl y ↦ rw y (pure-After _ _ (λ h. absurd (false≢true h)))
          | inr n ↦ rw n (raise-After _ _ tt)
        ]))

  allowed-ok : (r : Result Bool) → allowed r ≡ true → r ≡ ok true
  allowed-ok (ok b) h = ap ok h
  allowed-ok (err e) h = absurd (false≢true h)
  allowed-ok panic h = absurd (false≢true h)

  -- what an allowed origin stands for
  abbrev Known : String → Option String → Type 0
  Known origin none = Unit
  Known origin (some o) = (o ≡ origin) × Registered (origin_host origin) w.db

  known :
      (origin : String) (b : Bool)
      → (b ≡ true → Registered (origin_host origin) w.db)
      → Known origin (if b then some origin else none)
  known origin true h = (refl, h refl)
  known origin false h = tt

  origin-Runs :
      (origin : String) → Runs (λ _. Unit) (λ a v. Known origin a) (origin_allowed env origin w)
  unfolding origin_allowed
  origin-Runs origin = elim (Bool-cases (str_eq origin "")) [
    | inl y ↦ rw y (pure-After _ _ tt)
    | inr n ↦ rw n (
        bind-After _ _ _ (
          attempt-After _ _ tt λ x is. pure-After _ _ (
            known origin (allowed x)
              λ yes. Runs-ok (valid-Runs (origin_host origin)) (is ∙ allowed-ok x yes) refl)))
  ]

  cors-Runs :
      (r : Request) (next : Exec Response)
      → Runs (λ _. Unit) (λ a v. Known r.origin a.0) (dynamic_cors env r next w)
  unfolding dynamic_cors
  cors-Runs r next = bind-After _ _ _ (
      Runs-map
        (λ allow v k. elim (Bool-cases (str_eq r.method "OPTIONS")) [
          | inl y ↦ rw y (pure-After _ _ k)
          | inr n ↦ rw n (bind-After _ _ _ (Runs-map (λ x u _. pure-After _ _ k) (anything next v)))
        ])
        (origin-Runs r.origin))
    where
      anything : (m : Exec Response) (v : World) → Runs (λ _. Unit) (λ _ _. Unit) (m v)
      anything m v = Runs-always (λ _. tt) (λ _ _. tt) (m v)

-- A response carries `Access-Control-Allow-Origin` only with the origin of its request, and only if
-- the host of this origin is the custom domain of a project that is not deleted.
pub dynamic_cors-Registered :
    (env : Env) (r : Request) (next : Exec Response) (w : World) (o : String) (response : Response)
    → (dynamic_cors env r next w).0 ≡ ok (some o, response)
    → (o ≡ r.origin) × Registered (origin_host r.origin) w.db
dynamic_cors-Registered env r next w o response e = Runs-ok (cors-Runs env w r next) e
