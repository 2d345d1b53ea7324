-- ===== src/Web/Traffic/Origin.antt =====
-- What the check of an origin (khazina/internal/web/middlewares/cors.go) does to the tables and at
-- the gateway.
use saftaja.Prelude.{◌≡◌, refl, inl, inr, String, str_eq, Bool-cases}
use saftaja.Env.{Env}
use saftaja.Errors.{is_no_rows}
use saftaja.Exec.{World}
use saftaja.Exec.After.{
  Runs, bind-After, pure-After, raise-After, attempt-After, attempt-read-After, Runs-final,
}
use saftaja.Store.Reads.{get_project_by_custom_domain}
use saftaja.Web.Tenant.{origin_host, is_domain_valid, origin_allowed}

module _ (env : Env) (w0 : World) where
  abbrev Still : {A : Type 0} → A → World → Type 0
  Still _ v = v.state ≡ w0.state

  valid-Runs :
      (domain : String) (w : World)
      → w.state ≡ w0.state
      → Runs (λ t. t ≡ w0.state) Still (is_domain_valid env domain w)
  unfolding is_domain_valid get_project_by_custom_domain
  valid-Runs domain w e = bind-After _ _ _ (
      attempt-read-After env _ _ (λ p _. pure-After _ _ e)
        (λ x. elim (Bool-cases (is_no_rows x)) [
          | inl y ↦ rw y (pure-After _ _ e)
          | inr n ↦ rw n (raise-After _ _ e)
        ]))

  pub origin-Runs :
      (origin : String) → Runs (λ t. t ≡ w0.state) Still (origin_allowed env origin w0)
  unfolding origin_allowed
  origin-Runs origin = elim (Bool-cases (str_eq origin "")) [
    | inl y ↦ rw y (pure-After _ _ refl)
    | inr n ↦ rw n (
        bind-After _ _ _ (
          attempt-After _ _ (Runs-final (valid-Runs (origin_host origin) w0 refl))
            λ x _. pure-After _ _ (Runs-final (valid-Runs (origin_host origin) w0 refl))))
  ]
