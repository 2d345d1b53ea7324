-- ===== src/Web/Build.antt =====
-- What `main` (khazina/main.go) has once it starts to serve.
use saftaja.Prelude.{◌≡◌, false, length, str_eq, some, arith}
use saftaja.Env.{Env}
use saftaja.Exec.{ok}
use saftaja.Config.{Config, validate, get_encryption_key}
use saftaja.Web.Router.{App, build}

-- What the configuration of a server that starts has.
pub record Complete (env : Env) (cfg : Config) (app : App) : Type 0 where
  pub payments_key : length app.payments.encryption_key ≡ 32
  pub key : env.base64_decode cfg.encryption_key ≡ some app.payments.encryption_key
  pub shared_key : app.admins.encryption_key ≡ app.payments.encryption_key
  pub admin_key : app.admin_api_key ≡ cfg.admin_api_key
  pub admin_key_given : str_eq app.admin_api_key "" ≡ false
  pub secret : app.verify_domain_secret ≡ cfg.verify_domain_secret
  pub secret_given : str_eq app.verify_domain_secret "" ≡ false

-- A server that starts encrypts and decrypts credentials under one key of 32 bytes, which is the
-- configured one, and neither its admin key nor its secret for the verification of domains is empty.
pub build-Complete :
    (env : Env) (cfg : Config) (app : App) → build env cfg ≡ ok app → Complete env cfg app
unfolding build validate get_encryption_key
build-Complete env cfg app h = ground arith
