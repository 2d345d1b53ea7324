-- ===== src/Config.antt =====
-- khazina/internal/config/config.go: `Config`, `Validate` and `GetEncryptionKey`. Reading it from the
-- environment is the library viper's.
use saftaja.Prelude.{
  ℕ, zero, Bool, true, false, Option, none, some, String, str_eq, not, ◌==◌, length, if◌then◌else◌,
}
use saftaja.Domain.{ℤ, Bytes}
use saftaja.Env.{Env}
use saftaja.Errors.{Error}
use saftaja.Exec.{Result, ok, err}

pub record Config : Type 0 where
  pub db_host : String
  -- a `uint16`
  pub db_port : ℕ
  pub db_database : String
  pub db_user : String
  pub db_password : String
  pub port : ℤ
  pub encryption_key : String
  pub verify_domain_secret : String
  pub admin_api_key : String

abbrev is_zero : ℤ → Bool
is_zero (ℤ.pos zero) = true
is_zero _ = false

-- `if broken { return errors.New(message) }`
abbrev pub check : Bool → String → Result (Unit {0}) → Result (Unit {0})
check broken message next = if broken then err (Error.plain message) else next

abbrev pub decoded : {A : Type 0} → Option Bytes → String → (Bytes → Result A) → Result A
decoded none message next = err (Error.plain message)
decoded (some bytes) message next = next bytes

module _ (env : Env) where
  unfoldable pub validate : Config → Result (Unit {0})
  validate c = check (str_eq c.db_host "") "DB_HOST is required" (
      check (c.db_port == 0) "DB_PORT is required" (
        check (str_eq c.db_database "") "DB_DATABASE is required" (
          check (str_eq c.db_user "") "DB_USER is required" (
            check (str_eq c.db_password "") "DB_PASSWORD is required" (
              check (is_zero c.port) "PORT is required" (
                check (str_eq c.encryption_key "") "ENCRYPTION_KEY is required" (
                  decoded (env.base64_decode c.encryption_key)
                    "ENCRYPTION_KEY must be base64 encoded"
                    λ key.
                      check (not (length key == 32)) "ENCRYPTION_KEY must be 32 bytes (256-bit)" (
                        check (str_eq c.verify_domain_secret "") "VERIFY_DOMAIN_SECRET is required"
                          (check (str_eq c.admin_api_key "") "ADMIN_API_KEY is required"
                            (ok tt))))))))))

  unfoldable pub get_encryption_key : Config → Result Bytes
  get_encryption_key c = decoded (env.base64_decode c.encryption_key) "base64" ok
