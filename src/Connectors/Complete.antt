-- ===== src/Connectors/Complete.antt =====
-- What the credentials of khazina/internal/connectors/mpgs/credentials.go have, once parsed.
use saftaja.Prelude.{◌≤◌, false, ◌≡◌, str_eq, length, arith}
use saftaja.Domain.{Bytes}
use saftaja.Connectors.Types.{Credentials}
use saftaja.Connectors.Crypto.{decrypt}
use saftaja.Connectors.Credentials.{parse_encrypted_credentials, parse_credentials}
use saftaja.Env.{Env}
use saftaja.Exec.{ok}

-- Credentials are accepted only under a key of 32 bytes, out of a text with room for a nonce of 12
-- bytes, and with none of the merchant's id, the base URL and the password empty.
pub parse_encrypted_credentials_complete :
    (env : Env) (encrypted key : Bytes) (c : Credentials)
    → parse_encrypted_credentials env encrypted key ≡ ok c
    → (length key ≡ 32)
      × (12 ≤ length encrypted)
      × (str_eq c.merchant_id "" ≡ false)
      × (str_eq c.base_url "" ≡ false)
      × (str_eq c.api_password "" ≡ false)
unfolding parse_encrypted_credentials parse_credentials decrypt
parse_encrypted_credentials_complete env encrypted key c h = ground arith
