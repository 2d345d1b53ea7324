-- ===== src/Connectors/Credentials.antt =====
-- khazina/internal/connectors/mpgs/credentials.go: the functions.
use saftaja.Prelude.{none, some, str_eq, if◌then◌else◌}
use saftaja.Domain.{Bytes}
use saftaja.Connectors.Types.{Credentials}
use saftaja.Connectors.Crypto.{decrypt}
use saftaja.Env.{Env}
use saftaja.Errors.{Error}
use saftaja.Exec.{Result, ok, err, panic}

abbrev pub required : Credentials → Result Credentials
required c =
    if str_eq c.merchant_id ""
    then err (Error.plain "missing merchant_id in MPGS credentials")
    else if str_eq c.base_url ""
    then err (Error.plain "missing base_url in MPGS credentials")
    else if str_eq c.api_password ""
    then err (Error.plain "missing api_password in MPGS credentials")
    else ok c

unfoldable pub parse_credentials : Env → Bytes → Result Credentials
parse_credentials env json = elim (env.decode_credentials json) [
  | none ↦ err (Error.wrapped "invalid MPGS credentials JSON" (Error.plain "json"))
  | some c ↦ required c
]

unfoldable pub parse_encrypted_credentials : Env → Bytes → Bytes → Result Credentials
unfolding decrypt parse_credentials
parse_encrypted_credentials env encrypted key = elim (decrypt env encrypted key) [
  | ok decrypted ↦ parse_credentials env decrypted
  | err e ↦ err (Error.wrapped "failed to decrypt credentials" e)
  | panic ↦ panic
]
