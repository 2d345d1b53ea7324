-- ===== src/Connectors/Types.antt =====
-- khazina/internal/connectors/mpgs/credentials.go: the struct.
use saftaja.Prelude.{String}

pub record Credentials : Type 0 where
  pub merchant_id : String
  pub base_url : String
  pub api_password : String
