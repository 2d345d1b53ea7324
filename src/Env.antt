-- ===== src/Env.antt =====
-- What the program calls and does not implement, as the parameters of the model: the database
-- server's faults, clock and columns, random identifiers and nonces, the HTTP transport, JSON, AES-GCM
-- and base64, and the texts of UUIDs and decimals. What may differ from call to call takes the
-- number of the call, so that a theorem over an `Env` holds for every sequence of answers.
use saftaja.Prelude.{ℕ, String, Option, List}
use saftaja.Domain.{Uuid, Time, Bytes, Decimal, JsonObject}
use saftaja.Store.Numeric.{Number}
use saftaja.Connectors.Types.{Credentials}
use saftaja.Mpgs.Types.{
  Body, CreateSessionResponse, InitiateAuthenticationResponse, AuthenticatePayerResponse,
  ExecutePayResponse, RetrieveTransactionResponse, ErrorResponse,
}

-- How a call of the database ends: it answers; it is refused and has done nothing; or it is done,
-- and the answer is lost.
pub data DbOutcome : Type 0 where
  answered refused unheard : DbOutcome

-- `http.NewRequestWithContext`, with the pair of `SetBasicAuth`.
pub record HttpRequest : Type 0 where
  pub method : String
  pub url : String
  pub basic_auth : Option (String × String)
  pub content_type : Option String
  pub body : Body

pub record HttpResponse : Type 0 where
  pub status_code : ℕ
  pub body : String

pub record Env : Type 0 where
  pub db_outcome : ℕ → DbOutcome
  pub now : ℕ → Time
  pub new_uuid : ℕ → Uuid
  pub uuid_string : Uuid → String
  pub decimal_string : Decimal → String
  -- `none` is a transport error
  pub http_do : ℕ → HttpRequest → Option HttpResponse
  pub decode_create_session : String → Option CreateSessionResponse
  -- `UpdateSessionResponse` has no fields
  pub decode_update_session : String → Option (Unit {0})
  pub decode_initiate_authentication : String → Option InitiateAuthenticationResponse
  pub decode_authenticate_payer : String → Option AuthenticatePayerResponse
  pub decode_execute_pay : String → Option ExecutePayResponse
  pub decode_retrieve_transaction : String → Option RetrieveTransactionResponse
  pub decode_error : String → Option ErrorResponse
  -- `json.Unmarshal` into `Credentials`
  pub decode_credentials : Bytes → Option Credentials
  -- `gcm.Open(nil, nonce, ciphertext, nil)` under AES-256 with this key
  pub gcm_open : Bytes → Bytes → Bytes → Option Bytes
  -- what `gcm.Seal(nonce, nonce, plaintext, nil)` appends to the nonce
  pub gcm_seal : Bytes → Bytes → Bytes → Bytes
  -- `json.Marshal` of a decoded object and of a list of texts
  pub marshal_object : JsonObject → Option Bytes
  pub marshal_strings : List String → Option Bytes
  -- `decimal.NewFromString`
  pub parse_decimal : String → Option Number
  -- what the server keeps of a text in a `VARCHAR(n)` or a `TEXT` column, and of JSON in a `JSONB`
  -- column; `none` is its refusal of the value
  pub varchar : ℕ → String → Option String
  pub text : String → Option String
  pub jsonb : Bytes → Option String
  -- what `io.ReadFull` gets from `rand.Reader`
  pub nonce : ℕ → Option Bytes
  -- `base64.StdEncoding`
  pub base64_encode : Bytes → String
  pub base64_decode : String → Option Bytes
