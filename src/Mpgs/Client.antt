-- ===== src/Mpgs/Client.antt =====
-- khazina/internal/clients/mpgs/client.go: every call builds a request, sends it, and decodes the
-- response. `json.NewEncoder` does not fail on these structs. The HTTP client's time-out and
-- tracing lie in the transport.
use Prim.Native.String
use saftaja.Prelude.{ℕ, String, Option, none, some, ◌==◌, ◌||◌, str_eq, if◌then◌else◌}
use saftaja.Connectors.Types.{Credentials}
use saftaja.Env.{Env, HttpRequest, HttpResponse}
use saftaja.Mpgs.Types.{
  api_version, Body, CreateSessionRequest, UpdateSessionRequest, InitiateAuthenticationRequest,
  AuthenticatePayerRequest, ExecutePayRequest, Response, CreateSessionResponse,
  InitiateAuthenticationResponse, AuthenticatePayerResponse, ExecutePayResponse,
  RetrieveTransactionResponse,
}
use saftaja.Errors.{Error}
use saftaja.Exec.{Result, ok, err, Exec, lift, raise, on_error, ◌>>=◌, http_do}

infixr 65 ◌<>◌
abbrev pub ◌<>◌ : String → String → String
s <> t = String.◌++◌ s t

pub record Client : Type 0 where
  pub base_url : String
  pub merchant_id : String
  pub username : String
  pub password : String

-- `mpgs.New` of the client, by `mpgs.NewClient` of the connector
abbrev pub new_client : Credentials → Client
new_client creds = record {
  base_url = creds.base_url;
  merchant_id = creds.merchant_id;
  username = "merchant." <> creds.merchant_id;
  password = creds.api_password;
}

abbrev content_type : Body → Option String
content_type Body.empty = none
content_type _ = some "application/json"

-- the request that `do` builds
abbrev pub request : Client → String → String → Body → HttpRequest
request c method path body = record {
  method = method;
  url = c.base_url <> path;
  basic_auth =
      if str_eq c.username "" || str_eq c.password "" then none else some (c.username, c.password);
  content_type = content_type body;
  body = body;
}

abbrev pub received : Option HttpResponse → Exec HttpResponse
received none = raise (Error.plain "http")
received (some r) = lift (ok r)

-- `do`
unfoldable pub do_request : Env → Client → String → String → Body → Exec HttpResponse
do_request env c method path body = do
  answer ← http_do env (request c method path body)
  received answer

abbrev decoded : {T : Type 0} → String → Option T → Result (Response T)
decoded body none = err (Error.wrapped "failed to decode response" (Error.plain "json"))
decoded body (some t) = ok (record { value = t; raw_body = body })

unfoldable pub decode_response :
    {T : Type 0} → Env → (String → Option T) → ℕ → HttpResponse → Result (Response T)
decode_response env decode expected r =
    if r.status_code == expected
    then decoded r.body (decode r.body)
    else elim (env.decode_error r.body) [
      | none ↦ err (Error.unexpected_status r.status_code expected r.body)
      | some e ↦ err (Error.api_error r.status_code expected (Error.plain "MPGS API error"))
    ]

abbrev pub merchant_path : Client → String
merchant_path c = "/api/rest/version/" <> api_version <> "/merchant/" <> c.merchant_id

abbrev pub transaction_path : Client → String → String → String
transaction_path c order_id tx_id =
    merchant_path c <> "/order/" <> order_id <> "/transaction/" <> tx_id

module _ (env : Env) (c : Client) where
  unfoldable pub create_session : CreateSessionRequest → Exec (Response CreateSessionResponse)
  create_session req = do
    resp ←
        on_error (Error.wrapped "request failed")
          (do_request env c "POST" (merchant_path c <> "/session") (Body.create_session req))
    lift (decode_response env env.decode_create_session 201 resp)

  unfoldable pub update_session : String → UpdateSessionRequest → Exec (Response (Unit {0}))
  update_session session_id req = do
    resp ←
        do_request env c "PUT" (merchant_path c <> "/session/" <> session_id)
          (Body.update_session req)
    lift (decode_response env env.decode_update_session 200 resp)

  unfoldable pub initiate_authentication :
      String
      → String
      → InitiateAuthenticationRequest
      → Exec (Response InitiateAuthenticationResponse)
  initiate_authentication order_id tx_id req = do
    resp ←
        do_request env c "PUT" (transaction_path c order_id tx_id)
          (Body.initiate_authentication req)
    lift (decode_response env env.decode_initiate_authentication 201 resp)

  unfoldable pub authenticate_payer :
      String → String → AuthenticatePayerRequest → Exec (Response AuthenticatePayerResponse)
  authenticate_payer order_id tx_id req = do
    resp ← do_request env c "PUT" (transaction_path c order_id tx_id) (Body.authenticate_payer req)
    lift (decode_response env env.decode_authenticate_payer 201 resp)

  unfoldable pub retrieve_transaction :
      String → String → Exec (Response RetrieveTransactionResponse)
  retrieve_transaction order_id tx_id = do
    resp ← do_request env c "GET" (transaction_path c order_id tx_id) Body.empty
    lift (decode_response env env.decode_retrieve_transaction 200 resp)

  unfoldable pub execute_pay :
      String → String → ExecutePayRequest → Exec (Response ExecutePayResponse)
  execute_pay order_id tx_id req = do
    resp ← do_request env c "PUT" (transaction_path c order_id tx_id) (Body.execute_pay req)
    lift (decode_response env env.decode_execute_pay 201 resp)
