-- ===== src/Mpgs/Calls.antt =====
-- What a call of the client does to the program's state.
use saftaja.Prelude.{String, Option, none, some}
use saftaja.Env.{Env, HttpRequest, HttpResponse}
use saftaja.Exec.{State, World, tick, ok}
use saftaja.Exec.After.{
  Runs, after_sending, bind-After, on_error-After, lift-After, raise-After, http_do-After,
}
use saftaja.Mpgs.Types.{
  Body, Response, CreateSessionRequest, CreateSessionResponse, UpdateSessionRequest,
  InitiateAuthenticationRequest, InitiateAuthenticationResponse, AuthenticatePayerRequest,
  AuthenticatePayerResponse, ExecutePayRequest, ExecutePayResponse,
}
use saftaja.Mpgs.Client.{
  Client, request, received, do_request, merchant_path, transaction_path, create_session,
  update_session, initiate_authentication, authenticate_payer, execute_pay, ◌<>◌,
}

-- the world after a request
abbrev pub sent : HttpRequest → World → World
sent r w = record (tick w) { state = after_sending r w.state }

abbrev pub session_path : Client → String → String
session_path c session_id = merchant_path c <> "/session/" <> session_id

module _ {E : State → Type 0} where
  received-After :
      {K : HttpResponse → World → Type 0} (r : Option HttpResponse) (w : World)
      → E w.state
      → ((resp : HttpResponse) → K resp w)
      → Runs E K (received r w)
  received-After none w h k = raise-After _ w h
  received-After (some r) w h k = lift-After (ok r) w h (λ a _. k a)

  do_request-After :
      {K : HttpResponse → World → Type 0} (env : Env) (c : Client) (method path : String)
      (body : Body) (w : World)
      → E (after_sending (request c method path body) w.state)
      → ((resp : HttpResponse) → K resp (sent (request c method path body) w))
      → Runs E K (do_request env c method path body w)
  unfolding do_request
  do_request-After env c method path body w h k =
      bind-After _ _ w (http_do-After env _ w (received-After _ _ h k))

  module _ (env : Env) (c : Client) where
    pub create_session-After :
        {K : Response CreateSessionResponse → World → Type 0} (req : CreateSessionRequest)
        (w : World)
        → let r = request c "POST" (merchant_path c <> "/session") (Body.create_session req) in
          E (after_sending r w.state)
          → ((resp : Response CreateSessionResponse) → K resp (sent r w))
          → Runs E K (create_session env c req w)
    unfolding create_session
    create_session-After req w h k = bind-After _ _ w (
        on_error-After _ _ w
          (do_request-After env c _ _ _ w h λ resp. lift-After _ _ h (λ a _. k a)))

    pub update_session-After :
        {K : Response (Unit {0}) → World → Type 0} (session_id : String)
        (req : UpdateSessionRequest) (w : World)
        → let r = request c "PUT" (session_path c session_id) (Body.update_session req) in
          E (after_sending r w.state)
          → ((resp : Response (Unit {0})) → K resp (sent r w))
          → Runs E K (update_session env c session_id req w)
    unfolding update_session
    update_session-After session_id req w h k =
        bind-After _ _ w (do_request-After env c _ _ _ w h λ resp. lift-After _ _ h (λ a _. k a))

    pub initiate_authentication-After :
        {K : Response InitiateAuthenticationResponse → World → Type 0} (order_id tx_id : String)
        (req : InitiateAuthenticationRequest) (w : World)
        → let r =
            request c "PUT"
              (transaction_path c order_id tx_id)
              (Body.initiate_authentication req) in
          E (after_sending r w.state)
          → ((resp : Response InitiateAuthenticationResponse) → K resp (sent r w))
          → Runs E K (initiate_authentication env c order_id tx_id req w)
    unfolding initiate_authentication
    initiate_authentication-After order_id tx_id req w h k =
        bind-After _ _ w (do_request-After env c _ _ _ w h λ resp. lift-After _ _ h (λ a _. k a))

    pub authenticate_payer-After :
        {K : Response AuthenticatePayerResponse → World → Type 0} (order_id tx_id : String)
        (req : AuthenticatePayerRequest) (w : World)
        → let r =
            request c "PUT" (transaction_path c order_id tx_id) (Body.authenticate_payer req) in
          E (after_sending r w.state)
          → ((resp : Response AuthenticatePayerResponse) → K resp (sent r w))
          → Runs E K (authenticate_payer env c order_id tx_id req w)
    unfolding authenticate_payer
    authenticate_payer-After order_id tx_id req w h k =
        bind-After _ _ w (do_request-After env c _ _ _ w h λ resp. lift-After _ _ h (λ a _. k a))

    pub execute_pay-After :
        {K : Response ExecutePayResponse → World → Type 0} (order_id tx_id : String)
        (req : ExecutePayRequest) (w : World)
        → let r = request c "PUT" (transaction_path c order_id tx_id) (Body.execute_pay req) in
          E (after_sending r w.state)
          → ((resp : Response ExecutePayResponse) → K resp (sent r w))
          → Runs E K (execute_pay env c order_id tx_id req w)
    unfolding execute_pay
    execute_pay-After order_id tx_id req w h k =
        bind-After _ _ w (do_request-After env c _ _ _ w h λ resp. lift-After _ _ h (λ a _. k a))
