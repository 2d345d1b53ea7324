-- ===== src/Concurrent/Calls.antt =====
-- The calls of khazina/internal/clients/mpgs/client.go, the clock and the fresh identifiers change no
-- table.
use saftaja.Prelude.{refl, String}
use saftaja.Env.{Env}
use saftaja.Exec.{now, new_uuid}
use saftaja.Exec.After.{now-After, new_uuid-After}
use saftaja.Mpgs.Types.{
  CreateSessionRequest, UpdateSessionRequest, InitiateAuthenticationRequest,
  AuthenticatePayerRequest, ExecutePayRequest,
}
use saftaja.Mpgs.Client.{
  Client, create_session, update_session, initiate_authentication, authenticate_payer, execute_pay,
}
use saftaja.Mpgs.Calls.{
  create_session-After, update_session-After, initiate_authentication-After,
  authenticate_payer-After, execute_pay-After,
}
use saftaja.Concurrent.Rules.{Quiet}

module _ (env : Env) where
  pub now-Quiet : Quiet (now env)
  now-Quiet w = now-After env w refl

  pub new_uuid-Quiet : Quiet (new_uuid env)
  new_uuid-Quiet w = new_uuid-After env w refl

  module _ (c : Client) where
    pub create_session-Quiet : (req : CreateSessionRequest) → Quiet (create_session env c req)
    create_session-Quiet req w = create_session-After env c req w refl λ _. refl

    pub update_session-Quiet :
        (id : String) (req : UpdateSessionRequest) → Quiet (update_session env c id req)
    update_session-Quiet id req w = update_session-After env c id req w refl λ _. refl

    module _ (order_id tx_id : String) where
      pub initiate_authentication-Quiet :
          (req : InitiateAuthenticationRequest)
          → Quiet (initiate_authentication env c order_id tx_id req)
      initiate_authentication-Quiet req w =
          initiate_authentication-After env c order_id tx_id req w refl λ _. refl

      pub authenticate_payer-Quiet :
          (req : AuthenticatePayerRequest) → Quiet (authenticate_payer env c order_id tx_id req)
      authenticate_payer-Quiet req w =
          authenticate_payer-After env c order_id tx_id req w refl λ _. refl

      pub execute_pay-Quiet :
          (req : ExecutePayRequest) → Quiet (execute_pay env c order_id tx_id req)
      execute_pay-Quiet req w = execute_pay-After env c order_id tx_id req w refl λ _. refl
