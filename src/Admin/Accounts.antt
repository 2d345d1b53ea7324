-- ===== src/Admin/Accounts.antt =====
-- The credentials that khazina/internal/admin/service.go stores, as
-- khazina/internal/connectors/mpgs/credentials.go reads them back.
use mathlib.Core.Path.{subst}
use saftaja.Errors.{Error}
use saftaja.Prelude.{
  ℕ, ==-eq, ◌≡◌, refl, sym, ap, ◌∙◌, ◌∷◌, length, some, none, ◌==◌, Option, Option-cases, inl, inr,
  Bool-cases,
}
use saftaja.Domain.{Bytes}
use saftaja.Env.{Env}
use saftaja.Exec.{World, State, ok, err, read_nonce}
use saftaja.Exec.After.{
  Runs, bind-After, on_error-After, pure-After, raise-After, lift-After, write-After, Runs-returned,
  Runs-map, done,
}
use saftaja.Store.Rows.{GatewayAccount}
use saftaja.Store.Admin
use saftaja.Connectors.Crypto.{encrypt, decrypt, sealed, key_size}
use saftaja.Connectors.Crypto.RoundTrip.{decrypt-sealed}
use saftaja.Connectors.Credentials.{parse_credentials, parse_encrypted_credentials}
use saftaja.Ledger.Inserts.{insert_account-gives}
use saftaja.Admin.Types
use saftaja.Admin.Types.{Service, CreateGatewayAccountRequest}
use saftaja.Admin.Service.{create_gateway_account, credentials_json, marshalled}

marshalled-ok : (o : Option Bytes) (json : Bytes) → marshalled o ≡ ok json → o ≡ some json
marshalled-ok none json h = cc
marshalled-ok (some x) json h = cc

module _ (env : Env) (s : Service) (req : CreateGatewayAccountRequest) (w : World)
    (nonces : (n : ℕ) (x : Bytes) → env.nonce n ≡ some x → length x ≡ 12)
    (opens : (n p : Bytes)
      → env.gcm_open s.encryption_key n (env.gcm_seal s.encryption_key n p) ≡ some p) where
  -- An account that has been added, and that stores what encrypts this text.
  abbrev Stores : Bytes → Types.GatewayAccount → World → Type 0
  Stores json acc v =
      (a : GatewayAccount) × (v.db ≡ record w.db { gateway_accounts = a ∷ w.db.gateway_accounts })
      × (a.project_id ≡ req.project_id)
      × (a.id ≡ acc.id)
      × (decrypt env a.credentials s.encryption_key ≡ ok json)

  sealed-ok :
      (plaintext c : Bytes) (v : World)
      → length s.encryption_key ≡ 32
      → sealed env plaintext s.encryption_key (env.nonce v.step) ≡ ok c
      → decrypt env c s.encryption_key ≡ ok plaintext
  sealed-ok plaintext c v k h = elim (Option-cases (env.nonce v.step)) [
    | inl e ↦ absurd (err≢ok (sym (ap (sealed env plaintext s.encryption_key) e) ∙ h))
    | inr (n, e) ↦
        subst (λ x. decrypt env x s.encryption_key ≡ ok plaintext)
          (ok-injective (sym (ap (sealed env plaintext s.encryption_key) e) ∙ h))
          (decrypt-sealed env plaintext s.encryption_key n k (nonces v.step n e)
            (opens n plaintext))
  ]
    where
      err≢ok : {e : Error} → err e ≡ ok c → ⊥
      err≢ok h = cc

      ok-injective : {a b : Bytes} → ok a ≡ ok b → a ≡ b
      ok-injective h = cc

  encrypt-Runs :
      (plaintext : Bytes) (v : World)
      → Runs
          (λ _. Unit)
          (λ c u. (u.state ≡ v.state) × (decrypt env c s.encryption_key ≡ ok plaintext))
          (encrypt env plaintext s.encryption_key v)
  unfolding encrypt read_nonce
  encrypt-Runs plaintext v = elim (Bool-cases (length s.encryption_key == key_size)) [
    | inl y ↦ rw y (
        bind-After _ _ v
          (done _ _ (lift-After _ _ tt λ c e. (refl, sealed-ok plaintext c v (==-eq _ _ y) e))))
    | inr n ↦ rw n (raise-After _ _ tt)
  ]

  created :
      Runs
        (λ _. Unit)
        (λ acc v.
          (json : Bytes) × (credentials_json env req.credentials ≡ some json) × Stores json acc v)
        (create_gateway_account env s req w)
  unfolding create_gateway_account Admin.create_gateway_account
  created = bind-After _ _ w (
      on_error-After _ _ w (
        lift-After _ w tt λ json is. bind-After _ _ w (
          on_error-After _ _ w (
            Runs-map
              (λ encrypted v (same, back). bind-After _ _ v (
                on_error-After _ _ v (
                  write-After env _ v tt λ st a d row.
                    let gave = insert_account-gives env st v.db d _ a row in
                    (
                      tt,
                      pure-After _ _ (
                        json,
                        marshalled-ok _ json is,
                        (
                          a,
                          gave.1
                              ∙ ap
                                  (λ (t : State). record t.db {
                                    gateway_accounts = a ∷ t.db.gateway_accounts;
                                  })
                                  same,
                          gave.3,
                          refl,
                          rw gave.2 back,
                        ),
                      ),
                    ))))
              (encrypt-Runs json w)))))

parse_decrypted :
    (env : Env) (c key json : Bytes)
    → decrypt env c key ≡ ok json
    → parse_encrypted_credentials env c key ≡ parse_credentials env json
unfolding parse_encrypted_credentials
parse_decrypted env c key json h = rw (parse_encrypted_credentials, h) refl

-- A gateway account that the admin API has created is in the tables, in the project that the request
-- names, and its stored credentials decrypt and parse to what the JSON of the request's credentials
-- parses to, where every nonce has 12 bytes and AES-GCM opens what it has sealed under the key.
pub create_gateway_account-RoundTrip :
    (env : Env) (s : Service) (req : CreateGatewayAccountRequest) (w v : World)
    (acc : Types.GatewayAccount)
    → ((n : ℕ) (x : Bytes) → env.nonce n ≡ some x → length x ≡ 12)
    → ((n p : Bytes) → env.gcm_open s.encryption_key n (env.gcm_seal s.encryption_key n p) ≡ some p)
    → create_gateway_account env s req w ≡ (ok acc, v)
    → (json : Bytes) × (a : GatewayAccount) × (credentials_json env req.credentials ≡ some json)
      × (v.db ≡ record w.db { gateway_accounts = a ∷ w.db.gateway_accounts })
      × (a.project_id ≡ req.project_id)
      × (a.id ≡ acc.id)
      × (parse_encrypted_credentials env a.credentials s.encryption_key
          ≡ parse_credentials env json)
create_gateway_account-RoundTrip env s req w v acc nonces opens returned =
    let (json, marshals, (a, tables, project, id, back)) =
      Runs-returned (created env s req w nonces opens) returned in
    (
      json,
      a,
      marshals,
      tables,
      project,
      id,
      parse_decrypted env a.credentials s.encryption_key json back,
    )
