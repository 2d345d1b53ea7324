-- ===== src/Ledger/Idempotent.antt =====
-- The Idempotency-Key of `InitiateSession` (khazina/internal/payment/service.go).
use saftaja.Prelude.{
  false, ◌≡◌, refl, sym, ap, ◌∙◌, none, some, Option, String, str_eq, str_eq_refl, ◌==◌, ==_refl,
  ◌&&◌, find?, Bool-cases, inl, inr, List, ◌∷◌,
}
use saftaja.Domain.{text_of}
use saftaja.Env.{Env}
use saftaja.Errors.{Error, is_no_rows}
use saftaja.Exec.{State, World, ok, err, gives, rejects}
use saftaja.Exec.After.{
  Runs, bind-After, on_error-After, pure-After, raise-After, crash-After, lift-After, read-After,
  write-After, guard-After, attempt-read-After, attempt-read-cases, Runs-final, Runs-map, Runs-ok,
}
use saftaja.Mpgs.Client.{new_client}
use saftaja.Mpgs.Calls.{create_session-After, update_session-After}
use saftaja.Mpgs.Types.{SessionDetails}
use saftaja.Store.Rows.{Invoice, PaymentSession}
use saftaja.Store.Reads.{
  one, text_is, get_invoice_by_id_and_project, get_payment_session_by_idempotency_key,
  get_gateway_account_by_id_and_project,
}
use saftaja.Store.Writes.{create_payment_session}
use saftaja.Payment.Types.{Service, InitiateSessionRequest, InitiateSessionResult}
use saftaja.Payment.Initiate.{
  initiate_session, open_session, reuse, gateway_session_id, session_params, session_result,
}
use saftaja.Ledger.Sql.{one-gives, insert_session-gives}
use saftaja.Ledger.Placed.{own_key}

-- the query of `GetPaymentSessionByIdempotencyKey`
abbrev pub keyed : InitiateSessionRequest → List PaymentSession → Option PaymentSession
keyed req ps =
    find?
      (λ s. s.invoice_id == req.invoice_id && text_is s.idempotency_key (some req.idempotency_key))
      ps

-- The result is the session that the key of the request finds.
abbrev Kept : InitiateSessionRequest → InitiateSessionResult → World → Type 0
Kept req r v =
    (p : PaymentSession) × (keyed req v.db.payment_sessions ≡ some p) × (session_result p ≡ r)

some-injective : {A : Type 0} {a b : A} → some a ≡ some b → a ≡ b
some-injective h = cc

gives≢rejects : {A : Type 0} {a : A} {e : Error} → gives a ≡ rejects e → ⊥
gives≢rejects h = cc

module _ (env : Env) (s : Service) (req : InitiateSessionRequest) (w0 : World) where
  -- The key finds a session already.
  module _ (known : PaymentSession) (found : keyed req w0.db.payment_sessions ≡ some known)
      (keyed_request : str_eq req.idempotency_key "" ≡ false) where
    abbrev Same : State → Type 0
    Same t = t ≡ w0.state

    abbrev Again : InitiateSessionResult → World → Type 0
    Again r v = Same v.state × (r ≡ session_result known)

    retry-Runs : Runs Same Again (initiate_session env s req w0)
    unfolding initiate_session get_invoice_by_id_and_project get_payment_session_by_idempotency_key
    retry-Runs = bind-After _ _ _ (
        on_error-After _ _ _ (
          read-After env _ _ refl λ v row. bind-After _ _ _ (
            guard-After _ _ _ refl λ unpaid. rw keyed_request (
              bind-After _ _ _ (
                attempt-read-cases env _ _
                  (λ p got.
                    pure-After _ _
                      (refl, ap session_result (some-injective (sym (one-gives _ p got) ∙ found))))
                  (λ e absent. absurd (gives≢rejects (sym (ap one found) ∙ absent)))
                  (raise-After _ _ refl))))))

  -- What a call that ends well leaves under its key.
  module _ (keyed_request : str_eq req.idempotency_key "" ≡ false) where
    abbrev Any : State → Type 0
    Any _ = Unit

    text_of-filled : text_of req.idempotency_key ≡ some req.idempotency_key
    text_of-filled = rw keyed_request refl

    first_keyed :
        (p : PaymentSession) (ps : List PaymentSession)
        → p.invoice_id ≡ req.invoice_id
        → p.idempotency_key ≡ some req.idempotency_key
        → keyed req (p ∷ ps) ≡ some p
    first_keyed p ps i k = rw (i, k, ==_refl req.invoice_id, str_eq_refl req.idempotency_key) refl

    gateway_session-Runs :
        {K : String → World → Type 0} (d : Option SessionDetails) (w : World)
        → ((id : String) → K id w)
        → Runs Any K (gateway_session_id d w)
    gateway_session-Runs none w k = crash-After w tt
    gateway_session-Runs (some d) w k = pure-After _ w (k d.id)

    open-Kept :
        (v : Invoice) (w : World)
        → v.id ≡ req.invoice_id
        → Runs Any (Kept req) (open_session env s req v w)
    unfolding open_session get_gateway_account_by_id_and_project create_payment_session
    open-Kept v w key = bind-After _ _ _ (
        on_error-After _ _ _ (
          read-After env _ _ tt λ account row. bind-After _ _ _ (
            on_error-After _ _ _ (
              lift-After _ _ tt λ creds _. bind-After _ _ _ (
                on_error-After _ _ _ (
                  create_session-After env (new_client creds) _ _ tt λ resp. bind-After _ _ _ (
                    gateway_session-Runs resp.value.session _ λ id. bind-After _ _ _ (
                      on_error-After _ _ _ (
                        write-After env _ _ tt λ st p d e.
                          let ins =
                            insert_session-gives (session_params req v account id) st w.db p d e in
                          let kept : keyed req d.payment_sessions ≡ some p = rw ins.tables (
                            first_keyed p w.db.payment_sessions (ins.invoice ∙ key)
                              (ins.key ∙ text_of-filled)) in
                          (
                            tt,
                            bind-After _ _ _ (
                                on_error-After _ _ _ (
                                  update_session-After env (new_client creds) _ _ _ tt λ _.
                                    pure-After _ _ (
                                      p,
                                      kept,
                                      ap
                                          (λ g. record {
                                            payment_session_id = p.id;
                                            gateway_session_id = g;
                                          })
                                          ins.gateway,
                                    ))),
                          ))))))))))

    reuse-Kept :
        (v : Invoice) (e : Error) (w : World)
        → v.id ≡ req.invoice_id
        → Runs Any (Kept req) (reuse env s req v (err e) w)
    reuse-Kept v e w key = elim (Bool-cases (is_no_rows e)) [
      | inl y ↦ rw y (open-Kept v w key)
      | inr n ↦ rw n (raise-After _ w tt)
    ]

    initiate-Kept : Runs Any (Kept req) (initiate_session env s req w0)
    unfolding initiate_session get_invoice_by_id_and_project get_payment_session_by_idempotency_key
    initiate-Kept = bind-After _ _ _ (
        on_error-After _ _ _ (
          read-After env _ _ tt λ v row. bind-After _ _ _ (
            guard-After _ _ _ tt λ unpaid. rw keyed_request (
              bind-After _ _ _ (
                attempt-read-After env _ _ (λ p got. pure-After _ _ (p, one-gives _ p got, refl))
                  (λ e. reuse-Kept v e _ (own_key req.invoice_id req.project_id v w0.db row)))))))

-- Where the Idempotency-Key of a request finds a session of its invoice, `InitiateSession` opens no
-- other: it changes no table and sends nothing to the gateway, however it ends.
pub initiate_session-reuses :
    (env : Env) (s : Service) (req : InitiateSessionRequest) (w : World) (known : PaymentSession)
    → keyed req w.db.payment_sessions ≡ some known
    → str_eq req.idempotency_key "" ≡ false
    → (initiate_session env s req w).1.state ≡ w.state
initiate_session-reuses env s req w known found keyed_request =
    Runs-final (Runs-map (λ _ _ k. k.0) (retry-Runs env s req w known found keyed_request))

-- After a call with an Idempotency-Key that gives a result, a second call with the same request, over
-- the state that the first has left, that gives a result as well gives the same session, changes no
-- table and sends nothing to the gateway. Faults and answers may differ between the two.
pub initiate_session-idempotent :
    (env env' : Env) (s s' : Service) (req : InitiateSessionRequest) (w w' : World)
    (r r' : InitiateSessionResult)
    → str_eq req.idempotency_key "" ≡ false
    → (initiate_session env s req w).0 ≡ ok r
    → w'.state ≡ (initiate_session env s req w).1.state
    → (initiate_session env' s' req w').0 ≡ ok r'
    → (r' ≡ r) × ((initiate_session env' s' req w').1.state ≡ w'.state)
initiate_session-idempotent env env' s s' req w w' r r' keyed_request e at e' =
    let (p, found, same) = Runs-ok (initiate-Kept env s req w keyed_request) e in
    let found' : keyed req w'.db.payment_sessions ≡ some p =
      ap (λ (x : State). keyed req x.db.payment_sessions) at ∙ found in
    let again = retry-Runs env' s' req w' p found' keyed_request in
    ((Runs-ok again e').1 ∙ same, (Runs-ok again e').0)
