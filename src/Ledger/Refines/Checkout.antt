-- ===== src/Ledger/Refines/Checkout.antt =====
-- `GetCheckoutData` and `VerifyDomain` (khazina/internal/payment/service.go) and the state.
use saftaja.Prelude.{◌≡◌, refl, String, Bool-cases, inl, inr}
use saftaja.Domain.{Uuid, is_paid}
use saftaja.Env.{Env}
use saftaja.Errors.{is_no_rows}
use saftaja.Exec.{State, World, Result, ok, err, panic}
use saftaja.Exec.After.{
  Runs, bind-After, on_error-After, pure-After, raise-After, lift-After, read-After,
  attempt-read-After, Runs-final,
}
use saftaja.Store.Rows.{Invoice, Project}
use saftaja.Store.Reads.{
  get_invoice_by_id_and_project, get_invoice_items, list_active_gateway_accounts,
  get_project_by_custom_domain,
}
use saftaja.Payment.Types.{Service}
use saftaja.Payment.Checkout.{get_checkout_data, open_checkout, verify_domain, domain_found}

module _ (env : Env) (s0 : State) where
  abbrev Same : State → Type 0
  Same t = t ≡ s0

  abbrev Ends : {A : Type 0} → A → World → Type 0
  Ends _ v = Same v.state

  open_checkout-Runs :
      (s : Service) (invoice_id : Uuid) (v : Invoice) (w : World)
      → Same w.state
      → Runs Same Ends (open_checkout env s invoice_id v w)
  unfolding open_checkout get_invoice_items list_active_gateway_accounts
  open_checkout-Runs s invoice_id v w h = bind-After _ _ _ (
      attempt-read-After env _ _
        (λ items _. bind-After _ _ _ (
          on_error-After _ _ _ (
            read-After env _ _ h
              λ accounts _. bind-After _ _ _ (lift-After _ _ h λ pair _. pure-After _ _ h))))
        (λ e. bind-After _ _ _ (
          on_error-After _ _ _ (
            read-After env _ _ h
              λ accounts _. bind-After _ _ _ (lift-After _ _ h λ pair _. pure-After _ _ h)))))

  get_checkout_data-Runs :
      (s : Service) (invoice_id project_id : Uuid) (w : World)
      → Same w.state
      → Runs Same Ends (get_checkout_data env s invoice_id project_id w)
  unfolding get_checkout_data get_invoice_by_id_and_project
  get_checkout_data-Runs s invoice_id project_id w h = bind-After _ _ _ (
      read-After env _ _ h λ v row. elim (Bool-cases (is_paid v.status)) [
        | inl e ↦ rw e (pure-After _ _ h)
        | inr n ↦ rw n (open_checkout-Runs s invoice_id v _ h)
      ])

  domain_found-Runs :
      (s : Service) (r : Result Project) (w : World)
      → Same w.state
      → Runs Same Ends (domain_found env s r w)
  domain_found-Runs s (ok p) w h = pure-After _ _ h
  domain_found-Runs s (err e) w h = elim (Bool-cases (is_no_rows e)) [
    | inl y ↦ rw y (pure-After _ _ h)
    | inr n ↦ rw n (raise-After _ _ h)
  ]
  domain_found-Runs s panic w h = lift-After _ _ h λ _ _. h

  verify_domain-Runs :
      (s : Service) (domain : String) (w : World)
      → Same w.state
      → Runs Same Ends (verify_domain env s domain w)
  unfolding verify_domain get_project_by_custom_domain
  verify_domain-Runs s domain w h = bind-After _ _ _ (
      attempt-read-After env _ _ (λ p _. domain_found-Runs s (ok p) _ h)
        (λ e. domain_found-Runs s (err e) _ h))

-- However it ends, `GetCheckoutData` changes no table and sends nothing to the gateway.
pub get_checkout_data-unchanged :
    (env : Env) (s : Service) (invoice_id project_id : Uuid) (w : World)
    → (get_checkout_data env s invoice_id project_id w).1.state ≡ w.state
get_checkout_data-unchanged env s invoice_id project_id w =
    Runs-final (get_checkout_data-Runs env w.state s invoice_id project_id w refl)

-- However it ends, `VerifyDomain` changes no table and sends nothing to the gateway.
pub verify_domain-unchanged :
    (env : Env) (s : Service) (domain : String) (w : World)
    → (verify_domain env s domain w).1.state ≡ w.state
verify_domain-unchanged env s domain w = Runs-final (verify_domain-Runs env w.state s domain w refl)
