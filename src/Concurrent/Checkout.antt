-- ===== src/Concurrent/Checkout.antt =====
-- `GetCheckoutData` and `VerifyDomain` (khazina/internal/payment/service.go) as programs.
pub mod Safety
use saftaja.Prelude.{
  Bool, true, false, ◌≡◌, refl, some, none, [], String, map, Bool-cases, inl, inr, if◌then◌else◌,
}
use saftaja.Domain.{Uuid, is_paid}
use saftaja.Env.{Env}
use saftaja.Errors.{Error, is_no_rows}
use saftaja.Exec.{Result, ok, err, panic, pure, raise, lift}
use saftaja.Store.Rows.{Invoice, Project}
use saftaja.Store.Reads.{
  get_invoice_by_id_and_project, get_invoice_items, list_active_gateway_accounts,
  get_project_by_custom_domain,
}
use saftaja.Payment.Types.{Service, CheckoutData}
use saftaja.Payment.Checkout as Sequential
use saftaja.Payment.Checkout.{collect, item_info, ignore_error, paid_data, invoice_info}
use saftaja.Concurrent.Program.{Program, ends, run, call, returns, rename_error, catch, ◌>>=◌}
use saftaja.Concurrent.Program.Alone.{alone, run-ends}

module _ (env : Env) (s : Service) where
  unfoldable pub open_checkout : Uuid → Invoice → Program CheckoutData
  open_checkout invoice_id v = do
    items ← catch (call (get_invoice_items env invoice_id))
    accounts ←
        rename_error (Error.wrapped "failed to list gateway accounts")
          (call (list_active_gateway_accounts env v.project_id))
    (config, options) ← ends (collect env s accounts none [])
    returns (record {
      invoice = invoice_info env s v;
      items = map (item_info env s) (ignore_error items);
      payment_options = options;
      mpgs_config = config;
      is_paid = false;
    })

  unfoldable pub get_checkout_data : Uuid → Uuid → Program CheckoutData
  get_checkout_data invoice_id project_id = do
    invoice ← call (get_invoice_by_id_and_project env invoice_id project_id)
    if is_paid invoice.status
        then returns (paid_data env s invoice)
        else open_checkout invoice_id invoice

  abbrev pub domain_found : Result Project → Program Bool
  domain_found (ok _) = returns true
  domain_found (err e) = if is_no_rows e then returns false else ends (err e)
  domain_found panic = ends panic

  unfoldable pub verify_domain : String → Program Bool
  verify_domain domain = do
    found ← catch (call (get_project_by_custom_domain env (some domain)))
    domain_found found

  open_checkout-alone :
      (invoice_id : Uuid) (v : Invoice)
      → run (open_checkout invoice_id v) ≡ Sequential.open_checkout env s invoice_id v
  unfolding open_checkout Sequential.open_checkout lift pure
  open_checkout-alone invoice_id v = simp (alone, run-ends)

  shown-alone :
      (b : Bool) (invoice_id : Uuid) (v : Invoice)
      → run (if b then returns (paid_data env s v) else open_checkout invoice_id v)
        ≡ (if b then pure (paid_data env s v) else Sequential.open_checkout env s invoice_id v)
  unfolding run pure
  shown-alone true invoice_id v = refl
  shown-alone false invoice_id v = open_checkout-alone invoice_id v

  pub get_checkout_data-alone :
      (invoice_id project_id : Uuid)
      → run (get_checkout_data invoice_id project_id)
        ≡ Sequential.get_checkout_data env s invoice_id project_id
  unfolding get_checkout_data Sequential.get_checkout_data
  get_checkout_data-alone invoice_id project_id = simp (alone, shown-alone)

  domain_found-alone : (r : Result Project) → run (domain_found r) ≡ Sequential.domain_found env s r
  unfolding run pure raise lift
  domain_found-alone (ok p) = refl
  domain_found-alone (err e) = elim (Bool-cases (is_no_rows e)) [
    | inl y ↦ rw y refl
    | inr n ↦ rw n refl
  ]
  domain_found-alone panic = refl

  pub verify_domain-alone :
      (domain : String) → run (verify_domain domain) ≡ Sequential.verify_domain env s domain
  unfolding verify_domain Sequential.verify_domain
  verify_domain-alone domain = simp (alone, domain_found-alone)
