-- ===== src/Concurrent/Checkout/Safety.antt =====
-- `GetCheckoutData` and `VerifyDomain` (khazina/internal/payment/service.go) among other programs:
-- they only read.
use saftaja.Prelude.{Bool, true, false, none, String, Bool-cases, inl, inr, if◌then◌else◌}
use saftaja.Domain.{Uuid, is_paid}
use saftaja.Env.{Env}
use saftaja.Errors.{is_no_rows}
use saftaja.Exec.{Result, ok, err, panic}
use saftaja.Store.Rows.{Invoice, Project}
use saftaja.Store.Reads.{
  get_invoice_by_id_and_project, get_invoice_items, list_active_gateway_accounts,
  get_project_by_custom_domain,
}
use saftaja.Payment.Types.{Service}
use saftaja.Payment.Checkout.{paid_data}
use saftaja.Concurrent.Program.{returns}
use saftaja.Concurrent.Checkout.{get_checkout_data, open_checkout, verify_domain, domain_found}
use saftaja.Concurrent.Safe.{Safe}
use saftaja.Concurrent.Rules.{
  quiet-Safe, quiet_renamed-Safe, read-Quiet, catch-Safe, plain_ends-Safe, nothing_known,
}
use saftaja.Concurrent.Ending.{Within, step-Within, plain-Within, catch-Within, plain_ends-Within}

module _ (env : Env) (s : Service) where
  open_checkout-Safe : (i : Uuid) (v : Invoice) → Safe none nothing_known (open_checkout env s i v)
  unfolding open_checkout get_invoice_items list_active_gateway_accounts
  open_checkout-Safe i v =
      catch-Safe none nothing_known env _ _ (λ d d' c x. x)
        λ items.
          quiet_renamed-Safe none nothing_known _ (read-Quiet env _) (λ d d' c x. x) _ _
            λ accounts. plain_ends-Safe none nothing_known _ _ λ a. tt

  shown-Safe :
      (b : Bool) (i : Uuid) (v : Invoice)
      → Safe none nothing_known (if b then returns (paid_data env s v) else open_checkout env s i v)
  shown-Safe true i v = tt
  shown-Safe false i v = open_checkout-Safe i v

  pub get_checkout_data-Safe : (i q : Uuid) → Safe none nothing_known (get_checkout_data env s i q)
  unfolding get_checkout_data get_invoice_by_id_and_project
  get_checkout_data-Safe i q =
      quiet-Safe none nothing_known _ (read-Quiet env _) (λ d d' c x. x) _
        λ v. shown-Safe (is_paid v.status) i v

  domain_found-Safe : (r : Result Project) → Safe none nothing_known (domain_found env s r)
  domain_found-Safe (ok p) = tt
  domain_found-Safe (err e) = elim (Bool-cases (is_no_rows e)) [ inl y ↦ rw y tt | inr n ↦ rw n tt ]
  domain_found-Safe panic = tt

  pub verify_domain-Safe : (domain : String) → Safe none nothing_known (verify_domain env s domain)
  unfolding verify_domain get_project_by_custom_domain
  verify_domain-Safe domain =
      catch-Safe none nothing_known env _ _ (λ d d' c x. x) λ found. domain_found-Safe found

  open_checkout-Within : (i : Uuid) (v : Invoice) → Within 2 (open_checkout env s i v)
  unfolding open_checkout
  open_checkout-Within i v =
      catch-Within 1 _ _ λ items. step-Within 0 _ _ _ λ accounts. plain_ends-Within 0 _ _ λ a. tt

  shown-Within :
      (b : Bool) (i : Uuid) (v : Invoice)
      → Within 2 (if b then returns (paid_data env s v) else open_checkout env s i v)
  shown-Within true i v = tt
  shown-Within false i v = open_checkout-Within i v

  pub get_checkout_data-Within : (i q : Uuid) → Within 3 (get_checkout_data env s i q)
  unfolding get_checkout_data
  get_checkout_data-Within i q = plain-Within 2 _ _ λ v. shown-Within (is_paid v.status) i v

  domain_found-Within : (r : Result Project) → Within 0 (domain_found env s r)
  domain_found-Within (ok p) = tt
  domain_found-Within (err e) = elim (Bool-cases (is_no_rows e)) [
    | inl y ↦ rw y tt
    | inr n ↦ rw n tt
  ]
  domain_found-Within panic = tt

  pub verify_domain-Within : (domain : String) → Within 1 (verify_domain env s domain)
  unfolding verify_domain
  verify_domain-Within domain = catch-Within 0 _ _ λ found. domain_found-Within found
