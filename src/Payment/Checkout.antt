-- ===== src/Payment/Checkout.antt =====
-- khazina/internal/payment/service.go: `GetCheckoutData` and `VerifyDomain`.
use saftaja.Prelude.{
  Bool, true, false, Option, none, some, List, [], ◌∷◌, ◌++◌, String, map, str_eq, if◌then◌else◌,
}
use saftaja.Domain.{
  Uuid, text_string, is_paid, connector_type_mpgs, payment_method_card, payment_method_apple_pay,
}
use saftaja.Connectors.Types.{Credentials}
use saftaja.Connectors.Credentials.{parse_encrypted_credentials}
use saftaja.Env.{Env}
use saftaja.Errors.{Error, is_no_rows}
use saftaja.Exec.{Result, ok, err, panic, Exec, pure, raise, lift, on_error, attempt, ◌>>=◌}
use saftaja.Mpgs.Types.{api_version}
use saftaja.Store.Rows.{Invoice, InvoiceItem, GatewayAccount, Project}
use saftaja.Store.Reads.{
  get_invoice_by_id_and_project, get_invoice_items, list_active_gateway_accounts,
  get_project_by_custom_domain,
}
use saftaja.Payment.Types.{
  Service, CheckoutData, InvoiceInfo, ItemInfo, PaymentOption, MpgsConfig, invalid_credentials,
}

-- `items, _ :=`: nothing on an error.
abbrev pub ignore_error : {A : Type 0} → Result (List A) → List A
ignore_error (ok xs) = xs
ignore_error _ = []

abbrev card_options : GatewayAccount → List PaymentOption
card_options acc =
    record {
      gateway_account_id = acc.id;
      method = payment_method_card;
      label = "Credit / Debit Card";
    }
    ∷ record { gateway_account_id = acc.id; method = payment_method_apple_pay; label = "Apple Pay" }
    ∷ []

abbrev config_of : Credentials → MpgsConfig
config_of creds = record {
  base_url = creds.base_url;
  merchant_id = creds.merchant_id;
  api_version = api_version;
}

module _ (env : Env) (s : Service) where
  -- the loop over the accounts: the configuration is that of the last one
  unfoldable pub collect :
      List GatewayAccount
      → Option MpgsConfig
      → List PaymentOption
      → Result (Option MpgsConfig × List PaymentOption)
  collect [] config options = ok (config, options)
  collect (acc ∷ accs) config options = elim (str_eq acc.connector_type connector_type_mpgs) [
    | false ↦ collect accs config options
    | true ↦ elim (parse_encrypted_credentials env acc.credentials s.encryption_key) [
      | ok creds ↦ collect accs (some (config_of creds)) (options ++ card_options acc)
      | err e ↦ err (invalid_credentials e)
      | panic ↦ panic
    ]
  ]

  abbrev pub item_info : InvoiceItem → ItemInfo
  item_info i = record {
    name = i.name;
    quantity = i.quantity;
    unit_price = env.decimal_string i.unit_price;
    amount = env.decimal_string i.amount;
  }

  abbrev pub paid_data : Invoice → CheckoutData
  paid_data v = record {
    invoice = record {
      id = v.id;
      project_id = v.project_id;
      amount = env.decimal_string v.amount;
      currency = v.currency;
      description = "";
      customer_email = "";
      customer_name = "";
    };
    items = [];
    payment_options = [];
    mpgs_config = none;
    is_paid = true;
  }

  abbrev pub invoice_info : Invoice → InvoiceInfo
  invoice_info v = record {
    id = v.id;
    project_id = v.project_id;
    amount = env.decimal_string v.amount;
    currency = v.currency;
    description = text_string v.description;
    customer_email = text_string v.customer_email;
    customer_name = text_string v.customer_name;
  }

  -- the part for an invoice that is not paid
  unfoldable pub open_checkout : Uuid → Invoice → Exec CheckoutData
  open_checkout invoice_id v = do
    items ← attempt (get_invoice_items env invoice_id)
    accounts ←
        on_error (Error.wrapped "failed to list gateway accounts")
          (list_active_gateway_accounts env v.project_id)
    (config, options) ← lift (collect accounts none [])
    pure (record {
      invoice = invoice_info v;
      items = map item_info (ignore_error items);
      payment_options = options;
      mpgs_config = config;
      is_paid = false;
    })

  unfoldable pub get_checkout_data : Uuid → Uuid → Exec CheckoutData
  get_checkout_data invoice_id project_id = do
    invoice ← get_invoice_by_id_and_project env invoice_id project_id
    if is_paid invoice.status then pure (paid_data invoice) else open_checkout invoice_id invoice

  abbrev pub domain_found : Result Project → Exec Bool
  domain_found (ok _) = pure true
  domain_found (err e) = if is_no_rows e then pure false else raise e
  domain_found panic = lift panic

  unfoldable pub verify_domain : String → Exec Bool
  verify_domain domain = do
    found ← attempt (get_project_by_custom_domain env (some domain))
    domain_found found
