-- ===== src/Admin/Service.antt =====
-- khazina/internal/admin/service.go: the four operations of `Service`.
use saftaja.Prelude.{String, Option, none, some, List, [], ◌∷◌}
use saftaja.Domain.{Bytes, JsonObject, text_of, text_string, invoice_status_string}
use saftaja.Env.{Env}
use saftaja.Errors.{Error}
use saftaja.Exec.{Result, ok, err, Exec, pure, lift, on_error, ◌>>=◌}
use saftaja.Store.Rows
use saftaja.Store.Admin.{CreateProjectParams, CreateGatewayAccountParams, CreateInvoiceParams}
use saftaja.Store.Admin
use saftaja.Store.Numeric.{Number}
use saftaja.Connectors.Crypto.{encrypt}
use saftaja.Mpgs.Client.{◌<>◌}
use saftaja.Admin.Types.{
  Service, CreateOrganizationRequest, Organization, CreateProjectRequest, Project,
  CreateGatewayAccountRequest, GatewayAccount, CreateInvoiceRequest, Invoice,
}

-- `json.Marshal` of a nil map is `null`.
abbrev null_json : Bytes
null_json = 110 ∷ 117 ∷ 108 ∷ 108 ∷ []

-- `{}`
abbrev pub empty_object : Bytes
empty_object = 123 ∷ 125 ∷ []

-- `["card"]`
abbrev pub card_only : Bytes
card_only = 91 ∷ 34 ∷ 99 ∷ 97 ∷ 114 ∷ 100 ∷ 34 ∷ 93 ∷ []

abbrev pub marshalled : Option Bytes → Result Bytes
marshalled none = err (Error.plain "json")
marshalled (some bytes) = ok bytes

abbrev pub number_of : Option Number → Result Number
number_of none = err (Error.plain "decimal")
number_of (some v) = ok v

module _ (env : Env) where
  abbrev pub credentials_json : Option JsonObject → Option Bytes
  credentials_json none = some null_json
  credentials_json (some object) = env.marshal_object object

  -- The error of `json.Marshal` is dropped, which leaves a nil slice.
  abbrev pub settings_json : Option JsonObject → Option Bytes
  settings_json none = some empty_object
  settings_json (some object) = env.marshal_object object

  abbrev pub methods_json : List String → Option Bytes
  methods_json [] = some card_only
  methods_json (m ∷ ms) = env.marshal_strings (m ∷ ms)

  abbrev pub project_params : CreateProjectRequest → CreateProjectParams
  project_params req = record {
    organization_id = req.organization_id;
    name = req.name;
    environment = req.environment;
    custom_domain = text_of req.custom_domain;
  }

  abbrev pub account_params : CreateGatewayAccountRequest → Bytes → CreateGatewayAccountParams
  account_params req encrypted = record {
    project_id = req.project_id;
    connector_type = req.connector_type;
    account_name = req.account_name;
    credentials = encrypted;
    settings = settings_json req.settings;
    payment_methods = methods_json req.payment_methods;
  }

  abbrev pub invoice_params : CreateInvoiceRequest → Number → CreateInvoiceParams
  invoice_params req amount = record {
    project_id = req.project_id;
    amount = amount;
    currency = req.currency;
    customer_email = text_of req.customer_email;
    customer_name = text_of req.customer_name;
    description = text_of req.description;
  }

  abbrev pub project_result : Rows.Project → Project
  project_result p = record {
    id = p.id;
    organization_id = p.organization_id;
    name = p.name;
    environment = p.environment;
    custom_domain = text_string p.custom_domain;
  }

  abbrev pub account_result : Rows.GatewayAccount → GatewayAccount
  account_result a = record {
    id = a.id;
    project_id = a.project_id;
    connector_type = a.connector_type;
    account_name = a.account_name;
  }

  abbrev pub invoice_result : Rows.Invoice → Invoice
  invoice_result v = record {
    id = v.id;
    project_id = v.project_id;
    amount = env.decimal_string v.amount;
    currency = v.currency;
    status = invoice_status_string v.status;
    checkout_url = "/checkout/" <> env.uuid_string v.id;
  }

  module _ (s : Service) where
    unfoldable pub create_organization : CreateOrganizationRequest → Exec Organization
    create_organization req = do
      org ←
          on_error (Error.wrapped "failed to create organization")
            (Admin.create_organization env req.name)
      pure (record { id = org.id; name = org.name })

    unfoldable pub create_project : CreateProjectRequest → Exec Project
    create_project req = do
      proj ←
          on_error (Error.wrapped "failed to create project")
            (Admin.create_project env (project_params req))
      pure (project_result proj)

    unfoldable pub create_gateway_account : CreateGatewayAccountRequest → Exec GatewayAccount
    create_gateway_account req = do
      json ←
          on_error (Error.wrapped "failed to marshal credentials")
            (lift (marshalled (credentials_json req.credentials)))
      encrypted ←
          on_error (Error.wrapped "failed to encrypt credentials")
            (encrypt env json s.encryption_key)
      acc ←
          on_error (Error.wrapped "failed to create gateway account")
            (Admin.create_gateway_account env (account_params req encrypted))
      pure (account_result acc)

    unfoldable pub create_invoice : CreateInvoiceRequest → Exec Invoice
    create_invoice req = do
      amount ←
          on_error (Error.wrapped "invalid amount")
            (lift (number_of (env.parse_decimal req.amount)))
      inv ←
          on_error (Error.wrapped "failed to create invoice")
            (Admin.create_invoice env (invoice_params req amount))
      pure (invoice_result inv)
