-- ===== src/Store/Admin.antt =====
-- khazina/internal/store/admin.sql.go: the INSERT statements of the admin API, with the columns,
-- keys, references and unique indexes of khazina/internal/store/migrations.
use saftaja.Prelude.{String, true, Option, none, some, ◌∷◌, ◌==◌, ◌&&◌, exists?, not, str_eq}
use saftaja.Domain.{Uuid, Bytes, Text, Decimal, InvoiceStatus}
use saftaja.Env.{Env}
use saftaja.Errors.{Error}
use saftaja.Exec.{Sql, gives, rejects, Exec, Stamp, write}
use saftaja.Store.Rows.{Db, Organization, Project, GatewayAccount, Invoice}
use saftaja.Store.Reads.{text_is}
use saftaja.Store.Writes.{unless}
use saftaja.Store.Numeric.{Number, numeric_12_3}

module _ {A B : Type 0} where
  -- A value that a column has no room for is refused.
  abbrev pub column : Option A → (A → Sql B) → Sql B
  column none next = rejects (Error.db_failure "value")
  column (some a) next = next a

  -- The same for a column that may be NULL.
  abbrev pub nullable : (A → Option A) → Option A → (Option A → Sql B) → Sql B
  nullable keeps none next = next none
  nullable keeps (some a) next = column (keeps a) λ b. next (some b)

  -- A column that is NOT NULL.
  abbrev pub not_null : Option A → (A → Sql B) → Sql B
  not_null none next = rejects (Error.db_failure "not_null")
  not_null (some a) next = next a

pub record CreateProjectParams : Type 0 where
  pub organization_id : Uuid
  pub name : String
  pub environment : String
  pub custom_domain : Text

-- A nil slice is NULL.
pub record CreateGatewayAccountParams : Type 0 where
  pub project_id : Uuid
  pub connector_type : String
  pub account_name : String
  pub credentials : Bytes
  pub settings : Option Bytes
  pub payment_methods : Option Bytes

pub record CreateInvoiceParams : Type 0 where
  pub project_id : Uuid
  pub amount : Number
  pub currency : String
  pub customer_email : Text
  pub customer_name : Text
  pub description : Text

abbrev pub new_organization : Stamp → String → Organization
new_organization stamp name = record {
  id = stamp.uuid;
  name = name;
  created_at = stamp.time;
  updated_at = stamp.time;
  deleted_at = none;
}

abbrev pub new_project : Stamp → Uuid → String → String → Text → Project
new_project stamp organization_id name environment custom_domain = record {
  id = stamp.uuid;
  organization_id = organization_id;
  name = name;
  environment = environment;
  custom_domain = custom_domain;
  created_at = stamp.time;
  updated_at = stamp.time;
  deleted_at = none;
}

abbrev pub new_account :
    Stamp → CreateGatewayAccountParams → String → String → String → String → GatewayAccount
new_account stamp arg connector_type account_name settings payment_methods = record {
  id = stamp.uuid;
  project_id = arg.project_id;
  connector_type = connector_type;
  account_name = account_name;
  settings = settings;
  payment_methods = payment_methods;
  is_active = true;
  created_at = stamp.time;
  updated_at = stamp.time;
  deleted_at = none;
  credentials = arg.credentials;
}

abbrev pub new_invoice : Stamp → Uuid → Decimal → String → Text → Text → Text → Invoice
new_invoice stamp project_id amount currency customer_email customer_name description = record {
  id = stamp.uuid;
  project_id = project_id;
  amount = amount;
  currency = currency;
  status = InvoiceStatus.pending;
  external_id = none;
  customer_email = customer_email;
  customer_name = customer_name;
  description = description;
  paid_at = none;
  created_at = stamp.time;
  updated_at = stamp.time;
  deleted_at = none;
}

abbrev pub add_organization : Organization → Db → Sql (Organization × Db)
add_organization o d =
    unless (exists? (λ r. r.id == o.id) d.organizations) "organizations_pkey"
      (gives (o, record d { organizations = o ∷ d.organizations }))

abbrev pub add_project : Project → Db → Sql (Project × Db)
add_project p d = unless (exists? (λ r. r.id == p.id) d.projects) "projects_pkey" (
    unless (exists? (λ r. text_is r.custom_domain p.custom_domain) d.projects)
      "projects_custom_domain_key"
      (unless
        (exists? (λ r. r.organization_id == p.organization_id && str_eq r.environment p.environment)
          d.projects)
        "projects_organization_id_environment_key"
        (unless (not (exists? (λ o. o.id == p.organization_id) d.organizations))
          "projects_organization_id_fkey" (gives (p, record d { projects = p ∷ d.projects })))))

abbrev pub add_account : GatewayAccount → Db → Sql (GatewayAccount × Db)
add_account a d = unless (exists? (λ r. r.id == a.id) d.gateway_accounts) "gateway_accounts_pkey" (
    unless (not (exists? (λ p. p.id == a.project_id) d.projects)) "gateway_accounts_project_id_fkey"
      (gives (a, record d { gateway_accounts = a ∷ d.gateway_accounts })))

-- `UNIQUE(project_id, external_id)` refuses nothing here, since the `external_id` is NULL.
abbrev pub add_invoice : Invoice → Db → Sql (Invoice × Db)
add_invoice v d = unless (exists? (λ r. r.id == v.id) d.invoices) "invoices_pkey" (
    unless (not (exists? (λ p. p.id == v.project_id) d.projects)) "invoices_project_id_fkey"
      (gives (v, record d { invoices = v ∷ d.invoices })))

module _ (env : Env) where
  unfoldable pub insert_organization : String → Stamp → Db → Sql (Organization × Db)
  insert_organization name stamp d =
      column (env.varchar 100 name) λ name. add_organization (new_organization stamp name) d

  unfoldable pub insert_project : CreateProjectParams → Stamp → Db → Sql (Project × Db)
  insert_project arg stamp d = column (env.varchar 100 arg.name) λ name.
      column (env.varchar 20 arg.environment) λ environment.
        nullable (env.varchar 255) arg.custom_domain λ custom_domain.
          add_project (new_project stamp arg.organization_id name environment custom_domain) d

  unfoldable pub insert_account :
      CreateGatewayAccountParams → Stamp → Db → Sql (GatewayAccount × Db)
  insert_account arg stamp d = column (env.varchar 50 arg.connector_type) λ connector_type.
      column (env.varchar 100 arg.account_name) λ account_name. not_null arg.settings λ settings.
        column (env.jsonb settings) λ settings. not_null arg.payment_methods λ methods.
          column (env.jsonb methods) λ methods.
            add_account (new_account stamp arg connector_type account_name settings methods) d

  unfoldable pub insert_invoice : CreateInvoiceParams → Stamp → Db → Sql (Invoice × Db)
  insert_invoice arg stamp d = column (numeric_12_3 arg.amount) λ amount.
      column (env.varchar 3 arg.currency) λ currency.
        nullable (env.varchar 255) arg.customer_email λ email.
          nullable (env.varchar 100) arg.customer_name λ name.
            nullable env.text arg.description λ description.
              add_invoice (new_invoice stamp arg.project_id amount currency email name description)
                d

  unfoldable pub create_organization : String → Exec Organization
  create_organization name = write env (insert_organization name)

  unfoldable pub create_project : CreateProjectParams → Exec Project
  create_project arg = write env (insert_project arg)

  unfoldable pub create_gateway_account : CreateGatewayAccountParams → Exec GatewayAccount
  create_gateway_account arg = write env (insert_account arg)

  unfoldable pub create_invoice : CreateInvoiceParams → Exec Invoice
  create_invoice arg = write env (insert_invoice arg)
