-- ===== src/Concurrent/Admin.antt =====
-- The operations of khazina/internal/admin/service.go as programs.
pub mod Safety
use saftaja.Prelude.{◌≡◌}
use saftaja.Env.{Env}
use saftaja.Errors.{Error}
use saftaja.Exec.{lift, pure}
use saftaja.Connectors.Crypto.{encrypt}
use saftaja.Store.Admin
use saftaja.Admin.Types.{
  Service, CreateOrganizationRequest, CreateProjectRequest, CreateGatewayAccountRequest,
  CreateInvoiceRequest, Organization, Project, GatewayAccount, Invoice,
}
use saftaja.Admin.Service as Sequential
use saftaja.Admin.Service.{
  marshalled, credentials_json, number_of, project_params, account_params, invoice_params,
  project_result, account_result, invoice_result,
}
use saftaja.Concurrent.Program.{Program, ends, run, call, returns, rename_error, ◌>>=◌}
use saftaja.Concurrent.Program.Alone.{alone, run-ends}

module _ (env : Env) (s : Service) where
  unfoldable pub create_organization : CreateOrganizationRequest → Program Organization
  create_organization req = do
    org ←
        rename_error (Error.wrapped "failed to create organization")
          (call (Admin.create_organization env req.name))
    returns (record { id = org.id; name = org.name })

  unfoldable pub create_project : CreateProjectRequest → Program Project
  create_project req = do
    proj ←
        rename_error (Error.wrapped "failed to create project")
          (call (Admin.create_project env (project_params env req)))
    returns (project_result env proj)

  unfoldable pub create_gateway_account : CreateGatewayAccountRequest → Program GatewayAccount
  create_gateway_account req = do
    json ←
        rename_error (Error.wrapped "failed to marshal credentials")
          (ends (marshalled (credentials_json env req.credentials)))
    encrypted ←
        rename_error (Error.wrapped "failed to encrypt credentials")
          (call (encrypt env json s.encryption_key))
    acc ←
        rename_error (Error.wrapped "failed to create gateway account")
          (call (Admin.create_gateway_account env (account_params env req encrypted)))
    returns (account_result env acc)

  unfoldable pub create_invoice : CreateInvoiceRequest → Program Invoice
  create_invoice req = do
    amount ←
        rename_error (Error.wrapped "invalid amount")
          (ends (number_of (env.parse_decimal req.amount)))
    inv ←
        rename_error (Error.wrapped "failed to create invoice")
          (call (Admin.create_invoice env (invoice_params env req amount)))
    returns (invoice_result env inv)

  pub create_organization-alone :
      (req : CreateOrganizationRequest)
      → run (create_organization req) ≡ Sequential.create_organization env s req
  unfolding create_organization Sequential.create_organization lift pure
  create_organization-alone req = simp (alone, run-ends)

  pub create_project-alone :
      (req : CreateProjectRequest) → run (create_project req) ≡ Sequential.create_project env s req
  unfolding create_project Sequential.create_project lift pure
  create_project-alone req = simp (alone, run-ends)

  pub create_gateway_account-alone :
      (req : CreateGatewayAccountRequest)
      → run (create_gateway_account req) ≡ Sequential.create_gateway_account env s req
  unfolding create_gateway_account Sequential.create_gateway_account lift pure
  create_gateway_account-alone req = simp (alone, run-ends)

  pub create_invoice-alone :
      (req : CreateInvoiceRequest) → run (create_invoice req) ≡ Sequential.create_invoice env s req
  unfolding create_invoice Sequential.create_invoice lift pure
  create_invoice-alone req = simp (alone, run-ends)
