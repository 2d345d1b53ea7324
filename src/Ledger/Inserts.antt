-- ===== src/Ledger/Inserts.antt =====
-- What the insertions of khazina/internal/store/admin.sql.go that succeed have done.
use saftaja.Prelude.{true, false, ◌≡◌, ◌∷◌, ◌==◌, exists?, some, arith, String}
use saftaja.Domain.{InvoiceStatus}
use saftaja.Env.{Env}
use saftaja.Exec.{gives, Stamp}
use saftaja.Store.Rows.{Db, Organization, Project, GatewayAccount, Invoice}
use saftaja.Store.Reads.{text_is}
use saftaja.Store.Numeric.{numeric_12_3}
use saftaja.Store.Admin.{
  CreateProjectParams, CreateGatewayAccountParams, CreateInvoiceParams, insert_organization,
  insert_project, insert_account, insert_invoice,
}

module _ (env : Env) (st : Stamp) (d d' : Db) where
  pub insert_organization-gives :
      (name : String) (o : Organization)
      → insert_organization env name st d ≡ gives (o, d')
      → (exists? (λ r. r.id == o.id) d.organizations ≡ false)
        × (d' ≡ record d { organizations = o ∷ d.organizations })
  unfolding insert_organization
  insert_organization-gives name o h = ground arith

  pub insert_project-gives :
      (arg : CreateProjectParams) (p : Project)
      → insert_project env arg st d ≡ gives (p, d')
      → (exists? (λ r. r.id == p.id) d.projects ≡ false)
        × (exists? (λ r. text_is r.custom_domain p.custom_domain) d.projects ≡ false)
        × (d' ≡ record d { projects = p ∷ d.projects })
  unfolding insert_project
  insert_project-gives arg p h = ground arith

  pub insert_account-gives :
      (arg : CreateGatewayAccountParams) (a : GatewayAccount)
      → insert_account env arg st d ≡ gives (a, d')
      → (exists? (λ r. r.id == a.id) d.gateway_accounts ≡ false)
        × (d' ≡ record d { gateway_accounts = a ∷ d.gateway_accounts })
        × (a.credentials ≡ arg.credentials)
        × (a.project_id ≡ arg.project_id)
  unfolding insert_account
  insert_account-gives arg a h = ground arith

-- What the insertion of an invoice has done.
pub record Invoiced (arg : CreateInvoiceParams) (d : Db) (v : Invoice) (d' : Db) : Type 0 where
  pub fresh : exists? (λ r. r.id == v.id) d.invoices ≡ false
  pub project : exists? (λ p. p.id == v.project_id) d.projects ≡ true
  pub own_project : v.project_id ≡ arg.project_id
  pub status : v.status ≡ InvoiceStatus.pending
  pub amount : numeric_12_3 arg.amount ≡ some v.amount
  pub tables : d' ≡ record d { invoices = v ∷ d.invoices }

pub insert_invoice-gives :
    (env : Env) (st : Stamp) (d d' : Db) (arg : CreateInvoiceParams) (v : Invoice)
    → insert_invoice env arg st d ≡ gives (v, d')
    → Invoiced arg d v d'
unfolding insert_invoice
insert_invoice-gives env st d d' arg v h = ground arith
