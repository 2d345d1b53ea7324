-- ===== src/Admin/Amounts.antt =====
-- The invoices that khazina/internal/admin/service.go creates, and their amounts.
use saftaja.Prelude.{◌≡◌, refl, ◌∷◌, ◌<◌, some, none, Option}
use saftaja.Domain.{InvoiceStatus}
use saftaja.Env.{Env}
use saftaja.Exec.{World, ok}
use saftaja.Exec.After.{
  Runs, bind-After, on_error-After, pure-After, lift-After, write-After, Runs-returned,
}
use saftaja.Store.Rows.{Invoice}
use saftaja.Store.Admin
use saftaja.Store.Numeric.{Number, numeric_limit, signed}
use saftaja.Store.Numeric.Rounding.{Near, magnitude, numeric_12_3-Near, numeric_12_3-sign}
use saftaja.Ledger.Inserts.{insert_invoice-gives}
use saftaja.Admin.Types
use saftaja.Admin.Types.{Service, CreateInvoiceRequest}
use saftaja.Admin.Service.{create_invoice, number_of, invoice_result}

number_of-ok : (o : Option Number) (n : Number) → number_of o ≡ ok n → o ≡ some n
number_of-ok none n h = cc
number_of-ok (some x) n h = cc

-- A row that bills the amount of a request.
pub record IsBill (env : Env) (req : CreateInvoiceRequest) (n : Number) (v : Invoice) : Type 0 where
  pub parsed : env.parse_decimal req.amount ≡ some n
  pub near : Near (magnitude v.amount) n.coefficient n.exponent
  pub room : magnitude v.amount < numeric_limit
  pub sign : v.amount ≡ signed n.negative (magnitude v.amount)
  pub pending : v.status ≡ InvoiceStatus.pending
  pub project : v.project_id ≡ req.project_id

module _ (env : Env) (s : Service) (req : CreateInvoiceRequest) (w : World) where
  billed :
      Runs
        (λ _. Unit)
        (λ inv u.
          (n : Number) × (v : Invoice) × IsBill env req n v
          × (u.db ≡ record w.db { invoices = v ∷ w.db.invoices })
          × (inv ≡ invoice_result env v))
        (create_invoice env s req w)
  unfolding create_invoice Admin.create_invoice
  billed = bind-After _ _ w (
      on_error-After _ _ w (
        lift-After _ w tt λ n is. bind-After _ _ w (
          on_error-After _ _ w (
            write-After env _ w tt λ st v d row.
              let ins = insert_invoice-gives env st w.db d _ v row in
              let kept = numeric_12_3-Near n v.amount ins.amount in
              (
                tt,
                pure-After _ _ (
                  n,
                  v,
                  record {
                    parsed = number_of-ok _ n is;
                    near = kept.0;
                    room = kept.1;
                    sign = numeric_12_3-sign n v.amount ins.amount;
                    pending = ins.status;
                    project = ins.own_project;
                  },
                  ins.tables,
                  refl,
                ),
              )))))

-- An invoice that the admin API has created is the one row that the tables have gained: it is
-- pending, of the project that the request names, its amount is within half a thousandth of the
-- request's, of the same sign, and below 10 ^ 9, and the reply shows that row.
pub create_invoice-Near :
    (env : Env) (s : Service) (req : CreateInvoiceRequest) (w u : World) (inv : Types.Invoice)
    → create_invoice env s req w ≡ (ok inv, u)
    → (n : Number) × (v : Invoice) × IsBill env req n v
      × (u.db ≡ record w.db { invoices = v ∷ w.db.invoices })
      × (inv ≡ invoice_result env v)
create_invoice-Near env s req w u inv returned = Runs-returned (billed env s req w) returned
