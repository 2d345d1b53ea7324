-- ===== src/Ledger/Placed.antt =====
-- A transaction that an operation has just created, for an invoice that it has read before.
use mathlib.Core.Path.{subst, subst₂}
use saftaja.Prelude.{
  true, false, ◌≡◌, sym, ap, ◌∙◌, List, ◌==◌, ◌&&◌, find?-sound, Option, some, String, arith, ==-eq,
  ==_refl,
}
use saftaja.Domain.{Uuid, TransactionType, is_success}
use saftaja.Env.{Env}
use saftaja.Exec.{State, gives}
use saftaja.Store.Reads.{one}
use saftaja.Mpgs.Types.{Body}
use saftaja.Store.Rows.{Db, Invoice, Transaction, PaymentSession, GatewayAccount}
use saftaja.Payment.Auth.{transaction_params}
use saftaja.Ledger.Step.{
  Step, open_transaction, invoice_at, account_at, session_at, Belongs, transaction_at, Bills,
  with_tables, Of,
}
use saftaja.Ledger.Sql.{Inserted, one-gives}

-- What a search by key and project finds, its own key and project find.
pub invoice_at-own :
    (i p : Uuid) (v : Invoice) (vs : List Invoice)
    → invoice_at i p vs ≡ some v
    → invoice_at v.id v.project_id vs ≡ some v
invoice_at-own i p v vs f =
    let both = find?-sound (λ (u : Invoice). u.id == i && u.project_id == p) vs f in
    subst₂ (λ j q. invoice_at j q vs ≡ some v) (sym (==-eq v.id i (ground arith)))
      (sym (==-eq v.project_id p (ground arith))) f

pub own_invoice :
    (i p : Uuid) (v : Invoice) (d : Db)
    → one (invoice_at i p d.invoices) ≡ gives v
    → invoice_at v.id v.project_id d.invoices ≡ some v
own_invoice i p v d row = invoice_at-own i p v d.invoices (one-gives _ v row)

-- The account that an operation has read, under its own key.
pub own_account :
    (i p : Uuid) (a : GatewayAccount) (d : Db)
    → one (account_at i p d) ≡ gives a
    → account_at a.id p d ≡ some a
own_account i p a d row =
    let f = one-gives _ a row in
    let both =
      find?-sound (λ (b : GatewayAccount). b.id == i && b.project_id == p) d.gateway_accounts f in
    subst (λ j. account_at j p d ≡ some a) (sym (==-eq a.id i (ground arith))) f

-- An invoice that a project finds is that project's.
pub own_project :
    (i p : Uuid) (v : Invoice) (d : Db)
    → one (invoice_at i p d.invoices) ≡ gives v
    → v.project_id ≡ p
own_project i p v d row =
    let both =
      find?-sound (λ (u : Invoice). u.id == i && u.project_id == p) d.invoices
        (one-gives _ v row) in
    ==-eq v.project_id p (ground arith)

pub own_key :
    (i p : Uuid) (v : Invoice) (d : Db) → one (invoice_at i p d.invoices) ≡ gives v → v.id ≡ i
own_key i p v d row =
    let both =
      find?-sound (λ (u : Invoice). u.id == i && u.project_id == p) d.invoices
        (one-gives _ v row) in
    ==-eq v.id i (ground arith)

-- A session of a project and an invoice of that project, the session's, as an operation reads them.
pub own_session :
    (i q k : Uuid) (p : PaymentSession) (v : Invoice) (d : Db)
    → one (session_at i q d.payment_sessions) ≡ gives p
    → (p.invoice_id == k) ≡ true
    → one (invoice_at k q d.invoices) ≡ gives v
    → (session_at p.id v.project_id d.payment_sessions ≡ some p) × (p.invoice_id ≡ v.id)
own_session i q k p v d row same row' =
    let f = one-gives _ p row in
    let both =
      find?-sound (λ (u : PaymentSession). u.id == i && u.project_id == q) d.payment_sessions f in
    let both' =
      find?-sound (λ (u : Invoice). u.id == k && u.project_id == q) d.invoices
        (one-gives _ v row') in
    (
      subst₂ (λ x y. session_at x y d.payment_sessions ≡ some p) (sym (==-eq p.id i (ground arith)))
          (sym (own_project k q v d row')) f,
      ==-eq p.invoice_id k same ∙ sym (==-eq v.id k (ground arith)),
    )

pub record Placed (d : Db) (t : Transaction) (v : Invoice) : Type 0 where
  pub found : transaction_at t.id d ≡ some t
  pub undecided : is_success t.status ≡ false
  pub bills : Bills d.invoices t v

module _ (session : PaymentSession) (v : Invoice) (type : TransactionType) (tx_id : String)
    (body : Body) (d : Db) (billed : invoice_at v.id v.project_id d.invoices ≡ some v)
    (t : Transaction) (d' : Db)
    (ins : Inserted (transaction_params session v type tx_id body) d t d') where
  abbrev Own : Type 0
  Own =
      (session_at session.id v.project_id d.payment_sessions ≡ some session)
      × (session.invoice_id ≡ v.id)

  own_Belongs : Own → Belongs d.payment_sessions t session
  own_Belongs own = record {
    found = rw (ins.session, ins.project) own.0;
    invoice = own.1 ∙ sym ins.invoice;
  }

  own_Bills : Bills d.invoices t v
  own_Bills = record {
    found = rw (ins.invoice, ins.project) billed;
    amount = ins.amount;
    currency = ins.currency;
  }

  pub Placed-of_Inserted : Placed d' t v
  Placed-of_Inserted =
      rw ins.tables (record { found = rw ==_refl; undecided = rw ins.status; bills = own_Bills })

  pub opens :
      Own
      → (env : Env) {owner : Option Uuid} → Of owner t.project_id
      → (s : State) → s.db ≡ d
      → Step env owner s (with_tables s d')
  opens own env whose s e =
      open_transaction t v session (rw e ins.fresh) (rw e own_Bills) (rw e (own_Belongs own))
        ins.status whose (ap (with_tables s) (rw e ins.tables))
