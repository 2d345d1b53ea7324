-- ===== src/Ledger/Unrefused.antt =====
-- Statements that the constraints of khazina/internal/store/migrations do not refuse.
use saftaja.Prelude.{
  ◌≤◌, true, false, ◌≡◌, refl, List, [], ◌∷◌, ◌==◌, exists?, count_by, some, arith, Bool, map,
  String,
}
use saftaja.Domain.{Uuid, TransactionStatus}
use saftaja.Exec.{Stamp, gives}
use saftaja.Store.Rows.{Db, Invoice, Transaction, PaymentSession}
use saftaja.Store.Writes.{
  CreateTransactionParams, insert_transaction, update_transaction, new_transaction, set_transaction,
  pays, one_payment_per_invoice,
}
use saftaja.Ledger.Step.{invoice_at, session_at}
use saftaja.Ledger.Inv.{payments}

pub session_at-exists :
    (i q : Uuid) (p : PaymentSession) (ps : List PaymentSession)
    → session_at i q ps ≡ some p
    → exists? (λ s. s.id == i) ps ≡ true
session_at-exists i q p [] f = cc
session_at-exists i q p (r ∷ ps) f = ground (arith, session_at-exists i q p ps)

pub invoice_at-exists :
    (i q : Uuid) (v : Invoice) (vs : List Invoice)
    → invoice_at i q vs ≡ some v
    → exists? (λ u. u.id == i) vs ≡ true
invoice_at-exists i q v [] f = cc
invoice_at-exists i q v (u ∷ vs) f = ground (arith, invoice_at-exists i q v vs)

pub insert_transaction-accepts :
    (arg : CreateTransactionParams) (st : Stamp) (d : Db)
    → exists? (λ t. t.id == st.uuid) d.transactions ≡ false
    → exists? (λ s. s.id == arg.payment_session_id) d.payment_sessions ≡ true
    → exists? (λ v. v.id == arg.invoice_id) d.invoices ≡ true
    → exists? (λ p. p.id == arg.project_id) d.projects ≡ true
    → insert_transaction arg st d
      ≡ gives (
        new_transaction st arg,
        record d { transactions = new_transaction st arg ∷ d.transactions },
      )
unfolding insert_transaction
insert_transaction-accepts arg st d fresh s v p = rw (fresh, s, v, p) refl

none_counted : {A : Type 0} (q : A → Bool) (xs : List A) → count_by q xs ≡ 0 → exists? q xs ≡ false
none_counted q [] h = refl
none_counted q (x ∷ xs) h = ground (arith, none_counted q xs)

-- The unique index refuses no list where every invoice has one successful payment at most.
pub one_payment_per_invoice-accepts :
    (ts : List Transaction) → ((i : Uuid) → payments i ts ≤ 1) → one_payment_per_invoice ts ≡ true
one_payment_per_invoice-accepts [] h = refl
one_payment_per_invoice-accepts (t ∷ ts) h = ground (
  arith,
  h t.invoice_id,
  none_counted (pays t.invoice_id) ts,
  one_payment_per_invoice-accepts ts λ i. omega (arith, h i),
)

pub update_transaction-accepts :
    (id : Uuid) (status : TransactionStatus) (raw : String) (st : Stamp) (d : Db)
    → ((i : Uuid) → payments i (map (set_transaction id status raw st.time) d.transactions) ≤ 1)
    → update_transaction id status raw st d
      ≡ gives (
        tt,
        record d { transactions = map (set_transaction id status raw st.time) d.transactions },
      )
unfolding update_transaction
update_transaction-accepts id status raw st d h =
    rw
      (one_payment_per_invoice-accepts (map (set_transaction id status raw st.time) d.transactions)
        h)
      refl
