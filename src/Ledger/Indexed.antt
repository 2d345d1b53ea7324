-- ===== src/Ledger/Indexed.antt =====
-- The unique index of khazina/internal/store/migrations/00002_unique_successful_payment.up.sql.
use saftaja.Prelude.{
  ◌≤◌, true, false, ◌≡◌, List, [], ◌∷◌, ◌==◌, exists?, map, String, some, All, arith, Bool-cases,
  inl, inr, ==-eq, ==_refl,
}
use mathlib.Core.Path.{subst}
use saftaja.Domain.{Uuid, Time, TransactionStatus, is_paid, is_pay, is_success}
use saftaja.Exec.{gives, Stamp}
use saftaja.Store.Rows.{Db, Invoice, Transaction}
use saftaja.Store.Writes.{pays, one_payment_per_invoice, set_transaction, update_transaction}
use saftaja.Ledger.Step.{invoice_at, transaction_at}
use saftaja.Ledger.Inv.{Inv, Distinct, paid_flag, payments}
use saftaja.Ledger.Books.{payments-map, absent_flag}

-- An update that has been accepted satisfies the index.
pub update_transaction-indexed :
    (id : Uuid) (status : TransactionStatus) (raw : String) (st : Stamp) (d : Db) (u : Unit {0})
    (d' : Db)
    → update_transaction id status raw st d ≡ gives (u, d')
    → one_payment_per_invoice (map (set_transaction id status raw st.time) d.transactions) ≡ true
unfolding update_transaction
update_transaction-indexed id status raw st d u d' h = ground arith

none_pays : (i : Uuid) (ts : List Transaction) → exists? (pays i) ts ≡ false → payments i ts ≡ 0
none_pays i [] h = omega arith
none_pays i (t ∷ ts) h = ground (arith, none_pays i ts)

pub one_payment-le :
    (i : Uuid) (ts : List Transaction) → one_payment_per_invoice ts ≡ true → payments i ts ≤ 1
one_payment-le i [] h = omega arith
one_payment-le i (t ∷ ts) h = elim (Bool-cases (pays i t)) [
  | inl y ↦
      let key : t.invoice_id ≡ i = ==-eq t.invoice_id i (ground arith) in
      let none_else : exists? (pays i) ts ≡ false =
        subst (λ x. exists? (pays x) ts ≡ false) key (ground arith) in
      ground (arith, none_pays i ts none_else)
  | inr n ↦ ground (arith, one_payment-le i ts)
]

paid_flag-paid :
    (k p : Uuid) (v : Invoice) (vs : List Invoice)
    → Distinct (λ (v : Invoice). v.id) vs
    → invoice_at k p vs ≡ some v
    → is_paid v.status ≡ true
    → paid_flag k vs ≡ 1
paid_flag-paid k p v [] d f h = cc
paid_flag-paid k p v (u ∷ us) d f h = elim (Bool-cases (u.id == k)) [
  | inl e ↦ ground (
    arith,
    absent_flag k us
        (subst (λ x. All (λ (y : Invoice). (y.id == x) ≡ false) us) (==-eq u.id k e) d.0) p,
  )
  | inr n ↦ ground (arith, paid_flag-paid k p v us d.1)
]

-- A payment that the index lets succeed is for an invoice that is not paid.
pub indexed-unpaid :
    (d : Db) (t : Transaction) (v : Invoice) (raw : String) (time : Time)
    → Inv d
    → transaction_at t.id d ≡ some t
    → is_pay t.transaction_type ≡ true
    → is_success t.status ≡ false
    → invoice_at t.invoice_id t.project_id d.invoices ≡ some v
    → one_payment_per_invoice
        (map (set_transaction t.id TransactionStatus.success raw time) d.transactions)
      ≡ true
    → is_paid v.status ≡ false
indexed-unpaid d t v raw time inv found pay undecided at index =
    elim (Bool-cases (is_paid v.status)) [
      | inl y ↦
          let i = t.invoice_id in
          let more =
            payments-map t.id TransactionStatus.success raw time i t d.transactions
              inv.transactions_distinct found undecided in
          let most =
            one_payment-le i
              (map (set_transaction t.id TransactionStatus.success raw time) d.transactions)
              index in
          let flag = paid_flag-paid i t.project_id v d.invoices inv.invoices_distinct at y in
          absurd (ground (arith, more, most, flag, inv.books i, pay, ==_refl i))
      | inr n ↦ n
    ]
