-- ===== src/Ledger/Books.antt =====
-- How the updates of khazina/internal/store move the two sides of the books: the successful
-- payments of an invoice, and its paid flag.
use mathlib.Core.Path.{subst}
use saftaja.Prelude.{
  sym, ◌∙◌, Bool-cases, ==-eq, inl, inr, ◌+◌, false, ◌≡◌, refl, List, [], ◌∷◌, ◌==◌, ◌&&◌,
  if◌then◌else◌, find?, exists?, All, map, String, some, none, arith,
}
use saftaja.Domain.{Uuid, Time, TransactionStatus, InvoiceStatus, is_paid, is_pay, is_success}
use saftaja.Store.Rows.{Invoice, Transaction}
use saftaja.Store.Writes.{set_transaction, set_invoice}
use saftaja.Ledger.Step.{invoice_at, Bills}
use saftaja.Ledger.Inv.{Distinct, paid_flag, payments}

-- No row of the list has the key.
abbrev pub Absent : Uuid → List Transaction → Type 0
Absent x ts = All (λ (y : Transaction). (y.id == x) ≡ false) ts

pub Absent-of_exists? :
    (x : Uuid) (ts : List Transaction) → exists? (λ r. r.id == x) ts ≡ false → Absent x ts
Absent-of_exists? x [] h = tt
Absent-of_exists? x (t ∷ ts) h = ground (arith, Absent-of_exists? x ts)

module _ (x : Uuid) (status : TransactionStatus) (raw : String) (time : Time) where
  pub Absent-map :
      (k : Uuid) (ts : List Transaction)
      → Absent k ts
      → Absent k (map (set_transaction x status raw time) ts)
  Absent-map k [] h = tt
  Absent-map k (t ∷ ts) h = ground (arith, Absent-map k ts h.1)

  id-set_transaction : (t : Transaction) → (set_transaction x status raw time t).id ≡ t.id
  id-set_transaction t = ground arith

  pub Distinct-map :
      (ts : List Transaction)
      → Distinct (λ (t : Transaction). t.id) ts
      → Distinct (λ (t : Transaction). t.id) (map (set_transaction x status raw time) ts)
  Distinct-map [] h = tt
  Distinct-map (t ∷ ts) h = (
    subst (λ k. Absent k (map (set_transaction x status raw time) ts)) (sym (id-set_transaction t))
        (Absent-map t.id ts h.0),
    Distinct-map ts h.1,
  )

  payments-map-Absent :
      (i : Uuid) (ts : List Transaction)
      → Absent x ts
      → payments i (map (set_transaction x status raw time) ts) ≡ payments i ts
  payments-map-Absent i [] h = refl
  payments-map-Absent i (t ∷ ts) h = ground (arith, payments-map-Absent i ts h.1)

  -- Deciding a transaction that has not succeeded adds the payment that it makes.
  pub payments-map :
      (i : Uuid) (t : Transaction) (ts : List Transaction)
      → Distinct (λ (t : Transaction). t.id) ts
      → find? (λ r. r.id == x) ts ≡ some t
      → is_success t.status ≡ false
      → payments i (map (set_transaction x status raw time) ts)
        ≡ payments i ts
          + (if t.invoice_id == i && is_pay t.transaction_type && is_success status then 1 else 0)
  payments-map i t [] d f h = cc
  payments-map i t (u ∷ us) d f h = elim (Bool-cases (u.id == x)) [
    | inl e ↦
        ground (arith, payments-map-Absent i us (subst (λ k. Absent k us) (==-eq u.id x e) d.0))
    | inr n ↦ ground (arith, payments-map i t us d.1)
  ]

-- A transaction whose key is not taken adds nothing until it succeeds.
pub payments-open :
    (i : Uuid) (t : Transaction) (ts : List Transaction)
    → t.status ≡ TransactionStatus.pending
    → payments i (t ∷ ts) ≡ payments i ts
payments-open i t ts h = ground arith

module _ (k : Uuid) (time : Time) where
  pub ids-set_invoice :
      (status : InvoiceStatus) (v : Invoice)
      → ((set_invoice k status time v).id ≡ v.id)
        × ((set_invoice k status time v).project_id ≡ v.project_id)
        × ((set_invoice k status time v).amount ≡ v.amount)
        × ((set_invoice k status time v).currency ≡ v.currency)
  ids-set_invoice status v = ground arith

  Absent_invoice-map :
      (x : Uuid) (vs : List Invoice)
      → All (λ (v : Invoice). (v.id == x) ≡ false) vs
      → All (λ (v : Invoice). (v.id == x) ≡ false) (map (set_invoice k InvoiceStatus.paid time) vs)
  Absent_invoice-map x [] h = tt
  Absent_invoice-map x (v ∷ vs) h = ground (arith, Absent_invoice-map x vs h.1)

  pub Distinct-invoice-map :
      (vs : List Invoice)
      → Distinct (λ (v : Invoice). v.id) vs
      → Distinct (λ (v : Invoice). v.id) (map (set_invoice k InvoiceStatus.paid time) vs)
  Distinct-invoice-map [] h = tt
  Distinct-invoice-map (v ∷ vs) h = (
    subst
        (λ x.
          All (λ (v : Invoice). (v.id == x) ≡ false)
            (map (set_invoice k InvoiceStatus.paid time) vs))
        (sym (ids-set_invoice InvoiceStatus.paid v).0) (Absent_invoice-map v.id vs h.0),
    Distinct-invoice-map vs h.1,
  )

  paid_flag-map_ne :
      (i : Uuid) (vs : List Invoice)
      → (k == i) ≡ false
      → paid_flag i (map (set_invoice k InvoiceStatus.paid time) vs) ≡ paid_flag i vs
  paid_flag-map_ne i [] n = refl
  paid_flag-map_ne i (u ∷ us) n = ground (arith, paid_flag-map_ne i us n)

  pub paid_flag-map_self :
      (p : Uuid) (v : Invoice) (vs : List Invoice)
      → invoice_at k p vs ≡ some v
      → paid_flag k (map (set_invoice k InvoiceStatus.paid time) vs) ≡ 1
  paid_flag-map_self p v [] f = cc
  paid_flag-map_self p v (u ∷ us) f = ground (arith, paid_flag-map_self p v us)

  -- Marking an invoice that is there as paid sets its flag, and no other.
  pub paid_flag-map :
      (i p : Uuid) (v : Invoice) (vs : List Invoice)
      → invoice_at k p vs ≡ some v
      → paid_flag i (map (set_invoice k InvoiceStatus.paid time) vs)
        ≡ (if k == i then 1 else paid_flag i vs)
  paid_flag-map i p v vs f = elim (Bool-cases (k == i)) [
    | inl e ↦ rw e (
        subst (λ x. paid_flag x (map (set_invoice k InvoiceStatus.paid time) vs) ≡ 1) (==-eq k i e)
          (paid_flag-map_self p v vs f))
    | inr n ↦ rw n (paid_flag-map_ne i vs n)
  ]

  pub invoice_at-map :
      (i p : Uuid) (v : Invoice) (vs : List Invoice)
      → invoice_at i p vs ≡ some v
      → invoice_at i p (map (set_invoice k InvoiceStatus.paid time) vs)
        ≡ some (set_invoice k InvoiceStatus.paid time v)
  invoice_at-map i p v [] f = cc
  invoice_at-map i p v (u ∷ us) f = ground (arith, invoice_at-map i p v us)

  -- The invoice that a key finds keeps its amount and its currency.
  pub Bills-map :
      (t : Transaction) (v : Invoice) (vs : List Invoice)
      → Bills vs t v
      → Bills
          (map (set_invoice k InvoiceStatus.paid time) vs)
          t
          (set_invoice k InvoiceStatus.paid time v)
  Bills-map t v vs b = record {
    found = invoice_at-map t.invoice_id t.project_id v vs b.found;
    amount = b.amount ∙ sym (ids-set_invoice InvoiceStatus.paid v).2;
    currency = b.currency ∙ sym (ids-set_invoice InvoiceStatus.paid v).3;
  }

pub absent_flag :
    (k : Uuid) (vs : List Invoice)
    → All (λ (v : Invoice). (v.id == k) ≡ false) vs
    → (p : Uuid) → invoice_at k p vs ≡ none
absent_flag k [] h p = refl
absent_flag k (v ∷ vs) h p = ground (arith, absent_flag k vs h.1 p)

-- An invoice that its key and project find, and that is not paid, has the flag 0.
pub paid_flag-unpaid :
    (k p : Uuid) (v : Invoice) (vs : List Invoice)
    → Distinct (λ (v : Invoice). v.id) vs
    → invoice_at k p vs ≡ some v
    → is_paid v.status ≡ false
    → paid_flag k vs ≡ 0
paid_flag-unpaid k p v [] d f h = cc
paid_flag-unpaid k p v (u ∷ us) d f h = elim (Bool-cases (u.id == k)) [
  | inl e ↦ ground (
    arith,
    absent_flag k us
        (subst (λ x. All (λ (y : Invoice). (y.id == x) ≡ false) us) (==-eq u.id k e) d.0) p,
  )
  | inr n ↦ ground (arith, paid_flag-unpaid k p v us d.1)
]
