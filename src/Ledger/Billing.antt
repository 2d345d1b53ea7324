-- ===== src/Ledger/Billing.antt =====
-- How an invoice of a fresh key, as khazina/internal/store/admin.sql.go inserts it, changes the books.
use mathlib.Core.Path.{subst}
use saftaja.Prelude.{
  sym, ◌∙◌, Bool-cases, ==-eq, inl, inr, false, ◌≡◌, refl, List, [], ◌∷◌, ◌==◌, exists?, All,
  All-map, some, none, arith,
}
use saftaja.Domain.{Uuid, is_paid}
use saftaja.Store.Rows.{Db, Invoice, Transaction}
use saftaja.Ledger.Step.{invoice_at, Bills}
use saftaja.Ledger.Inv.{Inv, paid_flag}

module _ (x : Uuid) where
  Absent_invoice :
      (vs : List Invoice)
      → exists? (λ r. r.id == x) vs ≡ false
      → All (λ (v : Invoice). (v.id == x) ≡ false) vs
  Absent_invoice [] h = tt
  Absent_invoice (v ∷ vs) h = ground (arith, Absent_invoice vs)

  absent_invoice :
      (q : Uuid) (vs : List Invoice)
      → exists? (λ r. r.id == x) vs ≡ false
      → invoice_at x q vs ≡ none
  absent_invoice q [] h = refl
  absent_invoice q (v ∷ vs) h = ground (arith, absent_invoice q vs)

  absent_paid : (vs : List Invoice) → exists? (λ r. r.id == x) vs ≡ false → paid_flag x vs ≡ 0
  absent_paid [] h = refl
  absent_paid (v ∷ vs) h = ground (arith, absent_paid vs)

none≢some : {A : Type 0} {a : A} → none ≡ some a → ⊥
none≢some h = cc

module _ (v : Invoice) (vs : List Invoice) (fresh : exists? (λ r. r.id == v.id) vs ≡ false) where
  -- An invoice of a fresh key hides no other.
  pub invoice_at-cons :
      (i q : Uuid) (u : Invoice) → invoice_at i q vs ≡ some u → invoice_at i q (v ∷ vs) ≡ some u
  invoice_at-cons i q u f = elim (Bool-cases (v.id == i)) [
    | inl e ↦ absurd (
        none≢some (
          sym (
            absent_invoice i q vs
              (subst (λ x. exists? (λ (r : Invoice). r.id == x) vs ≡ false) (==-eq v.id i e) fresh))
          ∙ f))
    | inr n ↦ rw n f
  ]

  -- An unpaid one sets no flag.
  pub paid_flag-cons : (i : Uuid) → is_paid v.status ≡ false → paid_flag i (v ∷ vs) ≡ paid_flag i vs
  paid_flag-cons i unpaid = elim (Bool-cases (v.id == i)) [
    | inl e ↦
        rw (e, unpaid)
          (sym (subst (λ x. paid_flag x vs ≡ 0) (==-eq v.id i e) (absent_paid v.id vs fresh)))
    | inr n ↦ rw n refl
  ]

  pub Bills-cons : (t : Transaction) (u : Invoice) → Bills vs t u → Bills (v ∷ vs) t u
  Bills-cons t u b = record {
    found = invoice_at-cons t.invoice_id t.project_id u b.found;
    amount = b.amount;
    currency = b.currency;
  }

pub bill-Inv :
    (d : Db) (v : Invoice)
    → Inv d
    → exists? (λ r. r.id == v.id) d.invoices ≡ false
    → is_paid v.status ≡ false
    → Inv (record d { invoices = v ∷ d.invoices })
bill-Inv d v inv fresh unpaid = record {
  transactions_distinct = inv.transactions_distinct;
  invoices_distinct = (Absent_invoice v.id d.invoices fresh, inv.invoices_distinct);
  sessions_distinct = inv.sessions_distinct;
  books = λ i. inv.books i ∙ sym (paid_flag-cons v d.invoices fresh i unpaid);
  billed =
      All-map (λ t. (u : Invoice) × Bills d.invoices t u)
        (λ t. (u : Invoice) × Bills (v ∷ d.invoices) t u)
        (λ t (u, b). (u, Bills-cons v d.invoices fresh t u b)) d.transactions inv.billed;
  belongs = inv.belongs;
  created_only = inv.created_only;
}

pub empty-Inv : (d : Db) → d.invoices ≡ [] → d.payment_sessions ≡ [] → d.transactions ≡ [] → Inv d
empty-Inv d a b c = record {
  transactions_distinct = rw c tt;
  invoices_distinct = rw a tt;
  sessions_distinct = rw b tt;
  books = λ i. rw (a, c) refl;
  billed = rw c tt;
  belongs = rw c tt;
  created_only = rw b tt;
}
