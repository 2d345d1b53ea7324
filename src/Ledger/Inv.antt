-- ===== src/Ledger/Inv.antt =====
-- The invariant of the tables.
use saftaja.Prelude.{ℕ, false, ◌≡◌, List, [], ◌∷◌, ◌==◌, if◌then◌else◌, count_by, All}
use saftaja.Domain.{Uuid, PaymentSessionStatus, is_paid}
use saftaja.Store.Rows.{Db, Invoice, Transaction, PaymentSession}
use saftaja.Store.Writes.{pays}
use saftaja.Ledger.Step.{Bills, Belongs}

-- No two rows have the same key.
abbrev pub Distinct : {A : Type 0} → (A → Uuid) → List A → Type 0
Distinct key [] = Unit
Distinct key (x ∷ xs) = All (λ y. (key y == key x) ≡ false) xs × Distinct key xs

-- 1 if the invoice of this key is paid, and 0 otherwise
abbrev pub paid_flag : Uuid → List Invoice → ℕ
paid_flag i [] = 0
paid_flag i (v ∷ vs) = if v.id == i then (if is_paid v.status then 1 else 0) else paid_flag i vs

-- how many successful payments an invoice has
abbrev pub payments : Uuid → List Transaction → ℕ
payments i ts = count_by (pays i) ts

pub record Inv (d : Db) : Type 0 where
  -- keys are unique
  pub transactions_distinct : Distinct (λ (t : Transaction). t.id) d.transactions
  pub invoices_distinct : Distinct (λ (v : Invoice). v.id) d.invoices
  pub sessions_distinct : Distinct (λ (p : PaymentSession). p.id) d.payment_sessions
  -- a paid invoice has one successful payment, and any other none
  pub books : (i : Uuid) → payments i d.transactions ≡ paid_flag i d.invoices
  -- every transaction has the amount of its invoice
  pub billed : All (λ t. (v : Invoice) × Bills d.invoices t v) d.transactions
  -- every transaction is for the invoice of its session
  pub belongs : All (λ t. (p : PaymentSession) × Belongs d.payment_sessions t p) d.transactions
  -- no session has left its first status
  pub created_only :
      All (λ (s : PaymentSession). s.status ≡ PaymentSessionStatus.created) d.payment_sessions
