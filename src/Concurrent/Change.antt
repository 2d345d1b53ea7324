-- ===== src/Concurrent/Change.antt =====
-- What a call of the database may change of the tables that the other programs rely on.
pub mod Inserts
pub mod Updates
use saftaja.Prelude.{false, ◌≡◌, refl, Option, none, some, ◌==◌}
use saftaja.Domain.{Uuid}
use saftaja.Store.Rows.{Db, Invoice, PaymentSession, Transaction}
use saftaja.Ledger.Step.{invoice_at, session_at, transaction_at}
use saftaja.Ledger.Inv.{Inv}

-- The transaction that a program has created, if it has, is in the tables.
abbrev pub Holds : Option Uuid → Db → Type 0
Holds none d = Unit
Holds (some a) d = (t : Transaction) × (transaction_at a d ≡ some t)

-- It is as it was.
abbrev pub Untouched : Option Uuid → Db → Db → Type 0
Untouched none d d' = Unit
Untouched (some a) d d' = transaction_at a d' ≡ transaction_at a d

-- Two programs have not created the same transaction.
abbrev pub Apart : Option Uuid → Option Uuid → Type 0
Apart none o = Unit
Apart (some a) none = Unit
Apart (some a) (some b) = (a == b) ≡ false

-- The invoice of this key is there, with the amount and the currency of `v`.
abbrev pub Priced : Uuid → Uuid → Invoice → Db → Type 0
Priced i q v d =
    (u : Invoice) × (invoice_at i q d.invoices ≡ some u)
    × (u.amount ≡ v.amount)
    × (u.currency ≡ v.currency)

-- What a program may rely on while others run: its own transaction stays, the amounts and the
-- currencies of invoices stay, and sessions stay.
pub record Change (mine : Option Uuid) (d d' : Db) : Type 0 where
  pub own : Untouched mine d d'
  pub invoices : (i q : Uuid) (v : Invoice) → Priced i q v d → Priced i q v d'
  pub sessions :
      (i q : Uuid) (p : PaymentSession)
      → session_at i q d.payment_sessions ≡ some p
      → session_at i q d'.payment_sessions ≡ some p

-- A call of a program that has created the transaction `o`, and `o'` after it.
pub record Move (o o' : Option Uuid) (d d' : Db) : Type 0 where
  pub inv : Inv d'
  pub others : (k : Option Uuid) → Apart k o → Holds k d → Change k d d'
  pub apart : (k : Option Uuid) → Apart k o → Holds k d → Apart k o'

Untouched-refl : (k : Option Uuid) (d : Db) → Untouched k d d
Untouched-refl none d = tt
Untouched-refl (some a) d = refl

pub Change-refl : (k : Option Uuid) (d : Db) → Change k d d
Change-refl k d = record {
  own = Untouched-refl k d;
  invoices = λ i q v h. h;
  sessions = λ i q p h. h;
}

pub still : (o : Option Uuid) (d : Db) → Inv d → Move o o d d
still o d inv = record { inv = inv; others = λ k far h. Change-refl k d; apart = λ k far h. far }

-- A program that has not heard of its own transaction.
pub unheard : (o n : Option Uuid) (d d' : Db) → Move o n d d' → Move o none d d'
unheard o n d d' move = record {
  inv = move.inv;
  others = move.others;
  apart = λ k far h. Apart_none k;
}
  where
    Apart_none : (k : Option Uuid) → Apart k none
    Apart_none none = tt
    Apart_none (some a) = tt
