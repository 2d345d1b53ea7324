-- ===== src/Concurrent/Change/Inserts.antt =====
-- What a new row changes of the tables that other programs rely on.
use saftaja.Prelude.{
  false, ◌≡◌, refl, Option, none, some, List, [], ◌∷◌, ◌==◌, exists?, find?, arith,
}
use saftaja.Domain.{Uuid}
use saftaja.Store.Rows.{Db, Invoice, PaymentSession, Transaction}
use saftaja.Ledger.Step.{invoice_at, session_at}
use saftaja.Ledger.Inv.{Inv}
use saftaja.Concurrent.Change.{Holds, Untouched, Apart, Move}

other_key :
    (a : Uuid) (t : Transaction) (ts : List Transaction) (u : Transaction)
    → exists? (λ r. r.id == t.id) ts ≡ false
    → find? (λ (r : Transaction). r.id == a) ts ≡ some u
    → (t.id == a) ≡ false
other_key a t [] u fresh found = cc
other_key a t (r ∷ rs) u fresh found = ground (arith, other_key a t rs u)

module _ (d : Db) (t : Transaction)
    (fresh : exists? (λ r. r.id == t.id) d.transactions ≡ false) where
  abbrev opened_tables : Db
  opened_tables = record d { transactions = t ∷ d.transactions }

  opened_Untouched : (k : Option Uuid) → Holds k d → Untouched k d opened_tables
  opened_Untouched none h = tt
  opened_Untouched (some a) (u, h) = rw (other_key a t d.transactions u fresh h) refl

  opened_Apart : (k : Option Uuid) → Holds k d → Apart k (some t.id)
  opened_Apart none h = tt
  opened_Apart (some a) (u, h) = ground (arith, other_key a t d.transactions u fresh h)

  pub opened : (o : Option Uuid) → Inv opened_tables → Move o (some t.id) d opened_tables
  opened o inv = record {
    inv = inv;
    others = λ k far h. record {
      own = opened_Untouched k h;
      invoices = λ i q v p. p;
      sessions = λ i q p s. s;
    };
    apart = λ k far h. opened_Apart k h;
  }

other_session :
    (i q : Uuid) (x : PaymentSession) (ps : List PaymentSession) (p : PaymentSession)
    → exists? (λ r. r.id == x.id) ps ≡ false
    → session_at i q ps ≡ some p
    → (x.id == i) ≡ false
other_session i q x [] p fresh found = cc
other_session i q x (y ∷ ps) p fresh found = ground (arith, other_session i q x ps p)

session-Untouched :
    (k : Option Uuid) (d : Db) (x : PaymentSession)
    → Untouched k d (record d { payment_sessions = x ∷ d.payment_sessions })
session-Untouched none d x = tt
session-Untouched (some a) d x = refl

pub session_opened :
    (d : Db) (x : PaymentSession)
    → exists? (λ r. r.id == x.id) d.payment_sessions ≡ false
    → let d' = record d { payment_sessions = x ∷ d.payment_sessions } in
      (o : Option Uuid) → Inv d' → Move o o d d'
session_opened d x fresh o inv = record {
  inv = inv;
  others = λ k far h. record {
    own = session-Untouched k d x;
    invoices = λ i q v p. p;
    sessions = λ i q p found. rw (other_session i q x d.payment_sessions p fresh found) found;
  };
  apart = λ k far h. far;
}

same_Untouched : (k : Option Uuid) (d d' : Db) → d'.transactions ≡ d.transactions → Untouched k d d'
same_Untouched none d d' e = tt
same_Untouched (some a) d d' e = rw e refl

-- A row of a table that no payment stands on.
pub aside :
    (o : Option Uuid) (d d' : Db)
    → Inv d'
    → d'.transactions ≡ d.transactions
    → d'.invoices ≡ d.invoices
    → d'.payment_sessions ≡ d.payment_sessions
    → Move o o d d'
aside o d d' inv ts vs ps = record {
  inv = inv;
  others = λ k far h. record {
    own = same_Untouched k d d' ts;
    invoices = λ i q v p. rw vs p;
    sessions = λ i q p found. rw ps found;
  };
  apart = λ k far h. far;
}

other_invoice :
    (i q : Uuid) (x : Invoice) (vs : List Invoice) (v : Invoice)
    → exists? (λ r. r.id == x.id) vs ≡ false
    → invoice_at i q vs ≡ some v
    → (x.id == i) ≡ false
other_invoice i q x [] v fresh found = cc
other_invoice i q x (y ∷ vs) v fresh found = ground (arith, other_invoice i q x vs v)

pub billed :
    (d : Db) (x : Invoice)
    → exists? (λ r. r.id == x.id) d.invoices ≡ false
    → let d' = record d { invoices = x ∷ d.invoices } in (o : Option Uuid) → Inv d' → Move o o d d'
billed d x fresh o inv = record {
  inv = inv;
  others = λ k far h. record {
    own = same_Untouched k d _ refl;
    invoices = λ i q v (u, found, amount, currency).
        (u, rw (other_invoice i q x d.invoices u fresh found) found, amount, currency);
    sessions = λ i q p found. found;
  };
  apart = λ k far h. far;
}
