-- ===== src/Concurrent/Safe.antt =====
-- Programs that keep the invariant of the tables, whatever runs at the same time.
use saftaja.Prelude.{◌∙◌, Option, none, some, List, [], ◌∷◌, All, arith}
use saftaja.Domain.{Uuid}
use saftaja.Exec.{World}
use saftaja.Store.Rows.{Db}
use saftaja.Ledger.Inv.{Inv}
use saftaja.Concurrent.Program.{Program, ends, calls}
use saftaja.Concurrent.Pool.{Thread}
use saftaja.Concurrent.Change.{Holds, Apart, Change, Move}

-- What a program knows of the tables. It holds on while others run.
abbrev pub Fact : Type 1
Fact = Db → Type 0

abbrev pub Stable : Option Uuid → Fact → Type 0
Stable o fact = (d d' : Db) → Change o d d' → fact d → fact d'

-- After a call: the transaction that the program has created by now, what it knows, and that the
-- rest of it is safe.
pub record Onward (o : Option Uuid) (d d' : Db) (Rest : Option Uuid → Fact → Type 1) : Type 1 where
  pub own : Option Uuid
  pub fact : Fact
  pub move : Move o own d d'
  pub held : Holds own d'
  pub known : fact d'
  pub stable : Stable own fact
  pub rest : Rest own fact

abbrev pub Safe : {A : Type 0} → Option Uuid → Fact → Program A → Type 1
Safe o fact (ends r) = Unit {1}
Safe o fact (calls m next) =
    (w : World)
    → Inv w.db
    → Holds o w.db
    → fact w.db
    → Onward o w.db (m w).1.db (λ own known. Safe own known (next (m w).0))

-- The programs of a pool with the transactions that they have created.
pub data Fit (d : Db) : List (Option Uuid) → List Thread → Type 1 where
  nobody : Fit d [] []
  also :
      {os : List (Option Uuid)} {ts : List Thread} (o : Option Uuid) (t : Thread) (fact : Fact)
      → Stable o fact
      → Holds o d
      → fact d
      → Safe o fact t.program
      → Fit d os ts
      → Fit d (o ∷ os) (t ∷ ts)

abbrev pub Pairs : List (Option Uuid) → Type 0
Pairs [] = Unit
Pairs (o ∷ os) = All (Apart o) os × Pairs os

pub Apart-sym : (a b : Option Uuid) → Apart a b → Apart b a
Apart-sym none none h = tt
Apart-sym none (some b) h = tt
Apart-sym (some a) none h = tt
Apart-sym (some a) (some b) h = ground (arith, h)

pub Holds-Change : (o : Option Uuid) (d d' : Db) → Change o d d' → Holds o d → Holds o d'
Holds-Change none d d' c h = tt
Holds-Change (some a) d d' c (t, h) = (t, c.own ∙ h)

pub Fit-Holds :
    {d : Db} {os : List (Option Uuid)} {ts : List Thread} → Fit d os ts → All (λ o. Holds o d) os
Fit-Holds nobody = tt
Fit-Holds (also o t fact s h k safe fit) = (h, Fit-Holds fit)

-- Programs that are not moved still fit.
pub Fit-Change :
    {d : Db} {os : List (Option Uuid)} {ts : List Thread} (d' : Db)
    → Fit d os ts
    → All (λ o. Change o d d') os
    → Fit d' os ts
Fit-Change d' nobody c = nobody
Fit-Change {d} d' (also o t fact s h k safe fit) (c, cs) =
    also o t fact s (Holds-Change o d d' c h) (s d d' c k) safe (Fit-Change d' fit cs)
