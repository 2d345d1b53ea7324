-- ===== src/Concurrent/Turns.antt =====
-- Turns of a pool of safe programs.
use saftaja.Prelude.{ℕ, zero, suc, Option, List, [], ◌∷◌, All, All-map}
use saftaja.Domain.{Uuid}
use saftaja.Exec.{World}
use saftaja.Store.Rows.{Db}
use saftaja.Ledger.Inv.{Inv}
use saftaja.Concurrent.Program.{Program, ends, calls}
use saftaja.Concurrent.Pool.{Thread, advance, turn, interleave}
use saftaja.Concurrent.Change.{Holds, Apart, Change, Change-refl}
use saftaja.Concurrent.Safe.{
  Fact, Stable, Safe, Fit, nobody, also, Pairs, Apart-sym, Holds-Change, Fit-Holds, Fit-Change,
}

-- What a turn of a pool leaves behind, and what it spares of the programs outside the pool.
record Moved (os : List (Option Uuid)) (d d' : Db) (ts : List Thread) : Type 1 where
  owners : List (Option Uuid)
  inv : Inv d'
  fit : Fit d' owners ts
  pairs : Pairs owners
  others : (k : Option Uuid) → All (Apart k) os → Holds k d → Change k d d'
  apart : (k : Option Uuid) → All (Apart k) os → Holds k d → All (Apart k) owners

-- Two conditions on every element make a third.
All-both :
    {A : Type 0} (P Q R : A → Type 0)
    → ((a : A) → P a → Q a → R a)
    → (xs : List A) → All P xs
    → All Q xs
    → All R xs
All-both P Q R f [] p q = tt
All-both P Q R f (x ∷ xs) (p, ps) (q, qs) = (f x p q, All-both P Q R f xs ps qs)

head-Moved :
    {A : Type 0} (p : Program A) (o : Option Uuid) (fact : Fact) (w : World)
    {os : List (Option Uuid)} {ts : List Thread}
    → Inv w.db
    → Stable o fact
    → Holds o w.db
    → fact w.db
    → Safe o fact p
    → Fit w.db os ts
    → All (Apart o) os
    → Pairs os
    → Moved (o ∷ os) w.db (advance p w).1.db (record { Answer = A; program = (advance p w).0 } ∷ ts)
unfolding advance
head-Moved (ends r) o fact w {os} inv s h k safe fit far pairs = record {
  owners = o ∷ os;
  inv = inv;
  fit = also o _ fact s h k safe fit;
  pairs = (far, pairs);
  others = λ a (f, fs) ha. Change-refl a w.db;
  apart = λ a f ha. f;
}
head-Moved (calls m next) o fact w {os} inv s h k safe fit far pairs =
    let on = safe w inv h k in
    let back : All (λ a. Apart a o) os = All-map _ _ (Apart-sym o) os far in
    let there = Fit-Holds fit in
    record {
      owners = on.own ∷ os;
      inv = on.move.inv;
      fit =
          also on.own _ on.fact on.stable on.held on.known on.rest
            (Fit-Change _ fit (All-both _ _ _ on.move.others os back there));
      pairs = (
        All-map (λ a. Apart a on.own) (Apart on.own) (λ a. Apart-sym a on.own) os
            (All-both _ _ _ on.move.apart os back there),
        pairs,
      );
      others = λ a (f, fs) ha. on.move.others a f ha;
      apart = λ a (f, fs) ha. (on.move.apart a f ha, fs);
    }

turn-Moved :
    (w : World)
    → Inv w.db
    → (n : ℕ) {os : List (Option Uuid)} {ts : List Thread} → Fit w.db os ts
    → Pairs os
    → Moved os w.db (turn n ts w).1.db (turn n ts w).0
unfolding turn
turn-Moved w inv n nobody pairs = record {
  owners = [];
  inv = inv;
  fit = nobody;
  pairs = tt;
  others = λ a f ha. Change-refl a w.db;
  apart = λ a f ha. tt;
}
turn-Moved w inv zero (also o t fact s h k safe fit) (far, pairs) =
    head-Moved t.program o fact w inv s h k safe fit far pairs
turn-Moved w inv (suc n) (also o t fact s h k safe fit) (far, pairs) =
    let moved = turn-Moved w inv n fit pairs in
    record {
      owners = o ∷ moved.owners;
      inv = moved.inv;
      fit =
          also o t fact s (Holds-Change o _ _ (moved.others o far h) h)
            (s _ _ (moved.others o far h) k) safe moved.fit;
      pairs = (moved.apart o far h, moved.pairs);
      others = λ a (f, fs) ha. moved.others a fs ha;
      apart = λ a (f, fs) ha. (f, moved.apart a fs ha);
    }

-- Any turns in any order.
pub interleave-Inv :
    (ns : List ℕ) (w : World) {os : List (Option Uuid)} {ts : List Thread}
    → Inv w.db
    → Fit w.db os ts
    → Pairs os
    → Inv (interleave ns ts w).1.db
unfolding interleave
interleave-Inv [] w inv fit pairs = inv
interleave-Inv (n ∷ ns) w {ts = ts} inv fit pairs =
    let moved = turn-Moved w inv n fit pairs in
    interleave-Inv ns (turn n ts w).1 moved.inv moved.fit moved.pairs
