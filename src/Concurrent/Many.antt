-- ===== src/Concurrent/Many.antt =====
-- Any number of programs of one kind, such as the operations of a service or the requests to a
-- server, that run at the same time.
use saftaja.Prelude.{ℕ, zero, suc, ◌≤◌, true, ◌≡◌, none, Option, List, [], ◌∷◌, All, ◌==◌, count_by}
use saftaja.Domain.{Uuid}
use saftaja.Exec.{World}
use saftaja.Store.Rows.{Db}
use saftaja.Ledger.Inv.{Inv}
use saftaja.Concurrent.Pool.{Thread, interleave, pool}
use saftaja.Concurrent.Change.{Apart}
use saftaja.Concurrent.Safe.{Safe, Fit, nobody, also, Pairs}
use saftaja.Concurrent.Rules.{nothing_known}
use saftaja.Concurrent.Turns.{interleave-Inv}
use saftaja.Concurrent.Ending.{Within, WithinAt, interleave-ended, ended_at}

module _ {Op : Type 0} (thread : Op → Thread) where
  abbrev owners : List Op → List (Option Uuid)
  owners [] = []
  owners (op ∷ ops) = none ∷ owners ops

  owners-Apart : (ops : List Op) → All (Apart none) (owners ops)
  owners-Apart [] = tt
  owners-Apart (op ∷ ops) = (tt, owners-Apart ops)

  owners-Pairs : (ops : List Op) → Pairs (owners ops)
  owners-Pairs [] = tt
  owners-Pairs (op ∷ ops) = (owners-Apart ops, owners-Pairs ops)

  module _ (safe : (op : Op) → Safe none nothing_known (thread op).program) where
    pool-Fit : (d : Db) (ops : List Op) → Fit d (owners ops) (pool thread ops)
    pool-Fit d [] = nobody
    pool-Fit d (op ∷ ops) =
        also none (thread op) nothing_known (λ d d' c x. x) tt tt (safe op) (pool-Fit d ops)

    pub pool-Inv :
        (turns : List ℕ) (ops : List Op) (w : World)
        → Inv w.db
        → Inv (interleave turns (pool thread ops) w).1.db
    pool-Inv turns ops w inv = interleave-Inv turns w inv (pool-Fit w.db ops) (owners-Pairs ops)

  module _ (n : ℕ) (within : (op : Op) → Within n (thread op).program) where
    pool-Within : (i : ℕ) (ops : List Op) → WithinAt n i (pool thread ops)
    pool-Within i [] = tt
    pool-Within zero (op ∷ ops) = within op
    pool-Within (suc i) (op ∷ ops) = pool-Within i ops

    pub pool-ended :
        (turns : List ℕ) (ops : List Op) (w : World) (i : ℕ)
        → n ≤ count_by (λ j. j == i) turns
        → ended_at i (interleave turns (pool thread ops) w).0 ≡ true
    pool-ended turns ops w i le =
        interleave-ended turns n i (pool thread ops) w (pool-Within i ops) le
