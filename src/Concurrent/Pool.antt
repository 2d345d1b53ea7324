-- ===== src/Concurrent/Pool.antt =====
-- Programs that run at the same time (the goroutines of the server of khazina/main.go): at each turn
-- one of them makes its next call.
use saftaja.Prelude.{ℕ, zero, suc, List, [], ◌∷◌}
use saftaja.Exec.{World}
use saftaja.Concurrent.Program.{Program, ends, calls}

pub record Thread : Type 1 where
  pub Answer : Type 0
  pub program : Program Answer

module _ {A : Type 0} where
  -- The next call of a program, if it has not ended.
  unfoldable pub advance : Program A → World → Program A × World
  advance (ends r) w = (ends r, w)
  advance (calls m next) w = let (r, w') = m w in (next r, w')

abbrev pub with_program : (t : Thread) → Program t.Answer → Thread
with_program t p = record { Answer = t.Answer; program = p }

-- A turn of the program at this place.
unfoldable pub turn : ℕ → List Thread → World → List Thread × World
turn n [] w = ([], w)
turn zero (t ∷ ts) w = let (p, w') = advance t.program w in (with_program t p ∷ ts, w')
turn (suc n) (t ∷ ts) w = let (ts', w') = turn n ts w in (t ∷ ts', w')

-- The turns in this order.
unfoldable pub interleave : List ℕ → List Thread → World → List Thread × World
interleave [] ts w = (ts, w)
interleave (n ∷ ns) ts w = let (ts', w') = turn n ts w in interleave ns ts' w'

-- The programs of these.
abbrev pub pool : {Op : Type 0} → (Op → Thread) → List Op → List Thread
pool thread [] = []
pool thread (op ∷ ops) = thread op ∷ pool thread ops
