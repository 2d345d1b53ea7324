-- ===== src/Concurrent/Rules.antt =====
-- Proving a program safe, one call at a time.
use saftaja.Prelude.{Bool, true, false, ◌≡◌, refl, Option}
use saftaja.Domain.{Uuid}
use saftaja.Env.{Env}
use saftaja.Errors.{Error}
use saftaja.Exec.{State, World, Result, ok, err, panic, Exec, map_error, caught, Sql, gives, read}
use saftaja.Exec.After.{Runs, After, done, failed, panicked, read-After, Runs-weaken}
use saftaja.Store.Rows.{Db}
use saftaja.Ledger.Inv.{Inv}
use saftaja.Concurrent.Program.{Program, ends, calls, call, rename_error, catch, check, ◌>>=◌}
use saftaja.Concurrent.Change.{Holds, Move, still}
use saftaja.Concurrent.Safe.{Fact, Stable, Safe, Onward}

-- What a call leaves behind where it fails, and where it gives a result.
abbrev pub Left : Option Uuid → Fact → Db → State → Type 0
Left o left d s = Move o o d s.db × Holds o s.db × left s.db

abbrev pub Gave :
    {X : Type 0} → Option Uuid → (X → Option Uuid) → (X → Fact) → Db → X → World → Type 0
Gave o own known d a v = Move o (own a) d v.db × Holds (own a) v.db × known a v.db

module _ {A X : Type 0} (o : Option Uuid) (fact left : Fact) (own : X → Option Uuid)
    (known : X → Fact) where
  pub call-Safe :
      (m : Exec X) (next : Result X → Program A)
      → ((w : World)
          → Inv w.db
          → Holds o w.db
          → fact w.db
          → Runs (Left o left w.db) (Gave o own known w.db) (m w))
      → ((a : X) → Stable (own a) (known a))
      → Stable o left
      → ((a : X) → Safe (own a) (known a) (next (ok a)))
      → ((e : Error) → Safe o left (next (err e)))
      → Safe o left (next panic)
      → Safe o fact (calls m next)
  call-Safe m next h s t k f c w inv held p = onward (h w inv held p)
    where
      onward :
          {r : Result X} {v : World}
          → After (Left o left w.db) (Gave o own known w.db) r v
          → Onward o w.db v.db (λ own' known'. Safe own' known' (next r))
      onward (done a v (move, there, now)) = record {
        own = own a;
        fact = known a;
        move = move;
        held = there;
        known = now;
        stable = s a;
        rest = k a;
      }
      onward (failed e v (move, there, now)) = record {
        own = o;
        fact = left;
        move = move;
        held = there;
        known = now;
        stable = t;
        rest = f e;
      }
      onward (panicked v (move, there, now)) = record {
        own = o;
        fact = left;
        move = move;
        held = there;
        known = now;
        stable = t;
        rest = c;
      }

abbrev pub nothing_known : Fact
nothing_known d = Unit

module _ {A X : Type 0} (o : Option Uuid) (fact : Fact) where
  -- A call whose error ends the program.
  pub step-Safe :
      (own : X → Option Uuid) (known : X → Fact) (g : Error → Error) (m : Exec X)
      (f : X → Program A)
      → ((w : World)
          → Inv w.db
          → Holds o w.db
          → fact w.db
          → Runs (Left o nothing_known w.db) (Gave o own known w.db) (m w))
      → ((a : X) → Stable (own a) (known a))
      → ((a : X) → Safe (own a) (known a) (f a))
      → Safe o fact (rename_error g (call m) >>= f)
  unfolding rename_error ◌>>=◌
  step-Safe own known g m f h s k =
      call-Safe o fact nothing_known own known m (λ r. ends (map_error g r) >>= f) h s
        (λ d d' c x. x) k (λ e. tt) tt

  -- A query: what it has read is known.
  pub read-Safe :
      (known : X → Fact) (g : Error → Error) (env : Env) (q : Db → Sql X) (f : X → Program A)
      → ((d : Db) → fact d → (a : X) → q d ≡ gives a → known a d)
      → ((a : X) → Stable o (known a))
      → ((a : X) → Safe o (known a) (f a))
      → Safe o fact (rename_error g (call (read env q)) >>= f)
  read-Safe known g env q f h s k =
      step-Safe (λ a. o) known g (read env q) f
        (λ w inv held p.
          read-After env q w (still o w.db inv, held, tt)
            λ a row. (still o w.db inv, held, h w.db p a row))
        s k

  -- The same, where its error is passed on as it is.
  pub plain_read-Safe :
      (known : X → Fact) (env : Env) (q : Db → Sql X) (f : X → Program A)
      → ((d : Db) → fact d → (a : X) → q d ≡ gives a → known a d)
      → ((a : X) → Stable o (known a))
      → ((a : X) → Safe o (known a) (f a))
      → Safe o fact (call (read env q) >>= f)
  unfolding ◌>>=◌
  plain_read-Safe known env q f h s k =
      call-Safe o fact nothing_known (λ a. o) known (read env q) (λ r. ends r >>= f)
        (λ w inv held p.
          read-After env q w (still o w.db inv, held, tt)
            λ a row. (still o w.db inv, held, h w.db p a row))
        s (λ d d' c x. x) k (λ e. tt) tt

  -- A query of which both the rows and the error are looked at.
  pub catch-Safe :
      (env : Env) (q : Db → Sql X) (f : Result X → Program A)
      → Stable o fact
      → ((r : Result X) → Safe o fact (f r))
      → Safe o fact (catch (call (read env q)) >>= f)
  unfolding catch ◌>>=◌
  catch-Safe env q f s k =
      call-Safe o fact fact (λ a. o) (λ a. fact) (read env q) (λ r. ends (caught r) >>= f)
        (λ w inv held p.
          read-After env q w (still o w.db inv, held, p) λ a row. (still o w.db inv, held, p))
        (λ a. s) s (λ a. k (ok a)) (λ e. k (err e)) tt

-- A call that changes no table.
abbrev pub Quiet : {X : Type 0} → Exec X → Type 0
Quiet m = (w : World) → Runs (λ s. s.db ≡ w.db) (λ _ v. v.db ≡ w.db) (m w)

pub read-Quiet : {X : Type 0} (env : Env) (q : Db → Sql X) → Quiet (read env q)
read-Quiet env q w = read-After env q w refl λ a row. refl

still-Holds :
    (o : Option Uuid) (d d' : Db) → Inv d → Holds o d → d' ≡ d → Move o o d d' × Holds o d'
still-Holds o d d' inv held e = rw e (still o d inv, held)

module _ {X : Type 0} (o : Option Uuid) (fact : Fact) (m : Exec X) (quiet : Quiet m)
    (stable : Stable o fact) where
  pub quiet_Runs :
      (w : World)
      → Inv w.db
      → Holds o w.db
      → fact w.db
      → Runs (Left o (λ _. Unit) w.db) (Gave o (λ (_ : X). o) (λ _. fact) w.db) (m w)
  quiet_Runs w inv held p =
      Runs-weaken
        (λ s e. let (move, there) = still-Holds o w.db s.db inv held e in (move, there, tt))
        (λ a v e. let (move, there) = still-Holds o w.db v.db inv held e in (move, there, rw e p))
        (quiet w)

  pub quiet-Safe :
      {A : Type 0} (f : X → Program A) → ((a : X) → Safe o fact (f a)) → Safe o fact (call m >>= f)
  unfolding ◌>>=◌
  quiet-Safe f k =
      call-Safe o fact nothing_known (λ a. o) (λ a. fact) m (λ r. ends r >>= f) quiet_Runs
        (λ a. stable) (λ d d' c x. x) k (λ e. tt) tt

  pub quiet_renamed-Safe :
      {A : Type 0} (g : Error → Error) (f : X → Program A)
      → ((a : X) → Safe o fact (f a))
      → Safe o fact (rename_error g (call m) >>= f)
  quiet_renamed-Safe g f k = step-Safe o fact (λ a. o) (λ a. fact) g m f quiet_Runs (λ a. stable) k

module _ {A : Type 0} (o : Option Uuid) (fact : Fact) where
  pub check-Safe :
      (b : Bool) (e : Error) (f : Unit {0} → Program A)
      → (b ≡ true → Safe o fact (f tt))
      → Safe o fact (check b e >>= f)
  unfolding ◌>>=◌
  check-Safe true e f k = k refl
  check-Safe false e f k = tt

  pub ends-Safe :
      {X : Type 0} (r : Result X) (g : Error → Error) (f : X → Program A)
      → ((a : X) → Safe o fact (f a))
      → Safe o fact (rename_error g (ends r) >>= f)
  unfolding rename_error ◌>>=◌
  ends-Safe (ok a) g f k = k a
  ends-Safe (err e) g f k = tt
  ends-Safe panic g f k = tt

  pub plain_ends-Safe :
      {X : Type 0} (r : Result X) (f : X → Program A)
      → ((a : X) → Safe o fact (f a))
      → Safe o fact (ends r >>= f)
  unfolding ◌>>=◌
  plain_ends-Safe (ok a) f k = k a
  plain_ends-Safe (err e) f k = tt
  plain_ends-Safe panic f k = tt
