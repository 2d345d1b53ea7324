-- ===== src/Concurrent/Program/Alone.antt =====
-- A program that runs alone does what the model of one call says.
use mathlib.Core.Path.{fun_ext}
use saftaja.Prelude.{◌≡◌, refl, Bool}
use saftaja.Errors.{Error}
use saftaja.Exec
use saftaja.Exec.{Result, ok, err, panic, Exec, World}
use saftaja.Concurrent.Program.{
  Program, ends, calls, run, call, returns, rename_error, catch, check, ◌>>=◌,
}

module _ {A : Type 0} where
  pub run-call : (m : Exec A) → run (call m) ≡ m
  unfolding run
  run-call m = refl

  rename_error-at :
      (g : Error → Error) (p : Program A) (w : World)
      → run (rename_error g p) w ≡ Exec.on_error g (run p) w
  unfolding run rename_error Exec.on_error
  rename_error-at g (ends r) w = refl
  rename_error-at g (calls m next) w = rename_error-at g (next (m w).0) (m w).1

  pub run-rename_error :
      (g : Error → Error) (p : Program A) → run (rename_error g p) ≡ Exec.on_error g (run p)
  run-rename_error g p = fun_ext (rename_error-at g p)

  catch-at : (p : Program A) (w : World) → run (catch p) w ≡ Exec.attempt (run p) w
  unfolding run catch Exec.attempt
  catch-at (ends r) w = refl
  catch-at (calls m next) w = catch-at (next (m w).0) (m w).1

  pub run-catch : (p : Program A) → run (catch p) ≡ Exec.attempt (run p)
  run-catch p = fun_ext (catch-at p)

  pub run-returns : (a : A) → run (returns a) ≡ Exec.pure a
  unfolding run Exec.pure
  run-returns a = refl

  pub run-ends : (r : Result A) → run (ends r) ≡ Exec.lift r
  unfolding run Exec.lift
  run-ends r = refl

pub run-check : (b : Bool) (e : Error) → run (check b e) ≡ Exec.guard b e
unfolding run Exec.guard
run-check b e = refl

module _ {A B : Type 0} where
  bind-at :
      (p : Program A) (f : A → Program B) (w : World)
      → run (p >>= f) w ≡ Exec.◌>>=◌ (run p) (λ a. run (f a)) w
  unfolding run ◌>>=◌ Exec.◌>>=◌
  bind-at (ends (ok a)) f w = refl
  bind-at (ends (err e)) f w = refl
  bind-at (ends panic) f w = refl
  bind-at (calls m next) f w = bind-at (next (m w).0) f (m w).1

  pub run-bind :
      (p : Program A) (f : A → Program B) → run (p >>= f) ≡ Exec.◌>>=◌ (run p) (λ a. run (f a))
  run-bind p f = fun_ext (bind-at p f)

pub ruleset alone = (run-call, run-rename_error, run-catch, run-bind)
