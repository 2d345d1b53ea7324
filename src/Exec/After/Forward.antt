-- ===== src/Exec/After/Forward.antt =====
-- Calls that end in a result, since the database answers and nothing refuses them.
use saftaja.Prelude.{ℕ, Bool, true, ◌≡◌}
use saftaja.Env.{Env, DbOutcome}
use saftaja.Errors.{Error}
use saftaja.Store.Rows.{Db}
use saftaja.Exec.{
  World, Result, ok, Exec, lift, guard, Sql, gives, Stamp, tick, with_db, read, write, transaction,
  commit_or_rollback, on_error, ◌>>=◌,
}
use saftaja.Exec.After.{Answers, After, done, failed, panicked}

module _ {A : Type 0} {K : A → World → Type 0} where
  pub read-Answers :
      (env : Env) (q : Db → Sql A) (w : World) (a : A)
      → env.db_outcome w.step ≡ DbOutcome.answered
      → q w.db ≡ gives a
      → K a (tick w)
      → Answers K (read env q w)
  unfolding read
  read-Answers env q w a o row k = rw (o, row) (done a (tick w) k)

  pub write-Answers :
      (env : Env) (op : Stamp → Db → Sql (A × Db)) (w : World) (a : A) (d : Db)
      → env.db_outcome w.step ≡ DbOutcome.answered
      → op (record { time = env.now w.step; uuid = env.new_uuid w.step }) w.db ≡ gives (a, d)
      → K a (with_db d (tick w))
      → Answers K (write env op w)
  unfolding write
  write-Answers env op w a d o row k = rw (o, row) (done a (with_db d (tick w)) k)

  pub lift-Answers : (r : Result A) (w : World) (a : A) → r ≡ ok a → K a w → Answers K (lift r w)
  unfolding lift
  lift-Answers r w a e k = rw e (done a w k)

  commits :
      (env : Env) (before : Db) {r : Result A} {v : World}
      → ((n : ℕ) → env.db_outcome n ≡ DbOutcome.answered)
      → After (λ _. ⊥) (λ a u. K a (tick u)) r v
      → Answers K (commit_or_rollback env before (r, v))
  commits env before o (done a v k) = rw (o v.step) (done a (tick v) k)
  commits env before o (failed e v h) = absurd h
  commits env before o (panicked v h) = absurd h

  pub transaction-Answers :
      (env : Env) (body : Exec A) (w : World)
      → ((n : ℕ) → env.db_outcome n ≡ DbOutcome.answered)
      → Answers (λ a u. K a (tick u)) (body (tick w))
      → Answers K (transaction env body w)
  unfolding transaction read on_error ◌>>=◌
  transaction-Answers env body w o h = rw (o w.step) (commits env w.db o h)

pub guard-Answers :
    {K : Unit {0} → World → Type 0} (b : Bool) (e : Error) (w : World)
    → b ≡ true
    → K tt w
    → Answers K (guard b e w)
unfolding guard
guard-Answers b e w h k = rw h (done tt w k)
