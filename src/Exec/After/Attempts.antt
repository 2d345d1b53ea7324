-- ===== src/Exec/After/Attempts.antt =====
-- A call whose outcome the caller looks at (`a, err := m()`).
use saftaja.Prelude.{◌≡◌, refl}
use saftaja.Env.{Env, DbOutcome}
use saftaja.Errors.{Error}
use saftaja.Store.Rows.{Db}
use saftaja.Exec.{
  State, World, Result, ok, err, panic, Exec, attempt, Sql, gives, rejects, tick, read, answer,
  caught, connection_lost,
}
use saftaja.Exec.After.Outcome.{After, Runs, done, panicked}

module _ {E : State → Type 0} where
  module _ {A : Type 0} {K : Result A → World → Type 0} where
    attempt_answer :
        (o : DbOutcome) (r : Sql A) (w : World)
        → ((a : A) → r ≡ gives a → K (ok a) w)
        → ((e : Error) → K (err e) w)
        → After E K (caught (answer o r)) w
    attempt_answer DbOutcome.answered (gives a) w k l = done (ok a) w (k a refl)
    attempt_answer DbOutcome.answered (rejects e) w k l = done (err e) w (l e)
    attempt_answer DbOutcome.refused r w k l = done _ w (l connection_lost)
    attempt_answer DbOutcome.unheard r w k l = done _ w (l connection_lost)

    -- A query whose error the caller looks at.
    pub attempt-read-After :
        (env : Env) (q : Db → Sql A) (w : World)
        → ((a : A) → q w.db ≡ gives a → K (ok a) (tick w))
        → ((e : Error) → K (err e) (tick w))
        → Runs E K (attempt (read env q) w)
    unfolding attempt read
    attempt-read-After env q w k l = attempt_answer (env.db_outcome w.step) (q w.db) (tick w) k l

  module _ {A : Type 0} {K : Result A → World → Type 0} where
    attempt_cases :
        (o : DbOutcome) (r : Sql A) (w : World)
        → ((a : A) → r ≡ gives a → K (ok a) w)
        → ((e : Error) → r ≡ rejects e → K (err e) w)
        → K (err connection_lost) w
        → After E K (caught (answer o r)) w
    attempt_cases DbOutcome.answered (gives a) w k l c = done (ok a) w (k a refl)
    attempt_cases DbOutcome.answered (rejects e) w k l c = done (err e) w (l e refl)
    attempt_cases DbOutcome.refused r w k l c = done _ w c
    attempt_cases DbOutcome.unheard r w k l c = done _ w c

    -- The same, with what each outcome says of the query.
    pub attempt-read-cases :
        (env : Env) (q : Db → Sql A) (w : World)
        → ((a : A) → q w.db ≡ gives a → K (ok a) (tick w))
        → ((e : Error) → q w.db ≡ rejects e → K (err e) (tick w))
        → K (err connection_lost) (tick w)
        → Runs E K (attempt (read env q) w)
    unfolding attempt read
    attempt-read-cases env q w k l c = attempt_cases (env.db_outcome w.step) (q w.db) (tick w) k l c

module _ {A : Type 0} {E : State → Type 0} {K : Result A → World → Type 0} where
  caught-After :
      (r : Result A) (v : World)
      → E v.state
      → ((x : Result A) → r ≡ x → K x v)
      → After E K (caught r) v
  caught-After (ok a) v h k = done (ok a) v (k (ok a) refl)
  caught-After (err e) v h k = done (err e) v (k (err e) refl)
  caught-After panic v h k = panicked v h

  -- A call whose outcome the caller looks at.
  pub attempt-After :
      (m : Exec A) (w : World)
      → E (m w).1.state
      → ((x : Result A) → (m w).0 ≡ x → K x (m w).1)
      → Runs E K (attempt m w)
  unfolding attempt
  attempt-After m w h k = caught-After (m w).0 (m w).1 h k

  caught-total :
      (r : Result A) (v : World)
      → (r ≡ panic → ⊥)
      → ((x : Result A) → K x v)
      → After E K (caught r) v
  caught-total (ok a) v n k = done (ok a) v (k (ok a))
  caught-total (err e) v n k = done (err e) v (k (err e))
  caught-total panic v n k = absurd (n refl)

  -- A call that does not panic, and whose outcome the caller looks at.
  pub attempt-total :
      (m : Exec A) (w : World)
      → ((m w).0 ≡ panic → ⊥)
      → ((x : Result A) → K x (m w).1)
      → Runs E K (attempt m w)
  unfolding attempt
  attempt-total m w n k = caught-total (m w).0 (m w).1 n k
