-- ===== src/Exec/After.antt =====
-- Reasoning about a call, one step at a time: `Runs E K` says of the outcome of a call that `K`
-- holds of its result and the world that it leaves, or that it ends in an error or a panic and `E`
-- holds of the state that it leaves. Each rule asks for what must hold after one step.
pub mod Outcome
pub mod Forward
pub mod Attempts
pub use Outcome.*
pub use Attempts.*
use mathlib.Core.Path.{subst}
use saftaja.Prelude.{Bool, true, false, Option, ◌≡◌, refl, ◌∷◌, if◌then◌else◌}
use saftaja.Env.{Env, DbOutcome, HttpRequest, HttpResponse}
use saftaja.Domain.{Uuid, Time}
use saftaja.Errors.{Error}
use saftaja.Store.Rows.{Db}
use saftaja.Exec.{
  State, World, Result, ok, err, panic, Exec, pure, raise, crash, lift, on_error, attempt, continue,
  map_error, ◌>>=◌, guard, Sql, gives, rejects, Stamp, tick, with_db, read, write, settle,
  transaction, http_do, now, new_uuid, answer, caught, commit, commit_or_rollback, commit_failed,
  connection_lost,
}

-- the state after a request to the gateway
abbrev pub after_sending : HttpRequest → State → State
after_sending r s = record s { sent = r ∷ s.sent }

module _ {E : State → Type 0} where
  module _ {A B : Type 0} {K : B → World → Type 0} where
    continue-After :
        (f : A → Exec B) {r : Result A} {w : World}
        → After E (λ a v. Runs E K (f a v)) r w
        → Runs E K (continue r f w)
    continue-After f (done a w k) = k
    continue-After f (failed e w h) = failed e w h
    continue-After f (panicked w h) = panicked w h

    pub bind-After :
        (m : Exec A) (f : A → Exec B) (w : World)
        → Runs E (λ a v. Runs E K (f a v)) (m w)
        → Runs E K ((m >>= f) w)
    unfolding ◌>>=◌
    bind-After m f w h = continue-After f h

  module _ {A : Type 0} {K : A → World → Type 0} where
    map_error-After :
        (g : Error → Error) {r : Result A} {w : World} → After E K r w → After E K (map_error g r) w
    map_error-After g (done a w k) = done a w k
    map_error-After g (failed e w h) = failed (g e) w h
    map_error-After g (panicked w h) = panicked w h

    pub on_error-After :
        (g : Error → Error) (m : Exec A) (w : World) → Runs E K (m w) → Runs E K (on_error g m w)
    unfolding on_error
    on_error-After g m w h = map_error-After g h

    pub pure-After : (a : A) (w : World) → K a w → Runs E K (pure a w)
    unfolding pure
    pure-After a w k = done a w k

    pub raise-After : (e : Error) (w : World) → E w.state → Runs E K (raise e w)
    unfolding raise
    raise-After e w h = failed e w h

    pub crash-After : (w : World) → E w.state → Runs E K (crash w)
    unfolding crash
    crash-After w h = panicked w h

    lifted : (r : Result A) (w : World) → E w.state → ((a : A) → r ≡ ok a → K a w) → After E K r w
    lifted (ok a) w h k = done a w (k a refl)
    lifted (err e) w h k = failed e w h
    lifted panic w h k = panicked w h

    pub lift-After :
        (r : Result A) (w : World) → E w.state → ((a : A) → r ≡ ok a → K a w) → Runs E K (lift r w)
    unfolding lift
    lift-After r w h k = lifted r w h k

    answer-After :
        (o : DbOutcome) (r : Sql A) (w : World)
        → E w.state
        → ((a : A) → r ≡ gives a → K a w)
        → After E K (answer o r) w
    answer-After DbOutcome.answered (gives a) w h k = done a w (k a refl)
    answer-After DbOutcome.answered (rejects e) w h k = failed e w h
    answer-After DbOutcome.refused r w h k = failed connection_lost w h
    answer-After DbOutcome.unheard r w h k = failed connection_lost w h

    -- `SELECT`: the state stays, and a row that comes back is the query's answer.
    pub read-After :
        (env : Env) (q : Db → Sql A) (w : World)
        → E w.state
        → ((a : A) → q w.db ≡ gives a → K a (tick w))
        → Runs E K (read env q w)
    unfolding read
    read-After env q w h k = answer-After (env.db_outcome w.step) (q w.db) (tick w) h k

    settle-After :
        (o : DbOutcome) (r : Sql (A × Db)) (w : World)
        → E w.state
        → ((a : A) (d : Db) → r ≡ gives (a, d) → E (with_db d w).state × K a (with_db d w))
        → Runs E K (settle o r w)
    settle-After DbOutcome.answered (gives (a, d)) w h k = done a (with_db d w) (k a d refl).1
    settle-After DbOutcome.answered (rejects e) w h k = failed e w h
    settle-After DbOutcome.refused (gives (a, d)) w h k = failed connection_lost w h
    settle-After DbOutcome.refused (rejects e) w h k = failed connection_lost w h
    settle-After DbOutcome.unheard (gives (a, d)) w h k =
        failed connection_lost (with_db d w) (k a d refl).0
    settle-After DbOutcome.unheard (rejects e) w h k = failed connection_lost w h

    -- `INSERT` and `UPDATE`: the statement is done, or nothing is.
    pub write-After :
        (env : Env) (op : Stamp → Db → Sql (A × Db)) (w : World)
        → E w.state
        → ((st : Stamp) (a : A) (d : Db)
            → op st w.db ≡ gives (a, d)
            → E (with_db d w).state × K a (with_db d (tick w)))
        → Runs E K (write env op w)
    unfolding write
    write-After env op w h k =
        let st : Stamp = record { time = env.now w.step; uuid = env.new_uuid w.step } in
        settle-After (env.db_outcome w.step) (op st w.db) (tick w) h (k st)

    commit-After :
        (o : DbOutcome) (before : Db) (a : A) (w : World)
        → K a w
        → E w.state
        → E (with_db before w).state
        → Runs E K (commit o before a w)
    commit-After DbOutcome.answered before a w k h b = done a w k
    commit-After DbOutcome.refused before a w k h b = failed commit_failed (with_db before w) b
    commit-After DbOutcome.unheard before a w k h b = failed commit_failed w h

    commit_or_rollback-After :
        (env : Env) (before : Db) {r : Result A} {w : World}
        → After
            (λ s. E (record s { db = before }))
            (λ a v. E v.state × E (with_db before v).state × K a (tick v))
            r
            w
        → Runs E K (commit_or_rollback env before (r, w))
    commit_or_rollback-After env before (done a w (h, b, k)) =
        commit-After (env.db_outcome w.step) before a (tick w) k h b
    commit_or_rollback-After env before (failed e w h) = failed e (with_db before w) h
    commit_or_rollback-After env before (panicked w h) = panicked (with_db before w) h

module _ {E : State → Type 0} {A : Type 0} {K : A → World → Type 0} where
  -- What the body of a transaction does is there after a commit, and gone otherwise.
  pub transaction-After :
      (env : Env) (body : Exec A) (w : World)
      → E w.state
      → Runs
          (λ s. E (record s { db = w.db }))
          (λ a v. E v.state × E (with_db w.db v).state × K a (tick v))
          (body (tick w))
      → Runs E K (transaction env body w)
  unfolding transaction
  transaction-After env body w h k =
      bind-After _ _ w
        (on_error-After _ _ w (read-After env _ w h λ _ _. commit_or_rollback-After env w.db k))

module _ {E : State → Type 0} where
  guard-After_at :
      {K : Unit {0} → World → Type 0} (b : Bool) (e : Error) (w : World)
      → E w.state
      → (b ≡ true → K tt w)
      → After E K (if b then ok tt else err e) w
  guard-After_at true e w h k = done tt w (k refl)
  guard-After_at false e w h k = failed e w h

  pub guard-After :
      {K : Unit {0} → World → Type 0} (b : Bool) (e : Error) (w : World)
      → E w.state
      → (b ≡ true → K tt w)
      → Runs E K (guard b e w)
  unfolding guard
  guard-After b e w h k = guard-After_at b e w h k

  pub http_do-After :
      {K : Option HttpResponse → World → Type 0} (env : Env) (r : HttpRequest) (w : World)
      → K (env.http_do w.step r) (record (tick w) { state = after_sending r w.state })
      → Runs E K (http_do env r w)
  unfolding http_do
  http_do-After env r w k = done _ _ k

  pub now-After :
      {K : Time → World → Type 0} (env : Env) (w : World)
      → K (env.now w.step) (tick w)
      → Runs E K (now env w)
  unfolding now
  now-After env w k = done _ _ k

  pub new_uuid-After :
      {K : Uuid → World → Type 0} (env : Env) (w : World)
      → K (env.new_uuid w.step) (tick w)
      → Runs E K (new_uuid env w)
  unfolding new_uuid
  new_uuid-After env w k = done _ _ k
