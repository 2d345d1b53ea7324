-- ===== src/Exec.antt =====
-- A call of the program: it changes the database and the log of requests to the gateway, and ends
-- in a result, an error, or a panic. What was written before an error stays written. A statement
-- of SQL is one call of the database; `pool.Begin` to `Commit` is `transaction`.
pub mod After
use saftaja.Prelude.{ℕ, suc, Bool, Option, List, ◌∷◌, if◌then◌else◌}
use saftaja.Domain.{Uuid, Time, Bytes}
use saftaja.Env.{Env, DbOutcome, HttpRequest, HttpResponse}
use saftaja.Errors.{Error}
use saftaja.Store.Rows.{Db}

-- `sent` lists the requests to the gateway, the newest first.
pub record State : Type 0 where
  pub db : Db
  pub sent : List HttpRequest

-- `step` numbers the calls that leave the program.
pub record World : Type 0 where
  pub state : State
  pub open state use *
  pub step : ℕ

pub data Result (A : Type 0) : Type 0 where
  ok : A → Result A
  err : Error → Result A
  panic : Result A

abbrev pub Exec : Type 0 → Type 0
Exec A = World → Result A × World

module _ {A : Type 0} where
  unfoldable pub pure : A → Exec A
  pure a w = (ok a, w)

  unfoldable pub raise : Error → Exec A
  raise e w = (err e, w)

  -- A nil pointer is dereferenced.
  unfoldable pub crash : Exec A
  crash w = (panic, w)

  unfoldable pub lift : Result A → Exec A
  lift r w = (r, w)

  abbrev pub map_error : (Error → Error) → Result A → Result A
  map_error f (ok a) = ok a
  map_error f (err e) = err (f e)
  map_error f panic = panic

  -- `if err != nil { return nil, f(err) }`
  unfoldable pub on_error : (Error → Error) → Exec A → Exec A
  on_error f m w = let (r, w') = m w in (map_error f r, w')

  abbrev pub caught : Result A → Result (Result A)
  caught (ok a) = ok (ok a)
  caught (err e) = ok (err e)
  caught panic = panic

  -- `a, err := m()`, where the caller looks at both.
  unfoldable pub attempt : Exec A → Exec (Result A)
  attempt m w = let (r, w') = m w in (caught r, w')

module _ {A B : Type 0} where
  abbrev pub continue : Result A → (A → Exec B) → Exec B
  continue (ok a) f w = f a w
  continue (err e) f w = (err e, w)
  continue panic f w = (panic, w)

  infixl 5 ◌>>=◌ ◌>>◌
  unfoldable pub ◌>>=◌ : Exec A → (A → Exec B) → Exec B
  ◌>>=◌ m f w = let (r, w') = m w in continue r f w'

  abbrev pub ◌>>◌ : Exec A → Exec B → Exec B
  m >> n = m >>= λ _. n

unfoldable pub guard : Bool → Error → Exec (Unit {0})
guard b e w = (if b then ok tt else err e, w)

-- What a statement of SQL gives: rows, or the refusal of the server.
pub data Sql (A : Type 0) : Type 0 where
  gives : A → Sql A
  rejects : Error → Sql A

-- What the server adds to a statement: `NOW()` and `gen_random_uuid()`.
pub record Stamp : Type 0 where
  pub time : Time
  pub uuid : Uuid

abbrev pub tick : World → World
tick w = record w { step = suc w.step }

abbrev pub with_db : Db → World → World
with_db d w = record w { state = record w.state { db = d } }

abbrev pub connection_lost : Error
connection_lost = Error.db_failure "connection"

abbrev pub commit_failed : Error
commit_failed = Error.wrapped "failed to commit db transaction" connection_lost

module _ {A : Type 0} where
  abbrev pub sql_result : Sql A → Result A
  sql_result (gives a) = ok a
  sql_result (rejects e) = err e

  abbrev answer : DbOutcome → Sql A → Result A
  answer DbOutcome.answered r = sql_result r
  answer _ r = err connection_lost

  -- `SELECT`
  unfoldable pub read : Env → (Db → Sql A) → Exec A
  read env q w = (answer (env.db_outcome w.step) (q w.db), tick w)

  abbrev pub settle : DbOutcome → Sql (A × Db) → World → Result A × World
  settle DbOutcome.answered (gives (a, d)) w = (ok a, with_db d w)
  settle DbOutcome.answered (rejects e) w = (err e, w)
  settle DbOutcome.refused _ w = (err connection_lost, w)
  settle DbOutcome.unheard (gives (a, d)) w = (err connection_lost, with_db d w)
  settle DbOutcome.unheard (rejects e) w = (err connection_lost, w)

  -- `INSERT` and `UPDATE`
  unfoldable pub write : Env → (Stamp → Db → Sql (A × Db)) → Exec A
  write env op w =
      settle (env.db_outcome w.step)
        (op (record { time = env.now w.step; uuid = env.new_uuid w.step }) w.db) (tick w)

  -- A commit whose answer is lost has taken place.
  abbrev commit : DbOutcome → Db → A → World → Result A × World
  commit DbOutcome.answered before a w = (ok a, w)
  commit DbOutcome.refused before a w = (err commit_failed, with_db before w)
  commit DbOutcome.unheard before a w = (err commit_failed, w)

  abbrev commit_or_rollback : Env → Db → Result A × World → Result A × World
  commit_or_rollback env before (ok a, w) = commit (env.db_outcome w.step) before a (tick w)
  commit_or_rollback env before (err e, w) = (err e, with_db before w)
  commit_or_rollback env before (panic, w) = (panic, with_db before w)

-- `pool.Begin`, `defer Rollback`, the body, `Commit`: a body that does not end well is rolled back.
unfoldable pub transaction : {A : Type 0} → Env → Exec A → Exec A
transaction env body w =
    (do
      on_error (Error.wrapped "failed to begin db transaction") (read env (λ _. gives tt))
      λ w'. commit_or_rollback env w'.db (body w'))
      w

-- `http.Client.Do`: the request is on its way before anything can fail.
unfoldable pub http_do : Env → HttpRequest → Exec (Option HttpResponse)
http_do env r w =
    (ok (env.http_do w.step r), record (tick w) { state = record w.state { sent = r ∷ w.sent } })

-- `time.Now`
unfoldable pub now : Env → Exec Time
now env w = (ok (env.now w.step), tick w)

-- `uuid.New`
unfoldable pub new_uuid : Env → Exec Uuid
new_uuid env w = (ok (env.new_uuid w.step), tick w)

-- `io.ReadFull(rand.Reader, nonce)`
unfoldable pub read_nonce : Env → Exec (Option Bytes)
read_nonce env w = (ok (env.nonce w.step), tick w)
