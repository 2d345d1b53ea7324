-- ===== src/Web/Respond.antt =====
-- How a handler of khazina/internal/web/handlers.go or khazina/internal/admin/handlers.go makes a
-- call and answers with its result.
use saftaja.Prelude.{Option, none, some}
use saftaja.Errors.{Error}
use saftaja.Exec.{Result, ok, err, panic, Exec, pure, attempt, ◌>>=◌}
use saftaja.Web.Request.{Response}

-- A handler answers with what the operation gives; `next` makes the response of a result.
abbrev pub answered : {A : Type 0} → (A → Response) → (Error → Response) → Result A → Response
answered next failed (ok a) = next a
answered next failed (err e) = failed e
answered next failed panic = Response.plain 500

-- what cannot be read is answered at once
abbrev pub parsed : {A : Type 0} → Response → Option A → (A → Exec Response) → Exec Response
parsed bad none next = pure bad
parsed bad (some a) next = next a

module _ {A : Type 0} where
  abbrev pub respond : Exec A → (A → Response) → (Error → Response) → Exec Response
  respond call next failed = do result ← attempt call; pure (answered next failed result)
