-- ===== src/Concurrent/Program.antt =====
-- A call of the service as a program: what it does between its calls of the database, the clock and
-- the gateway.
pub mod Alone
use saftaja.Prelude.{Bool, if◌then◌else◌}
use saftaja.Errors.{Error}
use saftaja.Exec.{Result, ok, err, panic, Exec, map_error, caught}

pub data Program (A : Type 0) : Type 1 where
  ends : Result A → Program A
  calls : {X : Type 0} → Exec X → (Result X → Program A) → Program A

-- The program alone.
unfoldable pub run : {A : Type 0} → Program A → Exec A
run (ends r) w = (r, w)
run (calls m next) w = let (r, w') = m w in run (next r) w'

module _ {A : Type 0} where
  abbrev pub call : Exec A → Program A
  call m = calls m ends

  abbrev pub returns : A → Program A
  returns a = ends (ok a)

  unfoldable pub rename_error : (Error → Error) → Program A → Program A
  rename_error g (ends r) = ends (map_error g r)
  rename_error g (calls m next) = calls m (λ x. rename_error g (next x))

  unfoldable pub catch : Program A → Program (Result A)
  catch (ends r) = ends (caught r)
  catch (calls m next) = calls m (λ x. catch (next x))

abbrev pub check : Bool → Error → Program (Unit {0})
check b e = ends (if b then ok tt else err e)

module _ {A B : Type 0} where
  abbrev go_on : Result A → (A → Program B) → Program B
  go_on (ok a) f = f a
  go_on (err e) f = ends (err e)
  go_on panic f = ends panic

  infixl 5 ◌>>=◌ ◌>>◌
  unfoldable pub ◌>>=◌ : Program A → (A → Program B) → Program B
  ends r >>= f = go_on r f
  calls m next >>= f = calls m (λ x. next x >>= f)

  abbrev pub ◌>>◌ : Program A → Program B → Program B
  p >> q = p >>= λ _. q
