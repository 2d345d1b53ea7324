-- ===== src/Concurrent/Http/Reading.antt =====
-- Programs that only read, before others.
use saftaja.Prelude.{ℕ, zero, suc, none}
use saftaja.Exec.{Result, ok, err, panic}
use saftaja.Concurrent.Program.{Program, ends, calls, ◌>>=◌}
use saftaja.Concurrent.Safe.{Safe}
use saftaja.Concurrent.Rules.{nothing_known, Quiet, quiet_Runs, call-Safe}
use saftaja.Concurrent.Ending.{Within, grow, grow-Within}
use saftaja.Concurrent.Http.Handlers.Safety.{Sound}

-- None of its calls changes a table.
abbrev pub Reads : {A : Type 0} → Program A → Type 0
Reads (ends r) = Unit
Reads (calls {X} m next) = Quiet m × ((r : Result X) → Reads (next r))

module _ {A B : Type 0} (f : A → Program B) where
  bind-Safe :
      (p : Program A)
      → Reads p
      → ((a : A) → Safe none nothing_known (f a))
      → Safe none nothing_known (p >>= f)
  unfolding ◌>>=◌
  bind-Safe (ends (ok a)) h k = k a
  bind-Safe (ends (err e)) h k = tt
  bind-Safe (ends panic) h k = tt
  bind-Safe (calls m next) (quiet, h) k =
      call-Safe none nothing_known nothing_known (λ _. none) (λ _. nothing_known) m
        (λ r. next r >>= f) (quiet_Runs none nothing_known m quiet λ d d' c x. x) (λ a d d' c x. x)
        (λ d d' c x. x) (λ a. bind-Safe (next (ok a)) (h (ok a)) k)
        (λ e. bind-Safe (next (err e)) (h (err e)) k) (bind-Safe (next panic) (h panic) k)

  bind-Within :
      (m n : ℕ) (p : Program A)
      → Within m p
      → ((a : A) → Within n (f a))
      → Within (grow m n) (p >>= f)
  unfolding ◌>>=◌
  bind-Within m n (ends (ok a)) h k = grow-Within m n (f a) (k a)
  bind-Within m n (ends (err e)) h k = tt
  bind-Within m n (ends panic) h k = tt
  bind-Within zero n (calls x next) h k = absurd h
  bind-Within (suc m) n (calls x next) h k = λ r. bind-Within m n (next r) (h r) k

  pub bind-Sound :
      (m n : ℕ) (p : Program A)
      → Reads p
      → Within m p
      → ((a : A) → Sound n (f a))
      → Sound (grow m n) (p >>= f)
  bind-Sound m n p h h' k = record {
    safe = bind-Safe p h λ a. (k a).safe;
    within = bind-Within m n p h' λ a. (k a).within;
  }
