-- ===== src/Concurrent/Ending.antt =====
-- Every operation of `Service` (khazina/internal/payment/service.go) ends after a few calls of the
-- database, the clock and the gateway, whatever they answer and whatever runs at the same time.
pub mod Bounds
use mathlib.Core.Path.{subst}
use saftaja.Prelude.{
  ℕ, zero, suc, ◌≤◌, ◌-◌, Bool, true, false, ◌≡◌, List, [], ◌∷◌, ◌==◌, count_by, Option, none, some,
  arith, Bool-cases, inl, inr, if◌then◌else◌, ==-eq, refl, sym,
}
use saftaja.Env.{Env}
use saftaja.Errors.{Error}
use saftaja.Exec.{World, Exec, Result, ok, err, panic}
use saftaja.Payment.Types.{Service}
use saftaja.Concurrent.Program.{
  Program, ends, calls, call, returns, rename_error, catch, check, ◌>>=◌,
}
use saftaja.Concurrent.Pool.{Thread, advance, turn, interleave}

-- A program makes at most `n` calls.
abbrev pub Within : {A : Type 0} → ℕ → Program A → Type 0
Within n (ends r) = Unit
Within zero (calls m next) = ⊥
Within (suc n) (calls {X} m next) = (r : Result X) → Within n (next r)

-- The program at this place, if there is one, makes at most `n` more calls.
abbrev pub WithinAt : ℕ → ℕ → List Thread → Type 0
WithinAt n i [] = Unit
WithinAt n zero (t ∷ ts) = Within n t.program
WithinAt n (suc i) (t ∷ ts) = WithinAt n i ts

abbrev pub has_ended : {A : Type 0} → Program A → Bool
has_ended (ends r) = true
has_ended (calls m next) = false

-- The program at this place has ended; where there is none, nothing is left to do.
abbrev pub ended_at : ℕ → List Thread → Bool
ended_at i [] = true
ended_at zero (t ∷ ts) = has_ended t.program
ended_at (suc i) (t ∷ ts) = ended_at i ts

abbrev less : ℕ → ℕ
less zero = zero
less (suc n) = n

advance-Within :
    {A : Type 0} (n : ℕ) (p : Program A) (w : World) → Within n p → Within (less n) (advance p w).0
unfolding advance
advance-Within n (ends r) w h = tt
advance-Within zero (calls m next) w h = absurd h
advance-Within (suc n) (calls m next) w h = h (m w).0

turn-Within_self :
    (n i : ℕ) (ts : List Thread) (w : World) → WithinAt n i ts → WithinAt (less n) i (turn i ts w).0
unfolding turn
turn-Within_self n i [] w h = tt
turn-Within_self n zero (t ∷ ts) w h = advance-Within n t.program w h
turn-Within_self n (suc i) (t ∷ ts) w h = turn-Within_self n i ts w h

turn-Within_other :
    (n i j : ℕ) (ts : List Thread) (w : World)
    → (j == i) ≡ false
    → WithinAt n i ts
    → WithinAt n i (turn j ts w).0
unfolding turn
turn-Within_other n i j [] w away h = tt
turn-Within_other n zero zero (t ∷ ts) w away h = cc
turn-Within_other n zero (suc j) (t ∷ ts) w away h = h
turn-Within_other n (suc i) zero (t ∷ ts) w away h = h
turn-Within_other n (suc i) (suc j) (t ∷ ts) w away h =
    turn-Within_other n i j ts w (ground (arith, away)) h

ended-of_Within : (i : ℕ) (ts : List Thread) → WithinAt 0 i ts → ended_at i ts ≡ true
ended-of_Within i [] h = refl
ended-of_Within zero (t ∷ ts) h = ended t.program h
  where
    ended : {A : Type 0} (p : Program A) → Within 0 p → has_ended p ≡ true
    ended (ends r) h = refl
    ended (calls m next) h = absurd h
ended-of_Within (suc i) (t ∷ ts) h = ended-of_Within i ts h

WithinAt-zero : (n i : ℕ) (ts : List Thread) → n ≤ 0 → WithinAt n i ts → WithinAt 0 i ts
WithinAt-zero zero i ts le h = h
WithinAt-zero (suc n) i ts le h = absurd (omega arith)

less_le :
    (n j i : ℕ) (js : List ℕ)
    → (j == i) ≡ true
    → n ≤ count_by (λ k. k == i) (j ∷ js)
    → less n ≤ count_by (λ k. k == i) js
less_le zero j i js own le = omega arith
less_le (suc n) j i js own le = ground (arith, own, le)

-- A program that makes at most `n` calls has ended after `n` turns of its own.
pub interleave-ended :
    (js : List ℕ) (n i : ℕ) (ts : List Thread) (w : World)
    → WithinAt n i ts
    → n ≤ count_by (λ j. j == i) js
    → ended_at i (interleave js ts w).0 ≡ true
unfolding interleave
interleave-ended [] n i ts w h le = ended-of_Within i ts (WithinAt-zero n i ts le h)
interleave-ended (j ∷ js) n i ts w h le = elim (Bool-cases (j == i)) [
  | inl own ↦
      let key : j ≡ i = ==-eq j i own in
      interleave-ended js (less n) i (turn j ts w).0 (turn j ts w).1
        (subst (λ k. WithinAt (less n) i (turn k ts w).0) (sym key) (turn-Within_self n i ts w h))
        (less_le n j i js own le)
  | inr other ↦
      interleave-ended js n i (turn j ts w).0 (turn j ts w).1 (turn-Within_other n i j ts w other h)
        (ground arith)
]

module _ {A X : Type 0} (n : ℕ) where
  pub step-Within :
      (g : Error → Error) (m : Exec X) (f : X → Program A)
      → ((a : X) → Within n (f a))
      → Within (suc n) (rename_error g (call m) >>= f)
  unfolding rename_error ◌>>=◌
  step-Within g m f k (ok a) = k a
  step-Within g m f k (err e) = tt
  step-Within g m f k panic = tt

  pub plain-Within :
      (m : Exec X) (f : X → Program A) → ((a : X) → Within n (f a)) → Within (suc n) (call m >>= f)
  unfolding ◌>>=◌
  plain-Within m f k (ok a) = k a
  plain-Within m f k (err e) = tt
  plain-Within m f k panic = tt

  pub catch-Within :
      (m : Exec X) (f : Result X → Program A)
      → ((r : Result X) → Within n (f r))
      → Within (suc n) (catch (call m) >>= f)
  unfolding catch ◌>>=◌
  catch-Within m f k (ok a) = k (ok a)
  catch-Within m f k (err e) = k (err e)
  catch-Within m f k panic = tt

  pub ends-Within :
      (g : Error → Error) (r : Result X) (f : X → Program A)
      → ((a : X) → Within n (f a))
      → Within n (rename_error g (ends r) >>= f)
  unfolding rename_error ◌>>=◌
  ends-Within g (ok a) f k = k a
  ends-Within g (err e) f k = tt
  ends-Within g panic f k = tt

pub plain_ends-Within :
    {A X : Type 0} (n : ℕ) (r : Result X) (f : X → Program A)
    → ((a : X) → Within n (f a))
    → Within n (ends r >>= f)
unfolding ◌>>=◌
plain_ends-Within n (ok a) f k = k a
plain_ends-Within n (err e) f k = tt
plain_ends-Within n panic f k = tt

pub check-Within :
    {A : Type 0} (n : ℕ) (b : Bool) (e : Error) (f : Unit {0} → Program A)
    → Within n (f tt)
    → Within n (check b e >>= f)
unfolding ◌>>=◌
check-Within n true e f k = k
check-Within n false e f k = tt

pub more-Within : {A : Type 0} (n : ℕ) (p : Program A) → Within n p → Within (suc n) p
more-Within n (ends r) h = tt
more-Within zero (calls m next) h = absurd h
more-Within (suc n) (calls m next) h = λ r. more-Within n (next r) (h r)

-- More calls than it makes.
abbrev pub grow : ℕ → ℕ → ℕ
grow zero n = n
grow (suc k) n = suc (grow k n)

pub grow-Within : {A : Type 0} (k n : ℕ) (p : Program A) → Within n p → Within (grow k n) p
grow-Within zero n p h = h
grow-Within (suc k) n p h = more-Within (grow k n) p (grow-Within k n p h)
