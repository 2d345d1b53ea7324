-- ===== src/Exec/After/Outcome.antt =====
-- The outcome of a call, and what follows from a condition on it.
use mathlib.Core.Path.{subst}
use saftaja.Prelude.{◌≡◌, ap, refl}
use saftaja.Errors.{Error}
use saftaja.Exec.{State, World, Result, ok, err, panic}

pub data After {A : Type 0} (E : State → Type 0) (K : A → World → Type 0)
    : Result A → World → Type 0 where
  done : (a : A) (w : World) → K a w → After E K (ok a) w
  failed : (e : Error) (w : World) → E w.state → After E K (err e) w
  panicked : (w : World) → E w.state → After E K panic w

abbrev pub Runs : {A : Type 0} → (State → Type 0) → (A → World → Type 0) → Result A × World → Type 0
Runs E K r = After E K r.0 r.1

-- A call that ends in a state where `E` holds, however it ends.
pub Runs-final :
    {A : Type 0} {E : State → Type 0} {r : Result A} {w : World}
    → After E (λ _ v. E v.state) r w
    → E w.state
Runs-final (done a w k) = k
Runs-final (failed e w h) = h
Runs-final (panicked w h) = h

-- A weaker condition on the result.
pub Runs-map :
    {A : Type 0} {E : State → Type 0} {K L : A → World → Type 0} {r : Result A} {w : World}
    → ((a : A) (v : World) → K a v → L a v)
    → After E K r w
    → After E L r w
Runs-map f (done a w k) = done a w (f a w k)
Runs-map f (failed e w h) = failed e w h
Runs-map f (panicked w h) = panicked w h

-- What holds of a call that has ended in a result.
pub Runs-ok :
    {A : Type 0} {E : State → Type 0} {K : A → World → Type 0} {r : Result A} {w : World} {a : A}
    → After E K r w
    → r ≡ ok a
    → K a w
Runs-ok {K = K} {a = a} (done b w k) e = subst (λ x. K x w) (ok-injective e) k
  where
    ok-injective : ok b ≡ ok a → b ≡ a
    ok-injective h = cc
Runs-ok (failed e w h) p = cc
Runs-ok (panicked w h) p = cc

-- Conditions that hold of every outcome.
pub Runs-always :
    {A : Type 0} {E : State → Type 0} {K : A → World → Type 0}
    → ((s : State) → E s)
    → ((a : A) (v : World) → K a v)
    → (r : Result A × World) → Runs E K r
Runs-always e k (ok a, w) = done a w (k a w)
Runs-always e k (err x, w) = failed x w (e w.state)
Runs-always e k (panic, w) = panicked w (e w.state)

-- Weaker conditions on every outcome.
pub Runs-weaken :
    {A : Type 0} {D E : State → Type 0} {K L : A → World → Type 0} {r : Result A} {w : World}
    → ((t : State) → D t → E t)
    → ((a : A) (v : World) → K a v → L a v)
    → After D K r w
    → After E L r w
Runs-weaken e f (done a w k) = done a w (f a w k)
Runs-weaken e f (failed x w h) = failed x w (e w.state h)
Runs-weaken e f (panicked w h) = panicked w (e w.state h)

-- The same, with the world that the call has left.
pub Runs-returned :
    {A : Type 0} {E : State → Type 0} {K : A → World → Type 0} {r : Result A × World} {a : A}
    {v : World}
    → Runs E K r
    → r ≡ (ok a, v)
    → K a v
Runs-returned {K = K} {a = a} h e =
    subst (λ x. K a x) (ap (λ x. x.1) e) (Runs-ok h (ap (λ x. x.0) e))

-- A call that ends in a result.
abbrev pub Answers : {A : Type 0} → (A → World → Type 0) → Result A × World → Type 0
Answers K x = Runs (λ _. ⊥) K x

pub Answers-result :
    {A : Type 0} {K : A → World → Type 0} {r : Result A} {w : World}
    → After (λ _. ⊥) K r w
    → (a : A) × (r ≡ ok a) × K a w
Answers-result (done a w k) = (a, refl, k)
Answers-result (failed e w h) = absurd h
Answers-result (panicked w h) = absurd h
