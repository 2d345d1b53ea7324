-- ===== src/Prelude/Lists.antt =====
-- Searching, filtering and counting in lists by a Boolean test.
use Prim.Native.Nat.{ℕ, suc, ◌+◌}
use mathlib.Core.Path.{◌≡◌}
use mathlib.Core.Bool.{Bool, true, false}
use mathlib.Core.Option.{Option, none, some}
use mathlib.Core.List.{List, [], ◌∷◌}
use native.Mathlib.Omega.{arith}
use saftaja.Prelude.Tests.{if◌then◌else◌}

module _ {ℓ} {A : Type ℓ} where
  abbrev pub length : List A → ℕ
  length [] = 0
  length (x ∷ xs) = suc (length xs)

  -- The first element that passes the test.
  abbrev pub find? : (A → Bool) → List A → Option A
  find? p [] = none
  find? p (x ∷ xs) = if p x then some x else find? p xs

  abbrev pub exists? : (A → Bool) → List A → Bool
  exists? p [] = false
  exists? p (x ∷ xs) = if p x then true else exists? p xs

  abbrev pub keep : (A → Bool) → List A → List A
  keep p [] = []
  keep p (x ∷ xs) = if p x then x ∷ keep p xs else keep p xs

  -- How many elements pass the test.
  abbrev pub count_by : (A → Bool) → List A → ℕ
  count_by p [] = 0
  count_by p (x ∷ xs) = (if p x then 1 else 0) + count_by p xs

  abbrev pub All : (A → Type 0) → List A → Type 0
  All P [] = Unit
  All P (x ∷ xs) = P x × All P xs

  abbrev pub is_some : Option A → Bool
  is_some none = false
  is_some (some _) = true

  abbrev pub get_or : Option A → A → A
  get_or none d = d
  get_or (some a) d = a

  pub find?-sound : (p : A → Bool) (xs : List A) {a : A} → find? p xs ≡ some a → p a ≡ true
  find?-sound p [] h = cc
  find?-sound p (x ∷ xs) {a} h = ground (arith, find?-sound p xs {a = a})

  -- What holds of every element holds of the one that a search returns.
  pub All-find? :
      (P : A → Type 0) (p : A → Bool) (xs : List A) {a : A} → All P xs → find? p xs ≡ some a → P a
  All-find? P p [] h e = cc
  All-find? P p (x ∷ xs) {a} h e = ground (arith, All-find? P p xs {a = a} h.1)

  pub All-map : (P Q : A → Type 0) (f : (x : A) → P x → Q x) (xs : List A) → All P xs → All Q xs
  All-map P Q f [] h = tt
  All-map P Q f (x ∷ xs) h = (f x h.0, All-map P Q f xs h.1)
