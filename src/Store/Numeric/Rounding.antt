-- ===== src/Store/Numeric/Rounding.antt =====
-- How far the stored amount is from the one that was sent.
use native.Mathlib.Nat.{div-mul-le_self, lt-div-mul-add, one-le-pow, pow-suc}
use mathlib.Core.Path.{subst}
use saftaja.Prelude.{
  sym, ap, ℕ, zero, suc, ◌+◌, ◌*◌, ◌^◌, ◌≤◌, ◌<◌, ◌≡◌, refl, Bool, true, false, none, some, ltb,
  if◌then◌else◌, arith,
}
use saftaja.Domain.{Decimal, ℤ}
use saftaja.Store.Numeric.{Number, rounded, thousandths, signed, numeric_limit, numeric_12_3}

abbrev pub magnitude : Decimal → ℕ
magnitude (Decimal.pos n) = n
magnitude (Decimal.negsuc n) = suc n

-- `n` thousandths are `c * 10 ^ exponent`, up to half a thousandth.
abbrev pub Near : ℕ → ℕ → ℤ → Type 0
Near n c (ℤ.pos e) = n ≡ c * 10 ^ (e + 3)
Near n c (ℤ.negsuc e) =
    (2 * (n * 10 ^ suc e) ≤ 2000 * c + 10 ^ suc e) × (2000 * c ≤ 2 * (n * 10 ^ suc e) + 10 ^ suc e)

rounded-near :
    (n c : ℕ)
    → (rounded n c * 10 ^ suc n ≤ c + 5 * 10 ^ n)
      × (c + 5 * 10 ^ n < rounded n c * 10 ^ suc n + 10 ^ suc n)
unfolding rounded
rounded-near n c = (
  div-mul-le_self (c + 5 * 10 ^ n) (10 ^ suc n),
  lt-div-mul-add (one-le-pow (suc n) 10 (omega arith)),
)

-- The same in thousandths, three powers of ten up.
scaled :
    (m c p : ℕ)
    → m * (p * 10) ≤ c + 5 * p
    → c + 5 * p < m * (p * 10) + p * 10
    → (2 * (m * (p * 10 * 10 * 10 * 10)) ≤ 2000 * c + p * 10 * 10 * 10 * 10)
      × (2000 * c ≤ 2 * (m * (p * 10 * 10 * 10 * 10)) + p * 10 * 10 * 10 * 10)
scaled m c p low high = omega (arith, low, high)

thousandths-Near : (c : ℕ) (e : ℤ) → Near (thousandths c e) c e
unfolding thousandths
thousandths-Near c (ℤ.pos e) = refl
thousandths-Near c (ℤ.negsuc zero) = omega arith
thousandths-Near c (ℤ.negsuc (suc zero)) = omega arith
thousandths-Near c (ℤ.negsuc (suc (suc zero))) = omega arith
thousandths-Near c (ℤ.negsuc (suc (suc (suc n)))) =
    let (low, high) = rounded-near n c in
    let power = pow-suc 10 n in
    subst (λ p. (2 * (rounded n c * p) ≤ 2000 * c + p) × (2000 * c ≤ 2 * (rounded n c * p) + p))
      (omega (
        arith,
        power,
        pow-suc 10 (suc n),
        pow-suc 10 (suc (suc n)),
        pow-suc 10 (suc (suc (suc n))),
      ))
      (scaled (rounded n c) c (10 ^ n) (subst (λ p. rounded n c * p ≤ c + 5 * 10 ^ n) power low)
        (subst (λ p. c + 5 * 10 ^ n < rounded n c * p + p) power high))

magnitude-signed : (b : Bool) (n : ℕ) → magnitude (signed b n) ≡ n
magnitude-signed true zero = refl
magnitude-signed true (suc n) = refl
magnitude-signed false n = refl

kept :
    (b : Bool) (n : ℕ) (d : Decimal)
    → (if ltb n numeric_limit then some (signed b n) else none) ≡ some d
    → (magnitude d ≡ n) × (magnitude d < numeric_limit)
kept b n d h = ground (arith, magnitude-signed b n)

signed-magnitude : (b : Bool) (n : ℕ) → signed b n ≡ signed b (magnitude (signed b n))
signed-magnitude b n = ap (signed b) (sym (magnitude-signed b n))

kept_sign :
    (b : Bool) (n : ℕ) (d : Decimal)
    → (if ltb n numeric_limit then some (signed b n) else none) ≡ some d
    → d ≡ signed b (magnitude d)
kept_sign b n d h = ground (arith, signed-magnitude b n)

-- What the column keeps has the sign of what was sent.
pub numeric_12_3-sign :
    (v : Number) (d : Decimal) → numeric_12_3 v ≡ some d → d ≡ signed v.negative (magnitude d)
unfolding numeric_12_3
numeric_12_3-sign v d h = kept_sign v.negative (thousandths v.coefficient v.exponent) d h

-- What the column keeps is within half a thousandth of the amount, and has room.
pub numeric_12_3-Near :
    (v : Number) (d : Decimal)
    → numeric_12_3 v ≡ some d
    → Near (magnitude d) v.coefficient v.exponent × (magnitude d < numeric_limit)
unfolding numeric_12_3
numeric_12_3-Near v d h =
    let (at, room) = kept v.negative (thousandths v.coefficient v.exponent) d h in
    (rw at (thousandths-Near v.coefficient v.exponent), room)
