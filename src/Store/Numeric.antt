-- ===== src/Store/Numeric.antt =====
-- An amount of khazina/internal/store/admin.sql.go on its way into a DECIMAL(12, 3) column: a
-- `decimal.Decimal` of the shopspring library, and what PostgreSQL keeps of it.
pub mod Rounding
use saftaja.Prelude.{
  ℕ, zero, suc, ◌+◌, ◌*◌, ◌/◌, ◌^◌, Bool, true, false, Option, none, some, ltb, if◌then◌else◌,
}
use saftaja.Domain.{Decimal, ℤ}

-- The value is `coefficient * 10 ^ exponent`, negated if `negative`.
pub record Number : Type 0 where
  pub negative : Bool
  pub coefficient : ℕ
  pub exponent : ℤ

-- `c / 10 ^ suc n`, rounded to the nearest, and half away from zero.
unfoldable pub rounded : ℕ → ℕ → ℕ
rounded n c = (c + 5 * 10 ^ n) / 10 ^ suc n

-- The magnitude in thousandths.
unfoldable pub thousandths : ℕ → ℤ → ℕ
thousandths c (ℤ.pos n) = c * 10 ^ (n + 3)
thousandths c (ℤ.negsuc zero) = c * 100
thousandths c (ℤ.negsuc (suc zero)) = c * 10
thousandths c (ℤ.negsuc (suc (suc zero))) = c
thousandths c (ℤ.negsuc (suc (suc (suc n)))) = rounded n c

abbrev pub signed : Bool → ℕ → Decimal
signed true (suc n) = Decimal.negsuc n
signed _ n = Decimal.pos n

-- the first magnitude that DECIMAL(12, 3) has no room for
abbrev pub numeric_limit : ℕ
numeric_limit = 1_000_000_000_000

-- `none` is `numeric field overflow`.
unfoldable pub numeric_12_3 : Number → Option Decimal
numeric_12_3 v =
    let n = thousandths v.coefficient v.exponent in
    if ltb n numeric_limit then some (signed v.negative n) else none
