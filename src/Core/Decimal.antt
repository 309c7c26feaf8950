-- ===== src/Core/Decimal.antt =====
-- The values of Python's `Decimal` and of the NUMERIC columns: `unscaled` / 10 ^ `scale`.
use Prim.Native.Nat.{◌/◌}
use retail_os.Prelude.{ℕ, ◌+◌, ◌*◌, ◌^◌, Bool, true, Option, none, some, ltb}
use retail_os.Prelude.Int.{ℤ, pos_part, neg_part}

pub record Decimal : Type 0 where
  pub unscaled : ℤ
  pub scale : ℕ

-- Whether a NUMERIC(precision, scale) column takes the value, once it is rounded to `scale` digits.
unfoldable pub fits_numeric : ℕ → ℕ → Decimal → Bool
fits_numeric precision scale d =
    let size = pos_part d.unscaled + neg_part d.unscaled in
    let unit = 10 ^ d.scale in ltb ((2 * size * 10 ^ scale + unit) / (2 * unit)) (10 ^ precision)

abbrev pub fits_nullable : ℕ → ℕ → Option Decimal → Bool
fits_nullable precision scale none = true
fits_nullable precision scale (some d) = fits_numeric precision scale d
