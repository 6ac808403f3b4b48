-- ===== src/Prelude/Float.antt =====
-- Go's float64 and float32 as their IEEE 754 bit patterns, with `<` and `==` written out. What
-- rounds (arithmetic, conversions, strconv.ParseFloat) is a parameter, the record Floats.
use Prim.Native.Nat.{ℕ, ◌+◌, ◌-◌, ◌^◌, ◌*◌}
use mathlib.Core.Path.{◌≡◌}
use mathlib.Core.Bool.{Bool, true, false, not, ◌&&◌}
use mathlib.Core.Option.{Option}
use native.Mathlib.Omega.{arith}
use coltt.Prelude.Tests.{ltb, if◌then◌else◌}
use coltt.Prelude.Bytes.{Bytes}
use coltt.Prelude.Int.{ℤ}

-- The magnitude bits of a pattern of `w` bits with a sign bit above them.
abbrev magnitude : ℕ → ℕ → ℕ
magnitude w x = if ltb x (2 ^ w) then x else x - 2 ^ w

-- The place of a pattern in the order of the reals; both zeros have one place.
abbrev rank : ℕ → ℕ → ℕ
rank w x = if ltb x (2 ^ w) then 2 ^ w + x else 2 * 2 ^ w - x

-- exponent bits all ones and a fraction that is not zero
abbrev pub float64_nan : ℕ → Bool
float64_nan x = ltb 0x7ff0000000000000 (magnitude 63 x)

abbrev pub float32_nan : ℕ → Bool
float32_nan x = ltb 0x7f800000 (magnitude 31 x)

abbrev pub float64_rank : ℕ → ℕ
float64_rank = rank 63

abbrev pub float32_rank : ℕ → ℕ
float32_rank = rank 31

-- a < b: false if one of them is a NaN
unfoldable pub float64_ltb : ℕ → ℕ → Bool
float64_ltb a b =
    not (float64_nan a) && (not (float64_nan b) && ltb (float64_rank a) (float64_rank b))

unfoldable pub float32_ltb : ℕ → ℕ → Bool
float32_ltb a b =
    not (float32_nan a) && (not (float32_nan b) && ltb (float32_rank a) (float32_rank b))

-- What rounds.
pub record Floats : Type 0 where
  -- float64(int64), float64(float32), int64(float64)
  pub float64_of_int : ℤ → ℕ
  pub float64_of_float32 : ℕ → ℕ
  pub int_of_float64 : ℕ → ℤ
  -- strconv.ParseFloat(s, 64) and (s, 32); no value is an error
  pub parse_float64 : Bytes → Option ℕ
  pub parse_float32 : Bytes → Option ℕ
  -- float32 arithmetic and float32(math.Sqrt(float64(x)))
  pub add32 : ℕ → ℕ → ℕ
  pub sub32 : ℕ → ℕ → ℕ
  pub mul32 : ℕ → ℕ → ℕ
  pub div32 : ℕ → ℕ → ℕ
  pub sqrt32 : ℕ → ℕ

pub float64_ltb_asym : (a b : ℕ) → float64_ltb a b ≡ true → float64_ltb b a ≡ false
unfolding float64_ltb
float64_ltb_asym a b h = ground arith

pub float32_ltb_asym : (a b : ℕ) → float32_ltb a b ≡ true → float32_ltb b a ≡ false
unfolding float32_ltb
float32_ltb_asym a b h = ground arith

pub float32_ltb_irrefl : (a : ℕ) → float32_ltb a a ≡ false
unfolding float32_ltb
float32_ltb_irrefl a = ground arith

pub float32_ltb_trans :
    (a b c : ℕ) → float32_ltb a b ≡ true → float32_ltb b c ≡ true → float32_ltb a c ≡ true
unfolding float32_ltb
float32_ltb_trans a b c h k = ground arith
