-- ===== src/Prelude/Int.antt =====
-- Signed integers over the native numbers, under the library's names: Go's int and int64, read as
-- the integers that they stand for, and strconv.ParseInt(s, 10, 64).
use Prim.Native.Nat.{ℕ, suc, ◌+◌, ◌-◌, ◌*◌, ◌≤◌, ◌<◌, ◌^◌}
use mathlib.Core.Bool.{Bool, ◌&&◌}
use mathlib.Core.List.{[], ◌∷◌}
use mathlib.Core.Option.{Option, none, some}
use coltt.Prelude.Tests.{ltb, leb, ◌==◌, if◌then◌else◌}
use coltt.Prelude.Bytes.{Bytes}

-- `negsuc n` is -(n + 1).
pub data ℤ : Type 0 where
  pos : ℕ → ℤ
  negsuc : ℕ → ℤ

abbrev pub pos_part : ℤ → ℕ
pos_part (pos n) = n
pos_part (negsuc n) = 0

abbrev pub neg_part : ℤ → ℕ
neg_part (pos n) = 0
neg_part (negsuc n) = suc n

infix 50 ◌≤ℤ◌ ◌<ℤ◌
abbrev pub ◌≤ℤ◌ : ℤ → ℤ → Type 0
a ≤ℤ b = pos_part a + neg_part b ≤ pos_part b + neg_part a

abbrev pub ◌<ℤ◌ : ℤ → ℤ → Type 0
a <ℤ b = pos_part a + neg_part b < pos_part b + neg_part a

abbrev pub ltb_ℤ : ℤ → ℤ → Bool
ltb_ℤ a b = ltb (pos_part a + neg_part b) (pos_part b + neg_part a)

abbrev pub neg_ℕ : ℕ → ℤ
neg_ℕ n = if n == 0 then pos 0 else negsuc (n - 1)

abbrev pub neg : ℤ → ℤ
neg (pos n) = neg_ℕ n
neg (negsuc n) = pos (suc n)

-- Digits from the left, into the number read so far.
digits_loop : ℕ → Bytes → Option ℕ
digits_loop acc [] = some acc
digits_loop acc (c ∷ s) =
    let rest = digits_loop (acc * 10 + (c - b'0')) s in
    if leb b'0' c && leb c b'9' then rest else none

digits_value : Bytes → Option ℕ
digits_value [] = none
digits_value (c ∷ s) = digits_loop 0 (c ∷ s)

in_range_pos : Option ℕ → Option ℤ
in_range_pos none = none
in_range_pos (some n) = if ltb n (2 ^ 63) then some (pos n) else none

in_range_neg : Option ℕ → Option ℤ
in_range_neg none = none
in_range_neg (some n) = if leb n (2 ^ 63) then some (neg_ℕ n) else none

-- strconv.ParseInt(s, 10, 64), and strconv.Atoi on a 64-bit machine; `none` is an error.
unfoldable pub parse_int : Bytes → Option ℤ
unfolding digits_loop digits_value in_range_pos in_range_neg
parse_int [] = none
parse_int (c ∷ s) =
    if c == b'-'
    then in_range_neg (digits_value s)
    else if c == b'+'
    then in_range_pos (digits_value s)
    else in_range_pos (digits_value (c ∷ s))
