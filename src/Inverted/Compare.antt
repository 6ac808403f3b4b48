-- ===== src/Inverted/Compare.antt =====
-- compareValues of pkg/inverted/bitmap_index.go, one function for each case of the outer switch,
-- and satisfiesOp.
pub mod Order
use coltt.Prelude.{ℕ, ◌≡◌, refl, Bool, true, false, not, ◌&&◌, Option, none, some, if◌then◌else◌}
use coltt.Prelude.Bytes.{Bytes, bytes_ltb}
use coltt.Prelude.Int.{ℤ, pos, negsuc, ltb_ℤ, parse_int}
use coltt.Prelude.Float.{Floats, float64_ltb}
use coltt.Prelude.Outcome.{
  Outcome, ok, err, ◌>>=◌, type_mismatch, cannot_convert, unsupported_type, unsupported_op,
}
use coltt.Inverted.Filter.{
  Filter, FilterOp, op_equal, op_not_equal, op_greater_than, op_greater_than_equal, op_less_than,
  op_less_than_equal, other_op,
}
use coltt.Inverted.Value.{Value, null, int, int64, float32, float64, string, bool, composite}

-- if a < b { return -1 } else if a > b { return 1 }; return 0
abbrev pub three_way : Bool → Bool → ℤ
three_way below above = if below then negsuc 0 else if above then pos 1 else pos 0

unfoldable pub compare_int : ℤ → ℤ → ℤ
compare_int a b = three_way (ltb_ℤ a b) (ltb_ℤ b a)

unfoldable pub compare_float : ℕ → ℕ → ℤ
compare_float a b = three_way (float64_ltb a b) (float64_ltb b a)

-- num, err := strconv.Parse…(s); if err != nil { return 0, … }
abbrev pub parsed : {A : Type 0} → Option A → Outcome A
parsed none = err cannot_convert
parsed (some a) = ok a

-- the switch on f.Op
abbrev pub holds : FilterOp → ℤ → Outcome Bool
holds op_equal cmp = ok (not (ltb_ℤ cmp (pos 0)) && not (ltb_ℤ (pos 0) cmp))
holds op_not_equal cmp = ok (not (not (ltb_ℤ cmp (pos 0)) && not (ltb_ℤ (pos 0) cmp)))
holds op_greater_than cmp = ok (ltb_ℤ (pos 0) cmp)
holds op_greater_than_equal cmp = ok (not (ltb_ℤ cmp (pos 0)))
holds op_less_than cmp = ok (ltb_ℤ cmp (pos 0))
holds op_less_than_equal cmp = ok (not (ltb_ℤ (pos 0) cmp))
holds other_op cmp = err unsupported_op

module _ ⦃floats : Floats⦄ where
  open floats use {float64_of_int, float64_of_float32, parse_float64, parse_float32}

  unfoldable pub compare_int64 : ℤ → Value → Outcome ℤ
  compare_int64 va (int64 vb) = ok (compare_int va vb)
  compare_int64 va (int vb) = ok (compare_int va vb)
  compare_int64 va (float64 vb) = ok (compare_float (float64_of_int va) vb)
  compare_int64 va (float32 vb) = ok (compare_float (float64_of_int va) (float64_of_float32 vb))
  compare_int64 va (string vb) = do num ← parsed (parse_int vb); ok (compare_int va num)
  compare_int64 va b = err type_mismatch

  unfoldable pub compare_float64 : ℕ → Value → Outcome ℤ
  compare_float64 va (float64 vb) = ok (compare_float va vb)
  compare_float64 va (float32 vb) = ok (compare_float va (float64_of_float32 vb))
  compare_float64 va (int vb) = ok (compare_float va (float64_of_int vb))
  compare_float64 va (int64 vb) = ok (compare_float va (float64_of_int vb))
  compare_float64 va (string vb) = do num ← parsed (parse_float64 vb); ok (compare_float va num)
  compare_float64 va b = err type_mismatch

  unfoldable pub compare_string : Bytes → Value → Outcome ℤ
  compare_string va (string vb) = ok (three_way (bytes_ltb va vb) (bytes_ltb vb va))
  compare_string va (int vb) = do num ← parsed (parse_int va); ok (compare_int num vb)
  compare_string va (int64 vb) = do num ← parsed (parse_int va); ok (compare_int num vb)
  compare_string va (float64 vb) = do num ← parsed (parse_float64 va); ok (compare_float num vb)
  compare_string va (float32 vb) = do
    num ← parsed (parse_float32 va)
    ok (compare_float num (float64_of_float32 vb))
  compare_string va b = err type_mismatch

  unfoldable pub compare_bool : Bool → Value → Outcome ℤ
  compare_bool va (bool vb) = ok (three_way (not va && vb) (va && not vb))
  compare_bool va b = err type_mismatch

  unfoldable pub compare_values : Value → Value → Outcome ℤ
  unfolding compare_int64 compare_float64 compare_string compare_bool
  compare_values (int64 va) b = compare_int64 va b
  compare_values (int va) b = compare_int64 va b
  compare_values (float64 va) b = compare_float64 va b
  compare_values (float32 va) b = compare_float64 (float64_of_float32 va) b
  compare_values (string va) b = compare_string va b
  compare_values (bool va) b = compare_bool va b
  compare_values a b = err unsupported_type

  unfoldable pub satisfies_op : Filter → Value → Outcome Bool
  unfolding compare_values
  satisfies_op f key = do cmp ← compare_values key f.value; holds f.op cmp
