-- ===== src/Inverted/Compare/Order.antt =====
-- Laws of compareValues and satisfiesOp (pkg/inverted/bitmap_index.go).
use coltt.Prelude.{ℕ, ◌≡◌, refl, ap, Bool, true, false, not, Option, none, some, arith}
use coltt.Prelude.Bytes.{
  Bytes, bytes_eq, bytes_ltb, bytes_ltb_asym, bytes_ltb_irrefl, eq_of_bytes_eq,
}
use coltt.Prelude.Int.{ℤ, pos, neg, parse_int}
use coltt.Prelude.Float.{Floats, float64_ltb, float64_ltb_asym, float64_nan}
use coltt.Prelude.Outcome.{Outcome, ok, err, panic, ◌>>=◌}
use coltt.Inverted.Value.{
  Value, null, int, int64, float32, float64, string, bool, composite, identity, value_eq,
}
use coltt.Inverted.Filter.{
  Filter, FilterOp, op_equal, op_not_equal, op_greater_than, op_greater_than_equal, op_less_than,
  op_less_than_equal, other_op,
}
use coltt.Inverted.Compare.{
  three_way, compare_int, compare_float, parsed, compare_int64, compare_float64, compare_string,
  compare_bool, compare_values, holds, satisfies_op,
}

three_way-swap : (x y : Bool) → (x ≡ true → y ≡ false) → three_way y x ≡ neg (three_way x y)
three_way-swap true y h = rw (h refl)
three_way-swap false true h = refl
three_way-swap false false h = refl

compare_int-swap : (a b : ℤ) → compare_int b a ≡ neg (compare_int a b)
unfolding compare_int
compare_int-swap a b = ground arith

compare_float-swap : (a b : ℕ) → compare_float b a ≡ neg (compare_float a b)
unfolding compare_float
compare_float-swap a b = three_way-swap _ _ (float64_ltb_asym a b)

compare_bytes-swap :
    (a b : Bytes)
    → three_way (bytes_ltb b a) (bytes_ltb a b) ≡ neg (three_way (bytes_ltb a b) (bytes_ltb b a))
compare_bytes-swap a b = three_way-swap _ _ (bytes_ltb_asym a b)

-- An answer, and the answer of the swapped call.
swapped : (z w c : ℤ) → w ≡ neg z → ok z ≡ ok c → ok w ≡ ok (neg c)
swapped z w c e h = cc

swapped_parse :
    {A : Type 0} (o : Option A) (f g : A → ℤ) (c : ℤ)
    → ((a : A) → g a ≡ neg (f a))
    → (parsed o >>= λ a. ok (f a)) ≡ ok c
    → (parsed o >>= λ a. ok (g a)) ≡ ok (neg c)
swapped_parse none f g c e h = cc
swapped_parse (some a) f g c e h = swapped (f a) (g a) c (e a) h

-- A float32 beside a string: each order of the arguments parses the string at another width.
abbrev pub parses_apart : Value → Value → Bool
parses_apart (float32 x) (string s) = true
parses_apart (string s) (float32 x) = true
parses_apart a b = false

module _ ⦃floats : Floats⦄ where
  int64-swap :
      (x : ℤ) (b : Value) (c : ℤ)
      → compare_int64 x b ≡ ok c
      → (compare_values b (int64 x) ≡ ok (neg c)) × (compare_values b (int x) ≡ ok (neg c))
  unfolding compare_values
  int64-swap x (int y) c h =
      (swapped _ _ c (compare_int-swap x y) h, swapped _ _ c (compare_int-swap x y) h)
  int64-swap x (int64 y) c h =
      (swapped _ _ c (compare_int-swap x y) h, swapped _ _ c (compare_int-swap x y) h)
  int64-swap x (float64 y) c h =
      let e = compare_float-swap (floats.float64_of_int x) y in
      (swapped _ _ c e h, swapped _ _ c e h)
  int64-swap x (float32 y) c h =
      let e = compare_float-swap (floats.float64_of_int x) (floats.float64_of_float32 y) in
      (swapped _ _ c e h, swapped _ _ c e h)
  int64-swap x (string s) c h = (
    swapped_parse (parse_int s) (compare_int x) (λ n. compare_int n x) c (compare_int-swap x) h,
    swapped_parse (parse_int s) (compare_int x) (λ n. compare_int n x) c (compare_int-swap x) h,
  )
  int64-swap x b c h = cc

  float64-swap :
      (x : ℕ) (b : Value) (c : ℤ)
      → compare_float64 x b ≡ ok c
      → (compare_values b (float64 x) ≡ ok (neg c))
  unfolding compare_values
  float64-swap x (int y) c h = swapped _ _ c (compare_float-swap x _) h
  float64-swap x (int64 y) c h = swapped _ _ c (compare_float-swap x _) h
  float64-swap x (float64 y) c h = swapped _ _ c (compare_float-swap x _) h
  float64-swap x (float32 y) c h = swapped _ _ c (compare_float-swap x _) h
  float64-swap x (string s) c h =
      swapped_parse (floats.parse_float64 s) (compare_float x) (λ n. compare_float n x) c
        (compare_float-swap x) h
  float64-swap x b c h = cc

  float32-swap :
      (x : ℕ) (b : Value) (c : ℤ)
      → parses_apart (float32 x) b ≡ false
      → compare_float64 (floats.float64_of_float32 x) b ≡ ok c
      → (compare_values b (float32 x) ≡ ok (neg c))
  unfolding compare_values
  float32-swap x (int y) c d h = swapped _ _ c (compare_float-swap _ _) h
  float32-swap x (int64 y) c d h = swapped _ _ c (compare_float-swap _ _) h
  float32-swap x (float64 y) c d h = swapped _ _ c (compare_float-swap _ _) h
  float32-swap x (float32 y) c d h = swapped _ _ c (compare_float-swap _ _) h
  float32-swap x b c d h = cc

  string-swap :
      (s : Bytes) (b : Value) (c : ℤ)
      → parses_apart (string s) b ≡ false
      → compare_string s b ≡ ok c
      → compare_values b (string s) ≡ ok (neg c)
  unfolding compare_values
  string-swap s (string t) c d h = swapped _ _ c (compare_bytes-swap s t) h
  string-swap s (int y) c d h =
      swapped_parse (parse_int s) (λ n. compare_int n y) (compare_int y) c
        (λ n. compare_int-swap n y) h
  string-swap s (int64 y) c d h =
      swapped_parse (parse_int s) (λ n. compare_int n y) (compare_int y) c
        (λ n. compare_int-swap n y) h
  string-swap s (float64 y) c d h =
      swapped_parse (floats.parse_float64 s) (λ n. compare_float n y) (compare_float y) c
        (λ n. compare_float-swap n y) h
  string-swap s b c d h = cc

  bool-swap :
      (x : Bool) (b : Value) (c : ℤ)
      → compare_bool x b ≡ ok c
      → compare_values b (bool x) ≡ ok (neg c)
  unfolding compare_values
  bool-swap x (bool y) c h = ground arith
  bool-swap x b c h = cc

  -- Where compareValues answers, it answers the opposite with the arguments swapped, for every
  -- two values but a float32 beside a string.
  pub compare_values-swap :
      (a b : Value) (c : ℤ)
      → parses_apart a b ≡ false
      → compare_values a b ≡ ok c
      → compare_values b a ≡ ok (neg c)
  unfolding compare_values
  compare_values-swap (int x) b c d h = (int64-swap x b c h).1
  compare_values-swap (int64 x) b c d h = (int64-swap x b c h).0
  compare_values-swap (float64 x) b c d h = float64-swap x b c h
  compare_values-swap (float32 x) b c d h = float32-swap x b c d h
  compare_values-swap (string s) b c d h = string-swap s b c d h
  compare_values-swap (bool x) b c d h = bool-swap x b c h
  compare_values-swap null b c d h = cc
  compare_values-swap composite b c d h = cc

-- The operator that holds where the given one does not.
abbrev pub opposite : FilterOp → FilterOp
opposite op_equal = op_not_equal
opposite op_not_equal = op_equal
opposite op_greater_than = op_less_than_equal
opposite op_greater_than_equal = op_less_than
opposite op_less_than = op_greater_than_equal
opposite op_less_than_equal = op_greater_than
opposite other_op = other_op

holds-opposite :
    (op : FilterOp) (c : ℤ) (b : Bool) → holds op c ≡ ok b → holds (opposite op) c ≡ ok (not b)
holds-opposite op_equal c b h = ground arith
holds-opposite _ c b h = ground arith

holds-opposite-bind :
    (r : Outcome ℤ) (op : FilterOp) (b : Bool)
    → (r >>= holds op) ≡ ok b
    → (r >>= holds (opposite op)) ≡ ok (not b)
holds-opposite-bind (ok c) op b h = holds-opposite op c b h
holds-opposite-bind (err e) op b h = cc
holds-opposite-bind panic op b h = cc

-- Values that compareValues can compare with an equal one; float32 metadata is left out, as its
-- comparison goes through a conversion.
abbrev pub self_comparable : Value → Bool
self_comparable null = false
self_comparable (float32 x) = false
self_comparable composite = false
self_comparable v = true

compare_int_zero :
    (x y : ℤ) → bytes_eq (identity (int x)) (identity (int y)) ≡ true → compare_int x y ≡ pos 0
unfolding compare_int identity bytes_eq
compare_int_zero x y h = ground arith

compare_float_zero :
    (x y : ℕ)
    → bytes_eq (identity (float64 x)) (identity (float64 y)) ≡ true
    → compare_float x y ≡ pos 0
unfolding compare_float identity bytes_eq float64_ltb
compare_float_zero x y h = ground arith

compare_bytes_zero :
    (s t : Bytes) → bytes_eq s t ≡ true → three_way (bytes_ltb s t) (bytes_ltb t s) ≡ pos 0
compare_bytes_zero s t h = rw (eq_of_bytes_eq s t h, bytes_ltb_irrefl t)

module _ ⦃floats : Floats⦄ where
  -- Where satisfiesOp answers for an operator, it gives the negated answer for the opposite one.
  pub satisfies_op-opposite :
      (f : Filter) (key : Value) (b : Bool)
      → satisfies_op f key ≡ ok b
      → satisfies_op (record f { op = opposite f.op }) key ≡ ok (not b)
  unfolding satisfies_op
  satisfies_op-opposite f key b h = holds-opposite-bind (compare_values key f.value) f.op b h

  -- Two values that are one key of a map compare as equal, if they are of a type that
  -- compareValues takes and not float32.
  pub compare_values_zero :
      (a b : Value)
      → self_comparable a ≡ true
      → value_eq a b ≡ true
      → compare_values a b ≡ ok (pos 0)
  unfolding compare_values value_eq identity bytes_eq
  compare_values_zero (int x) (int y) d h = ap ok (compare_int_zero x y h)
  compare_values_zero (int64 x) (int64 y) d h = ap ok (compare_int_zero x y h)
  compare_values_zero (float64 x) (float64 y) d h = ground (arith, compare_float_zero x y)
  compare_values_zero (string x) (string y) d h = ap ok (compare_bytes_zero x y h)
  compare_values_zero (bool x) (bool y) d h = ground arith
  compare_values_zero a b d h = ground arith

  -- A NaN under a float64 filter value satisfies ≥ and ≤, and neither > nor <.
  pub satisfies_op-nan :
      (f : Filter) (x y : ℕ)
      → f.value ≡ float64 y
      → float64_nan x ≡ true
      → (satisfies_op (record f { op = op_greater_than_equal }) (float64 x) ≡ ok true)
        × (satisfies_op (record f { op = op_less_than_equal }) (float64 x) ≡ ok true)
        × (satisfies_op (record f { op = op_greater_than }) (float64 x) ≡ ok false)
        × (satisfies_op (record f { op = op_less_than }) (float64 x) ≡ ok false)
  unfolding satisfies_op compare_values compare_float float64_ltb
  satisfies_op-nan f x y e h = ground arith
