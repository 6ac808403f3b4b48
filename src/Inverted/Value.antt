-- ===== src/Inverted/Value.antt =====
-- Values of Go's `interface{}` as metadata and filters hold them, and their equality as map keys.
-- A NaN equals nothing, and a list or map under a key makes the map access panic.
use coltt.Prelude.{ℕ, ◌≡◌, Bool, true, false, not, ◌&&◌, [], ◌∷◌, arith}
use coltt.Prelude.Bytes.{Bytes, bytes_eq, bytes_eq_refl, bytes_eq_sym, bytes_eq_trans}
use coltt.Prelude.Dict.{Key}
use coltt.Prelude.Int.{ℤ, pos_part, neg_part}
use coltt.Prelude.Float.{float64_nan, float32_nan, float64_rank, float32_rank}

pub data Value : Type 0 where
  null : Value
  int : ℤ → Value
  int64 : ℤ → Value
  float32 : ℕ → Value
  float64 : ℕ → Value
  string : Bytes → Value
  bool : Bool → Value
  -- []any or map[string]any
  composite : Value

abbrev pub hashable : Value → Bool
hashable composite = false
hashable v = true

-- v == v
abbrev pub reflexive : Value → Bool
reflexive (float32 x) = not (float32_nan x)
reflexive (float64 x) = not (float64_nan x)
reflexive composite = false
reflexive v = true

abbrev pub bit : Bool → ℕ
bit true = 1
bit false = 0

-- The dynamic type, and the data by which two values of one type are compared.
unfoldable pub identity : Value → Bytes
identity null = 0 ∷ []
identity (int z) = 1 ∷ pos_part z ∷ neg_part z ∷ []
identity (int64 z) = 2 ∷ pos_part z ∷ neg_part z ∷ []
identity (float32 x) = 3 ∷ float32_rank x ∷ []
identity (float64 x) = 4 ∷ float64_rank x ∷ []
identity (string s) = 5 ∷ s
identity (bool b) = 6 ∷ bit b ∷ []
identity composite = 7 ∷ []

-- a == b on interface values
unfoldable pub value_eq : Value → Value → Bool
value_eq a b = reflexive a && (reflexive b && bytes_eq (identity a) (identity b))

pub value_eq_sym : (a b : Value) → value_eq a b ≡ value_eq b a
unfolding value_eq
value_eq_sym a b = ground (arith, bytes_eq_sym (identity a) (identity b))

pub value_eq_trans : (a b c : Value) → value_eq a b ≡ true → value_eq b c ≡ value_eq a c
unfolding value_eq
value_eq_trans a b c h = ground (arith, bytes_eq_trans (identity a) (identity b) (identity c))

pub value_eq_refl : (a : Value) → reflexive a ≡ true → value_eq a a ≡ true
unfolding value_eq
value_eq_refl a h = ground (arith, bytes_eq_refl (identity a))

instance abbrev pub value_key : Key Value
value_key = record { beq = value_eq; beq_sym = value_eq_sym; beq_trans = value_eq_trans }
