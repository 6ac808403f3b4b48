-- ===== src/Edge/Analyzer.antt =====
-- edge/edge_analyzer.go: metadata and removals checked against the design of the indexes. Of
-- Go's integer types a value has int and int64 alone.
pub mod Typed
use coltt.Prelude.{
  ℕ, zero, suc, Bool, true, false, not, ◌&&◌, ◌||◌, Option, none, some, List, [], ◌∷◌, ◌==◌,
  if◌then◌else◌,
}
use coltt.Prelude.Bytes.{Bytes}
use coltt.Prelude.Dict
use coltt.Prelude.Dict.{Dict, bytes_key}
use coltt.Prelude.Int.{ℤ, pos}
use coltt.Prelude.Float.{Floats, float64_nan, float64_rank}
use coltt.Prelude.Outcome.{
  Outcome, ok, err, ◌>>=◌, ◌>>◌, index_null, index_design, primary_key_empty, primary_key_type,
  index_type_error, not_defined_index, unsupported_filter_value,
}
use coltt.Inverted.Value.{Value, null, int, int64, float32, float64, string, bool, composite}
use coltt.Inverted.Filter.{
  FilterOp, op_equal, op_not_equal, op_greater_than, op_greater_than_equal, op_less_than,
  op_less_than_equal, Filter, LogicalOp, logical_and, logical_or, FilterExpression, single,
  nil_expression, Expressions, nil, cons,
}
use coltt.Inverted.Index.{Metadata}

pub record IndexFeature : Type 0 where
  pub index_name : Bytes
  pub index_type : ℕ
  pub enable_null : Bool
  pub primary_key : Bool

abbrev pub default_type : ℕ → Option Value
default_type zero = some (string [])
default_type (suc zero) = some (int (pos 0))
default_type (suc (suc zero)) = some (float64 0)
default_type (suc (suc (suc zero))) = some (bool false)
default_type n = none

-- the value under the column, or the default of a column that may be missing
unfoldable pub column_value : IndexFeature → Option Value → Outcome Value
column_value column (some value) = ok value
column_value column none =
    if column.enable_null
    then (if column.primary_key
        then err primary_key_empty
        else (elim (default_type column.index_type) [
          | none ↦ err index_design
          | some base ↦ ok base
        ]))
    else err index_null

abbrev pub is_string : Value → Bool
is_string (string s) = true
is_string v = false

abbrev pub is_float : Value → Bool
is_float (float32 x) = true
is_float (float64 x) = true
is_float v = false

abbrev pub is_bool : Value → Bool
is_bool (bool b) = true
is_bool v = false

abbrev pub is_integer : Value → Bool
is_integer (int z) = true
is_integer (int64 z) = true
is_integer v = false

-- a == b on float64
unfoldable pub float64_eq : ℕ → ℕ → Bool
float64_eq a b = not (float64_nan a) && not (float64_nan b) && float64_rank a == float64_rank b

module _ ⦃floats : Floats⦄ where
  open floats use {float64_of_int, int_of_float64}

  -- v == float64(int64(v))
  abbrev pub is_whole : ℕ → Bool
  is_whole v = float64_eq v (float64_of_int (int_of_float64 v))

  -- the switch for the column type 1: a whole float64 is written back as an int64
  unfoldable pub check_integer : IndexFeature → Metadata → Value → Outcome Metadata
  check_integer column metadata (int z) = ok metadata
  check_integer column metadata (int64 z) = ok metadata
  check_integer column metadata (float64 v) =
      if is_whole v
      then ok (Dict.insert column.index_name (int64 (int_of_float64 v)) metadata)
      else err index_type_error
  check_integer column metadata value = err index_type_error

  abbrev checked : Bool → Metadata → Outcome Metadata
  checked passes metadata = if passes then ok metadata else err index_type_error

  -- the switch on column.IndexType; any other type is not checked
  unfoldable pub check_type : IndexFeature → Metadata → Value → Outcome Metadata
  unfolding check_integer
  check_type column metadata value =
      if column.index_type == 0
      then checked (is_string value) metadata
      else if column.index_type == 1
      then check_integer column metadata value
      else if column.index_type == 2
      then checked (is_float value) metadata
      else if column.index_type == 3
      then checked (is_bool value) metadata
      else ok metadata

  unfoldable pub check_value : IndexFeature → Metadata → Value → Outcome Metadata
  unfolding check_type
  check_value column metadata value =
      if column.primary_key
      then (if is_string value then ok metadata else err primary_key_type)
      else check_type column metadata value

  -- one round of the loop over the columns
  unfoldable pub analyze_column : IndexFeature → Metadata → Outcome Metadata
  unfolding column_value check_value
  analyze_column column metadata =
      column_value column (Dict.lookup column.index_name metadata) >>= check_value column metadata

  -- The metadata with its whole floats turned into integers; the caller goes on with it.
  unfoldable pub standard_analyzer : Metadata → Dict Bytes IndexFeature → Outcome Metadata
  standard_analyzer metadata [] = ok metadata
  standard_analyzer metadata ((k, column) ∷ analyzer) = do
    metadata' ← analyze_column column metadata
    standard_analyzer metadata' analyzer

-- `switch indexValue` compares the value itself with the int constants 0 to 3.
unfoldable pub is_int : ℕ → Value → Bool
is_int n (int (pos m)) = n == m
is_int n v = false

-- The int 0 is no string, 2 no float and 3 no bool; 1 is an integer.
unfoldable pub check_drop_value : Value → Outcome (Unit {0})
unfolding is_int
check_drop_value value =
    if is_int 0 value
    then err index_type_error
    else if is_int 1 value
    then ok tt
    else if is_int 2 value
    then err index_type_error
    else if is_int 3 value
    then err index_type_error
    else ok tt

unfoldable pub drop_key_analyzer : Metadata → Dict Bytes IndexFeature → Outcome (Unit {0})
unfolding check_drop_value
drop_key_analyzer [] analyzer = ok tt
drop_key_analyzer ((name, value) ∷ drop_key) analyzer = elim (Dict.lookup name analyzer) [
  | none ↦ err not_defined_index
  | some feature ↦ do check_drop_value value; drop_key_analyzer drop_key analyzer
]
