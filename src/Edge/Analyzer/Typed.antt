-- ===== src/Edge/Analyzer/Typed.antt =====
-- The metadata that standardAnalyzer leaves, and the types that the indexes declare.
use coltt.Prelude.{
  ◌≡◌, refl, ◌∙◌, Bool, true, false, not, ◌&&◌, ◌||◌, Option, none, some, [], ◌∷◌, All, arith, ◌==◌,
  if◌then◌else◌, Bool-cases, Option-cases, inl, inr,
}
use coltt.Prelude.Bytes.{Bytes, bytes_eq, bytes_eq_sym, bytes_eq_refl}
use coltt.Prelude.Dict
use coltt.Prelude.Dict.{Dict, bytes_key}
use coltt.Prelude.Int.{ℤ}
use coltt.Prelude.Float.{Floats}
use coltt.Prelude.Outcome.{Outcome, ok, err, panic, ◌>>=◌}
use coltt.Inverted.Value.{Value, int64, float64}
use coltt.Inverted.Index.{Metadata}
use coltt.Edge.Analyzer.{
  IndexFeature, column_value, check_integer, check_type, check_value, analyze_column,
  standard_analyzer, is_string, is_float, is_bool, is_integer,
}

-- The type that a column declares; a primary key is a string.
abbrev pub declared : IndexFeature → Value → Bool
declared column value =
    if column.primary_key || column.index_type == 0
    then is_string value
    else if column.index_type == 1
    then is_integer value
    else if column.index_type == 2
    then is_float value
    else if column.index_type == 3
    then is_bool value
    else true

-- The entry of a column: of the declared type, or missing where it may be.
abbrev pub conforms : IndexFeature → Option Value → Bool
conforms column none = column.enable_null && not column.primary_key
conforms column (some value) = declared column value

-- No two columns have one name.
abbrev pub NamesDiffer : Dict Bytes IndexFeature → Type 0
NamesDiffer [] = Unit
NamesDiffer ((k, column) ∷ columns) =
    All (λ e. bytes_eq column.index_name e.1.index_name ≡ false) columns × NamesDiffer columns

column_value-none :
    (column : IndexFeature) (v : Value)
    → column_value column none ≡ ok v
    → (column.enable_null && not column.primary_key) ≡ true
unfolding column_value
column_value-none column v h = ground arith

-- How a checked value leaves the metadata: as it was, or with an int64 under the column.
data Leaves (column : IndexFeature) (metadata : Metadata) (value : Value) (metadata' : Metadata)
    : Type 0 where
  same :
      metadata' ≡ metadata → declared column value ≡ true → Leaves column metadata value metadata'
  whole :
      (z : ℤ)
      → metadata' ≡ Dict.insert column.index_name (int64 z) metadata
      → declared column (int64 z) ≡ true
      → Leaves column metadata value metadata'

pub ok_inj : {A : Type 0} {x y : A} → ok x ≡ ok y → y ≡ x
ok_inj h = cc

bind_ok :
    {A B : Type 0} (o : Outcome A) (f : A → Outcome B) {b : B}
    → (o >>= f) ≡ ok b
    → (a : A) × (o ≡ ok a) × (f a ≡ ok b)
bind_ok (ok a) f h = (a, refl, h)
bind_ok (err e) f h = cc
bind_ok panic f h = cc

Leaves-conforms :
    (column : IndexFeature) (metadata : Metadata) (value : Value) (metadata' : Metadata)
    → Leaves column metadata value metadata'
    → (declared column value ≡ true
        → conforms column (Dict.lookup column.index_name metadata) ≡ true)
    → conforms column (Dict.lookup column.index_name metadata') ≡ true
Leaves-conforms column metadata value metadata' (same e d) k = rw e (k d)
Leaves-conforms column metadata value metadata' (whole z e d) k =
    rw
      (
        e,
        Dict.lookup-insert column.index_name column.index_name (int64 z) metadata,
        bytes_eq_refl column.index_name,
      )
      d

Leaves-keeps :
    (column : IndexFeature) (metadata : Metadata) (value : Value) (metadata' : Metadata)
    (name : Bytes)
    → Leaves column metadata value metadata'
    → bytes_eq column.index_name name ≡ false
    → Dict.lookup name metadata' ≡ Dict.lookup name metadata
Leaves-keeps column metadata value metadata' name (same e d) n = rw e
Leaves-keeps column metadata value metadata' name (whole z e d) n =
    rw (e, Dict.lookup-insert column.index_name name (int64 z) metadata, n)

module _ ⦃floats : Floats⦄ where
  check_value-Leaves :
      (column : IndexFeature) (metadata : Metadata) (value : Value) (metadata' : Metadata)
      → check_value column metadata value ≡ ok metadata'
      → Leaves column metadata value metadata'
  unfolding check_value check_type check_integer
  check_value-Leaves column metadata (float64 v) metadata' h =
      elim (Bool-cases (column.primary_key || not (column.index_type == 1))) [
        | inl other ↦ same (ground arith) (ground arith)
        | inr integer ↦ whole (floats.int_of_float64 v) (ground arith) (ground arith)
      ]
  check_value-Leaves column metadata value metadata' h = same (ground arith) (ground arith)

  analyze_column-conforms :
      (column : IndexFeature) (metadata metadata' : Metadata)
      → analyze_column column metadata ≡ ok metadata'
      → conforms column (Dict.lookup column.index_name metadata') ≡ true
  unfolding analyze_column
  analyze_column-conforms column metadata metadata' h =
      elim (Option-cases (Dict.lookup column.index_name metadata)) [
        | inl missing ↦
            let (v, e, c) = bind_ok (column_value column none) _ (rw missing at h) in
            Leaves-conforms column metadata v metadata'
              (check_value-Leaves column metadata v metadata' c)
              (λ d. rw missing (column_value-none column v e))
        | inr (v, found) ↦
            Leaves-conforms column metadata v metadata'
              (check_value-Leaves column metadata v metadata' (rw found at h)) (λ d. rw found d)
      ]

  analyze_column-keeps :
      (column : IndexFeature) (metadata metadata' : Metadata) (name : Bytes)
      → analyze_column column metadata ≡ ok metadata'
      → bytes_eq column.index_name name ≡ false
      → Dict.lookup name metadata' ≡ Dict.lookup name metadata
  unfolding analyze_column
  analyze_column-keeps column metadata metadata' name h n =
      let (v, e, c) = bind_ok (column_value column (Dict.lookup column.index_name metadata)) _ h in
      Leaves-keeps column metadata v metadata' name
        (check_value-Leaves column metadata v metadata' c) n

  standard_analyzer-keeps :
      (columns : Dict Bytes IndexFeature) (metadata metadata' : Metadata) (name : Bytes)
      → standard_analyzer metadata columns ≡ ok metadata'
      → All (λ e. bytes_eq name e.1.index_name ≡ false) columns
      → Dict.lookup name metadata' ≡ Dict.lookup name metadata
  unfolding standard_analyzer
  standard_analyzer-keeps [] metadata metadata' name h a = rw (ok_inj h)
  standard_analyzer-keeps ((k, column) ∷ columns) metadata metadata' name h a =
      let (mid, e, c) = bind_ok (analyze_column column metadata) _ h in
      standard_analyzer-keeps columns mid metadata' name c a.1
      ∙ analyze_column-keeps column metadata mid name e (bytes_eq_sym column.index_name name ∙ a.0)

  -- Metadata that standardAnalyzer accepts, for columns whose names differ, has under each column
  -- a value of the type that the column declares, or none where the column allows it to be missing.
  pub standard_analyzer-conforms :
      (columns : Dict Bytes IndexFeature) (metadata metadata' : Metadata)
      → NamesDiffer columns
      → standard_analyzer metadata columns ≡ ok metadata'
      → All (λ e. conforms e.1 (Dict.lookup e.1.index_name metadata') ≡ true) columns
  unfolding standard_analyzer
  standard_analyzer-conforms [] metadata metadata' d h = tt
  standard_analyzer-conforms ((k, column) ∷ columns) metadata metadata' d h =
      let (mid, e, c) = bind_ok (analyze_column column metadata) _ h in
      (
        rw (standard_analyzer-keeps columns mid metadata' column.index_name c d.0)
            (analyze_column-conforms column metadata mid e),
        standard_analyzer-conforms columns mid metadata' d.1 c,
      )
