-- ===== src/Inverted/Search/Meaning.antt =====
-- What a filter means over the postings of an index, by recursion on the filter.
use coltt.Prelude.{ℕ, Bool, true, false, ◌&&◌, ◌||◌, any, all, if◌then◌else◌}
use coltt.Prelude.Bytes.{Bytes}
use coltt.Prelude.Dict
use coltt.Prelude.Dict.{Dict}
use coltt.Prelude.Float.{Floats}
use coltt.Prelude.Outcome.{Outcome, ok}
use coltt.Inverted.Value.{Value, value_key, hashable}
use coltt.Inverted.Filter.{
  Filter, logical_and, logical_or, FilterExpression, single, composite, Expressions, nil, cons,
}
use coltt.Inverted.Compare.{satisfies_op}
use coltt.Inverted.Roaring.{Roaring}
use coltt.Inverted.Index.Postings.{bitmap_has}
use coltt.Inverted.Search.{is_equal}

-- A test that ended without an error; and one that ended with true.
abbrev pub answered : Outcome Bool → Bool
answered (ok b) = true
answered r = false

abbrev pub said_yes : Outcome Bool → Bool
said_yes (ok b) = b
said_yes r = false

-- `view k` are the bitmaps under the key `k`.
module _ {B : Type 0} ⦃floats : Floats⦄ ⦃roaring : Roaring B⦄ (view : Bytes → Dict Value B) where
  -- The filter's test can be made on each value under its key.
  abbrev pub answers_single : Filter → Bool
  answers_single f =
      if is_equal f.op
      then hashable f.value
      else all (λ e. answered (satisfies_op f e.0)) (view f.index_name)

  -- The id is posted under a value that satisfies the filter.
  abbrev pub meets_single : Filter → ℕ → Bool
  meets_single f id =
      if is_equal f.op
      then bitmap_has (Dict.lookup f.value (view f.index_name)) id
      else any (λ e. said_yes (satisfies_op f e.0) && roaring.contains e.1 id) (view f.index_name)

  -- Every part of the filter can be evaluated: no empty conjunction and no missing operand.
  unfoldable mutual
    pub answers : FilterExpression → Bool
    answers (single f) = answers_single f
    answers (composite logical_and (cons e es)) = answers e && answers_each es
    answers (composite logical_or es) = answers_each es
    answers e = false

    pub answers_each : Expressions → Bool
    answers_each nil = true
    answers_each (cons e es) = answers e && answers_each es

  unfoldable mutual
    pub meets : FilterExpression → ℕ → Bool
    meets (single f) id = meets_single f id
    meets (composite logical_and es) id = meets_each es id
    meets (composite logical_or es) id = meets_some es id
    meets e id = false

    pub meets_each : Expressions → ℕ → Bool
    meets_each nil id = true
    meets_each (cons e es) id = meets e id && meets_each es id

    pub meets_some : Expressions → ℕ → Bool
    meets_some nil id = false
    meets_some (cons e es) id = meets e id || meets_some es id
