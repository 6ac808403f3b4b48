-- ===== src/Inverted/Search.antt =====
-- pkg/inverted/search.go: filters evaluated to bitmaps, and the searches. A nil bitmap pointer is
-- `none`; a method call on it panics.
pub mod Meaning
pub mod Total
pub mod Multi
use coltt.Prelude.{ℕ, Bool, true, false, Option, none, some, List, [], ◌∷◌, if◌then◌else◌}
use coltt.Prelude.Dict
use coltt.Prelude.Dict.{Dict}
use coltt.Prelude.Float.{Floats}
use coltt.Prelude.Outcome.{
  Outcome, ok, err, panic, ◌>>=◌, continue, unsupported_composite_op, empty_expression,
}
use coltt.Inverted.Value.{Value, value_key, hashable}
use coltt.Inverted.Filter.{
  Filter, FilterOp, op_equal, LogicalOp, logical_and, logical_or, other_logical, FilterExpression,
  single, composite, empty, nil_expression, Expressions, nil, cons,
}
use coltt.Inverted.Compare.{satisfies_op}
use coltt.Inverted.Roaring.{Roaring}
use coltt.Inverted.Index.{BitmapIndex, get_shard}

abbrev pub is_equal : FilterOp → Bool
is_equal op_equal = true
is_equal op = false

module _ {B : Type 0} ⦃floats : Floats⦄ ⦃roaring : Roaring B⦄ where
  -- the loop over shard.ShardIndex
  unfoldable pub or_matching : Filter → Dict Value B → B → Outcome B
  or_matching f [] result = ok result
  or_matching f ((key, bm) ∷ m) result = do
    match ← satisfies_op f key
    or_matching f m (if match then roaring.or result bm else result)

  -- the lookup for OpEqual
  unfoldable pub or_equal : Filter → Dict Value B → Outcome B
  or_equal f m =
      if hashable f.value
      then ok (elim (Dict.lookup f.value m) [
        | none ↦ roaring.new
        | some bm ↦ roaring.or roaring.new bm
      ])
      else panic

  unfoldable pub evaluate_single_filter : Filter → BitmapIndex B → Outcome B × BitmapIndex B
  evaluate_single_filter f idx =
      let (shard, idx') = get_shard f.index_name idx in
      let m = shard.shard_index in
      (if is_equal f.op then or_equal f m else or_matching f m roaring.new, idx')

  -- result == nil takes a clone of the operand; bm.Clone() and And(nil) panic on a nil operand
  abbrev pub and_operand : Option B → Option B → Outcome B
  and_operand result none = panic
  and_operand none (some bm) = ok bm
  and_operand (some r) (some bm) = ok (roaring.and r bm)

  abbrev pub or_operand : B → Option B → Outcome B
  or_operand r none = panic
  or_operand r (some bm) = ok (roaring.or r bm)

  abbrev some_bitmap : Outcome B × BitmapIndex B → Outcome (Option B) × BitmapIndex B
  some_bitmap r = continue r (λ bm idx. (ok (some bm), idx))

  unfoldable mutual
    pub evaluate_filter_expression :
        FilterExpression → BitmapIndex B → Outcome (Option B) × BitmapIndex B
    evaluate_filter_expression (single f) idx = some_bitmap (evaluate_single_filter f idx)
    evaluate_filter_expression (composite logical_and es) idx = and_loop es none idx
    evaluate_filter_expression (composite logical_or es) idx = or_loop es roaring.new idx
    evaluate_filter_expression (composite other_logical es) idx =
        (err unsupported_composite_op, idx)
    evaluate_filter_expression empty idx = (err empty_expression, idx)
    evaluate_filter_expression nil_expression idx = (panic, idx)

    pub and_loop : Expressions → Option B → BitmapIndex B → Outcome (Option B) × BitmapIndex B
    and_loop nil result idx = (ok result, idx)
    and_loop (cons e es) result idx =
        continue (evaluate_filter_expression e idx) (λ bm idx'.
          continue (and_operand result bm, idx') (λ r idx''. and_loop es (some r) idx''))

    pub or_loop : Expressions → B → BitmapIndex B → Outcome (Option B) × BitmapIndex B
    or_loop nil result idx = (ok (some result), idx)
    or_loop (cons e es) result idx =
        continue (evaluate_filter_expression e idx)
          (λ bm idx'. continue (or_operand result bm, idx') (λ r idx''. or_loop es r idx''))

  -- bm.ToArray()
  abbrev pub to_array : Option B → BitmapIndex B → Outcome (List ℕ) × BitmapIndex B
  to_array none idx = (panic, idx)
  to_array (some bm) idx = (ok (roaring.to_array bm), idx)

  unfoldable pub search_single_filter : Filter → BitmapIndex B → Outcome (List ℕ) × BitmapIndex B
  search_single_filter f idx =
      continue (evaluate_single_filter f idx) (λ bm idx'. to_array (some bm) idx')

  multi_loop : List Filter → Option B → BitmapIndex B → Outcome (Option B) × BitmapIndex B
  multi_loop [] result idx = (ok result, idx)
  multi_loop (f ∷ filters) result idx = continue (evaluate_single_filter f idx) (λ bm idx'.
      continue (and_operand result (some bm), idx') (λ r idx''. multi_loop filters (some r) idx''))

  -- result stays nil if there is no filter
  unfoldable pub search_multi_filter :
      List Filter → BitmapIndex B → Outcome (List ℕ) × BitmapIndex B
  unfolding multi_loop
  search_multi_filter filters idx = continue (multi_loop filters none idx) to_array

  unfoldable pub search_with_expression :
      FilterExpression → BitmapIndex B → Outcome (List ℕ) × BitmapIndex B
  search_with_expression expr idx = continue (evaluate_filter_expression expr idx) to_array
