-- ===== src/Tests/InvertedTests.antt =====
-- The theorems on pkg/inverted at concrete inputs.
use coltt.Prelude.{
  ℕ, ◌≡◌, ◌≢◌, refl, true, false, not, ◌&&◌, ◌||◌, List, [], ◌∷◌, any, all, arith, ◌==◌,
}
use coltt.Prelude.Bytes.{Bytes, bytes_eq}
use coltt.Prelude.Dict.{bytes_key, lookup}
use coltt.Prelude.Int.{pos, neg, parse_int}
use coltt.Prelude.Outcome.{ok, panic}
use coltt.Inverted.Value.{Value, int64, string, float64, value_eq, value_key, identity}
use coltt.Inverted.Filter.{
  Filter, op_greater_than, op_greater_than_equal, op_less_than, op_less_than_equal, logical_and,
  FilterExpression, single, composite, nil, cons,
}
use coltt.Inverted.Compare.{compare_values, satisfies_op, compare_int}
use coltt.Inverted.Compare.Order.{
  compare_values-swap, compare_values_zero, satisfies_op-opposite, satisfies_op-nan, opposite,
}
use coltt.Inverted.Index.{BitmapIndex, Metadata, new_bitmap_index, add, remove, get_shard}
use coltt.Inverted.Index.Postings.{posted, tags, posted-add, bitmaps}
use coltt.Inverted.Index.Removal.{posted-remove, remove-add}
use coltt.Inverted.Search.{
  evaluate_single_filter, or_matching, evaluate_filter_expression, search_with_expression,
  search_single_filter, search_multi_filter,
}
use coltt.Inverted.Search.Meaning.{answers, meets, meets_single}
use coltt.Inverted.Search.Total.{search_with_expression-total, search_single_filter-fails}
use coltt.Inverted.Search.Multi.{search_multi_filter-total}
use coltt.Inverted.Codec.{serialize_binary, deserialize_binary}
use coltt.Inverted.Codec.RoundTrip.{deserialize_binary-serialize_binary}
use coltt.Tests.Instances.{list_roaring, test_floats}

-- "k", and a value under it
abbrev key : Bytes
key = b'k' ∷ []

abbrev one : Metadata
one = (key, int64 (pos 1)) ∷ []

abbrev two : Metadata
two = (key, int64 (pos 2)) ∷ []

compare_values-swap_example : compare_values (string (b'7' ∷ [])) (int64 (pos 9)) ≡ ok (neg (pos 1))
unfolding compare_values parse_int compare_int
compare_values-swap_example =
    compare_values-swap (int64 (pos 9)) (string (b'7' ∷ [])) (pos 1) refl refl

compare_values_zero_example : compare_values (int64 (pos 3)) (int64 (pos 3)) ≡ ok (pos 0)
unfolding value_eq identity bytes_eq
compare_values_zero_example = compare_values_zero (int64 (pos 3)) (int64 (pos 3)) refl refl

abbrev above_one : Filter
above_one = record { index_name = key; op = op_greater_than; value = int64 (pos 1) }

satisfies_op-opposite_example :
    satisfies_op (record above_one { op = opposite op_greater_than }) (int64 (pos 2)) ≡ ok false
unfolding satisfies_op compare_int
satisfies_op-opposite_example = satisfies_op-opposite above_one (int64 (pos 2)) true refl

satisfies_op-nan_example :
    (satisfies_op
        (record above_one { op = op_greater_than_equal; value = float64 0 })
        (float64 0x7ff8000000000000)
      ≡ ok true)
    × (satisfies_op
          (record above_one { op = op_less_than_equal; value = float64 0 })
          (float64 0x7ff8000000000000)
        ≡ ok true)
    × (satisfies_op
          (record above_one { op = op_greater_than; value = float64 0 })
          (float64 0x7ff8000000000000)
        ≡ ok false)
    × (satisfies_op
          (record above_one { op = op_less_than; value = float64 0 })
          (float64 0x7ff8000000000000)
        ≡ ok false)
satisfies_op-nan_example =
    satisfies_op-nan (record above_one { value = float64 0 }) 0x7ff8000000000000 0 refl refl

abbrev empty_index : BitmapIndex (List ℕ)
empty_index = new_bitmap_index

-- ids 7 and 9 under 1, id 8 under 2
abbrev filled : BitmapIndex (List ℕ)
filled = record {
  shards =
      (key, record { shard_index = (int64 (pos 1), 7 ∷ 9 ∷ []) ∷ (int64 (pos 2), 8 ∷ []) ∷ [] })
      ∷ [];
}

posted-add_example :
    ((add 8 one filled).0 ≡ ok tt)
    × ((k : Bytes) (v : Value) (j : ℕ)
        → posted (add 8 one filled).1 k v j ≡ ((tags one k v && 8 == j) || posted filled k v j))
posted-add_example = posted-add 8 one filled refl

posted-remove_example :
    ((remove 7 one filled).0 ≡ ok tt)
    × ((k : Bytes) (v : Value) (j : ℕ)
        → posted (remove 7 one filled).1 k v j
          ≡ (not (tags one k v && 7 == j) && posted filled k v j))
posted-remove_example = posted-remove 7 one filled refl

fresh : (k : Bytes) (v : Value) → tags one k v ≡ true → posted empty_index k v 3 ≡ false
unfolding posted bitmaps lookup
fresh k v h = refl

remove-add_example :
    posted (remove 3 one (add 3 one empty_index).1).1 key (int64 (pos 1)) 3
    ≡ posted empty_index key (int64 (pos 1)) 3
remove-add_example = remove-add 3 one empty_index refl fresh key (int64 (pos 1)) 3

abbrev both : FilterExpression
both = composite logical_and (
    cons (single above_one)
      (cons (single (record above_one { op = op_less_than; value = int64 (pos 5) })) nil))

search_with_expression-total_example :
    (ids : List ℕ) × (idx' : BitmapIndex (List ℕ)) × (search_with_expression both filled
      ≡ (ok ids, idx'))
    × ((id : ℕ) → any (λ i. i == id) ids ≡ meets (λ k. bitmaps k filled) both id)
    × ((k : Bytes) → bitmaps k idx' ≡ bitmaps k filled)
unfolding answers bitmaps lookup satisfies_op compare_values compare_int bytes_eq
search_with_expression-total_example = search_with_expression-total both filled refl

search_single_filter-fails_example :
    (search_single_filter (record above_one { value = string key }) filled).0 ≢ ok (8 ∷ [])
unfolding bitmaps lookup satisfies_op compare_values parse_int bytes_eq
search_single_filter-fails_example =
    search_single_filter-fails (record above_one { value = string key }) filled (8 ∷ []) refl refl

search_multi_filter-total_example :
    (ids : List ℕ) × (idx' : BitmapIndex (List ℕ)) × (search_multi_filter (above_one ∷ []) filled
      ≡ (ok ids, idx'))
    × ((id : ℕ)
        → any (λ i. i == id) ids
          ≡ all (λ g. meets_single (λ k. bitmaps k filled) g id) (above_one ∷ []))
    × ((k : Bytes) → bitmaps k idx' ≡ bitmaps k filled)
unfolding bitmaps lookup satisfies_op compare_values compare_int bytes_eq
search_multi_filter-total_example = search_multi_filter-total above_one [] filled refl

deserialize_binary-serialize_binary_example :
    (s : Bytes) × (idx' : BitmapIndex (List ℕ)) × (serialize_binary filled ≡ ok s)
    × (deserialize_binary s empty_index ≡ (ok tt, idx'))
    × ((k : Bytes) (v : Value) (j : ℕ) → posted idx' k v j ≡ posted filled k v j)
unfolding lookup value_eq identity bytes_eq
deserialize_binary-serialize_binary_example =
    deserialize_binary-serialize_binary filled (omega arith) (refl, (refl, (refl, tt)), tt)
      (omega arith)

-- Searches over the filled index, run.
finds_above_one : (search_single_filter above_one filled).0 ≡ ok (8 ∷ [])
unfolding search_single_filter evaluate_single_filter or_matching get_shard lookup satisfies_op
    compare_values compare_int bytes_eq
finds_above_one = refl

-- A conjunction of no filters leaves the result nil.
empty_conjunction : (search_with_expression (composite logical_and nil) filled).0 ≡ panic
unfolding search_with_expression evaluate_filter_expression
empty_conjunction = refl
