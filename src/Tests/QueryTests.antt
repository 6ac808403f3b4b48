-- ===== src/Tests/QueryTests.antt =====
-- The translation of requests at concrete inputs.
use coltt.Prelude.{ℕ, ◌≡◌, refl, List, [], ◌∷◌}
use coltt.Prelude.Int.{pos}
use coltt.Prelude.Outcome.{ok, err, unsupported_filter_value}
use coltt.Inverted.Filter.{FilterExpression}
use coltt.Inverted.Index.{BitmapIndex, new_bitmap_index}
use coltt.Inverted.Index.Postings.{bitmaps}
use coltt.Inverted.Search.Meaning.{meets}
use coltt.Edge.Query.{
  int_val, unset_val, ProtoExpression, filter, composite_of, no_more, more, query_expr_analyzer,
}
use coltt.Edge.Query.Requested.{
  valued, requested, query_expr_analyzer-requested, query_expr_analyzer-refused,
}
use coltt.Tests.Instances.{list_roaring, test_floats}

-- "k" greater than 1
abbrev above_one : ProtoExpression
above_one = filter (record { index_name = b'k' ∷ []; op = 2; value = int_val (pos 1) })

abbrev without_value : ProtoExpression
without_value = filter (record { index_name = b'k' ∷ []; op = 0; value = unset_val })

abbrev either : ProtoExpression
either = composite_of 1 (more above_one (more above_one no_more))

abbrev index : BitmapIndex (List ℕ)
index = new_bitmap_index

query_expr_analyzer-requested_example :
    (expr : FilterExpression) × (query_expr_analyzer either ≡ ok expr)
    × ((id : ℕ) → meets (λ k. bitmaps k index) expr id ≡ requested (λ k. bitmaps k index) either id)
unfolding valued
query_expr_analyzer-requested_example =
    query_expr_analyzer-requested (λ k. bitmaps k index) either refl

query_expr_analyzer-refused_example :
    query_expr_analyzer (composite_of 0 (more above_one (more without_value no_more)))
    ≡ err unsupported_filter_value
unfolding valued
query_expr_analyzer-refused_example =
    query_expr_analyzer-refused (composite_of 0 (more above_one (more without_value no_more))) refl
