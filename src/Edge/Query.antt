-- ===== src/Edge/Query.antt =====
-- queryExprAnalyzer of edge/edge_analyzer.go and the conversions of edge/edge_helper.go: a filter
-- expression of a request becomes one of pkg/inverted.
pub mod Requested
use coltt.Prelude.{ℕ, Bool, Option, none, some, if◌then◌else◌, ◌==◌}
use coltt.Prelude.Bytes.{Bytes}
use coltt.Prelude.Int.{ℤ}
use coltt.Prelude.Outcome.{Outcome, ok, err, panic, ◌>>=◌, unsupported_filter_value}
use coltt.Inverted.Value.{Value, int64, float64, string, bool}
use coltt.Inverted.Filter.{
  FilterOp, op_equal, op_not_equal, op_greater_than, op_greater_than_equal, op_less_than,
  op_less_than_equal, Filter, LogicalOp, logical_and, logical_or, FilterExpression, single,
  composite, nil_expression, Expressions, nil, cons,
}

-- edgepb.Op by its number; a number that is not named is an equality
unfoldable pub convert_proto_op : ℕ → FilterOp
convert_proto_op op =
    if op == 1
    then op_not_equal
    else if op == 2
    then op_greater_than
    else if op == 3
    then op_greater_than_equal
    else if op == 4
    then op_less_than
    else if op == 5
    then op_less_than_equal
    else op_equal

-- edgepb.LogicalOperator by its number; OR is 1
unfoldable pub convert_proto_logical_operator : ℕ → LogicalOp
convert_proto_logical_operator op = if op == 1 then logical_or else logical_and

-- the oneof of a SearchFilter's value
pub data ProtoValue : Type 0 where
  string_val : Bytes → ProtoValue
  int_val : ℤ → ProtoValue
  float_val : ℕ → ProtoValue
  bool_val : Bool → ProtoValue
  unset_val : ProtoValue

-- edgepb.SearchFilter
pub record ProtoFilter : Type 0 where
  pub index_name : Bytes
  pub op : ℕ
  pub value : ProtoValue

-- edgepb.FilterExpression: a filter, a composite, or neither
mutual
  pub data ProtoExpression : Type 0 where
    filter : ProtoFilter → ProtoExpression
    composite_of : ℕ → ProtoExpressions → ProtoExpression
    unset : ProtoExpression

  pub data ProtoExpressions : Type 0 where
    no_more : ProtoExpressions
    more : ProtoExpression → ProtoExpressions → ProtoExpressions

unfoldable pub filter_value : ProtoValue → Outcome Value
filter_value (string_val s) = ok (string s)
filter_value (int_val z) = ok (int64 z)
filter_value (float_val x) = ok (float64 x)
filter_value (bool_val b) = ok (bool b)
filter_value unset_val = err unsupported_filter_value

unfoldable mutual
  pub query_expr_analyzer : ProtoExpression → Outcome FilterExpression
  query_expr_analyzer (filter f) = do
    value ← filter_value f.value
    ok (single (record { index_name = f.index_name; op = convert_proto_op f.op; value = value }))
  query_expr_analyzer (composite_of op pes) = do
    exprs ← query_exprs pes
    ok (composite (convert_proto_logical_operator op) exprs)
  query_expr_analyzer unset = ok nil_expression

  -- the loop over comp.Expressions
  pub query_exprs : ProtoExpressions → Outcome Expressions
  query_exprs no_more = ok nil
  query_exprs (more pe pes) = do
    fe ← query_expr_analyzer pe
    exprs ← query_exprs pes
    ok (cons fe exprs)
