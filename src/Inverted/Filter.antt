-- ===== src/Inverted/Filter.antt =====
-- pkg/inverted/filter.go: the filters.
use coltt.Prelude.Bytes.{Bytes}
use coltt.Inverted.Value.{Value}

-- FilterOp; any other number is `other_op`
pub data FilterOp : Type 0 where
  op_equal op_not_equal op_greater_than op_greater_than_equal : FilterOp
  op_less_than op_less_than_equal other_op : FilterOp

pub record Filter : Type 0 where
  pub index_name : Bytes
  pub op : FilterOp
  pub value : Value

-- LogicalOp; any other number is `other_logical`
pub data LogicalOp : Type 0 where
  logical_and logical_or other_logical : LogicalOp

-- A FilterExpression by the first of its two pointers that is set, the order in which the code
-- tests them. A nil pointer among the operands of a composite filter is `nil_expression`.
mutual
  pub data FilterExpression : Type 0 where
    single : Filter → FilterExpression
    composite : LogicalOp → Expressions → FilterExpression
    empty nil_expression : FilterExpression

  pub data Expressions : Type 0 where
    nil : Expressions
    cons : FilterExpression → Expressions → Expressions
