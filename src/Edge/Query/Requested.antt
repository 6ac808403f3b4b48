-- ===== src/Edge/Query/Requested.antt =====
-- What a request asks for, beside the expression that is made of it.
use coltt.Prelude.{
  ℕ, zero, suc, ap, [], ◌∷◌, get_or, ◌≡◌, refl, ◌∙◌, Bool-cases, inl, inr, Bool, true, false, ◌&&◌,
  ◌||◌, arith, if◌then◌else◌, ◌==◌,
}
use coltt.Prelude.Bytes.{Bytes}
use coltt.Prelude.Dict.{Dict}
use coltt.Prelude.Float.{Floats}
use coltt.Prelude.Outcome.{ok, err, unsupported_filter_value}
use coltt.Inverted.Value.{Value, null, int64, float64, string, bool}
use coltt.Inverted.Filter.{
  FilterOp, op_equal, op_not_equal, op_greater_than, op_greater_than_equal, op_less_than,
  op_less_than_equal, FilterExpression, single, composite, nil_expression, Expressions, nil, cons,
}
use coltt.Inverted.Roaring.{Roaring}
use coltt.Inverted.Search.Meaning.{meets, meets_single, meets_each, meets_some}
use coltt.Edge.Query.{
  ProtoValue, string_val, int_val, float_val, bool_val, unset_val, ProtoExpression, filter,
  composite_of, unset, ProtoExpressions, no_more, more, convert_proto_op,
  convert_proto_logical_operator, filter_value, query_expr_analyzer, query_exprs,
}

abbrev pub has_value : ProtoValue → Bool
has_value unset_val = false
has_value v = true

abbrev pub asked_value : ProtoValue → Value
asked_value (string_val s) = string s
asked_value (int_val z) = int64 z
asked_value (float_val x) = float64 x
asked_value (bool_val b) = bool b
asked_value unset_val = null

unfoldable mutual
  -- Every filter of the request has a value.
  pub valued : ProtoExpression → Bool
  valued (filter f) = has_value f.value
  valued (composite_of op pes) = valued_each pes
  valued unset = true

  pub valued_each : ProtoExpressions → Bool
  valued_each no_more = true
  valued_each (more pe pes) = valued pe && valued_each pes

filter_value-unset :
    (v : ProtoValue) → has_value v ≡ false → filter_value v ≡ err unsupported_filter_value
unfolding filter_value
filter_value-unset unset_val h = refl
filter_value-unset v h = cc

filter_value-asked : (v : ProtoValue) → has_value v ≡ true → filter_value v ≡ ok (asked_value v)
unfolding filter_value
filter_value-asked unset_val h = cc
filter_value-asked v h = refl

mutual
  unfolding valued query_expr_analyzer

  accepted_lem :
      (pe : ProtoExpression)
      → valued pe ≡ true
      → (expr : FilterExpression) × (query_expr_analyzer pe ≡ ok expr)
  accepted_lem (filter f) h = (
    single (record {
      index_name = f.index_name;
      op = convert_proto_op f.op;
      value = asked_value f.value;
    }),
    rw (filter_value-asked f.value h) refl,
  )
  accepted_lem (composite_of op pes) h =
      let (exprs, e) = accepted_each pes h in
      (composite (convert_proto_logical_operator op) exprs, rw e refl)
  accepted_lem unset h = (nil_expression, refl)

  accepted_each :
      (pes : ProtoExpressions)
      → valued_each pes ≡ true
      → (exprs : Expressions) × (query_exprs pes ≡ ok exprs)
  accepted_each no_more h = (nil, refl)
  accepted_each (more pe pes) h =
      let (expr, e) = accepted_lem pe (ground arith) in
      let (exprs, e') = accepted_each pes (ground arith) in (cons expr exprs, rw (e, e') refl)

mutual
  unfolding valued query_expr_analyzer

  refused_lem :
      (pe : ProtoExpression)
      → valued pe ≡ false
      → query_expr_analyzer pe ≡ err unsupported_filter_value
  refused_lem (filter f) h = rw (filter_value-unset f.value h)
  refused_lem (composite_of op pes) h = rw (refused_each pes h)
  refused_lem unset h = cc

  refused_each :
      (pes : ProtoExpressions)
      → valued_each pes ≡ false
      → query_exprs pes ≡ err unsupported_filter_value
  refused_each no_more h = cc
  refused_each (more pe pes) h = elim (Bool-cases (valued pe)) [
    | inr e ↦ rw (refused_lem pe e)
    | inl e ↦ let (expr, ok_e) = accepted_lem pe e in rw (ok_e, refused_each pes (ground arith))
  ]

-- A request with a filter without a value, however deep, is refused.
pub query_expr_analyzer-refused :
    (pe : ProtoExpression)
    → valued pe ≡ false
    → query_expr_analyzer pe ≡ err unsupported_filter_value
query_expr_analyzer-refused = refused_lem

-- The operators of a request by their numbers in idl/proto/v4/edge.proto: EQ, NEQ, GT, GTE, LT and
-- LTE; any other number is an equality.
abbrev pub asked_op : ℕ → FilterOp
asked_op number =
    get_or
      (op_equal ∷ op_not_equal ∷ op_greater_than ∷ op_greater_than_equal ∷ op_less_than
        ∷ op_less_than_equal ∷ [])
      number op_equal

convert_proto_op-asked : (number : ℕ) → convert_proto_op number ≡ asked_op number
unfolding convert_proto_op
convert_proto_op-asked zero = refl
convert_proto_op-asked (suc zero) = refl
convert_proto_op-asked (suc (suc zero)) = refl
convert_proto_op-asked (suc (suc (suc zero))) = refl
convert_proto_op-asked (suc (suc (suc (suc zero)))) = refl
convert_proto_op-asked (suc (suc (suc (suc (suc zero))))) = refl
convert_proto_op-asked (suc (suc (suc (suc (suc (suc n)))))) = ground arith

module _ {B : Type 0} ⦃floats : Floats⦄ ⦃roaring : Roaring B⦄ (view : Bytes → Dict Value B) where
  -- The id meets the request: a filter by its operator, an OR by some part, another by each part.
  unfoldable mutual
    pub requested : ProtoExpression → ℕ → Bool
    requested (filter f) id =
        meets_single view
          (record { index_name = f.index_name; op = asked_op f.op; value = asked_value f.value }) id
    requested (composite_of op pes) id =
        let one = requested_some pes id in
        let each = requested_each pes id in if op == 1 then one else each
    requested unset id = false

    pub requested_each : ProtoExpressions → ℕ → Bool
    requested_each no_more id = true
    requested_each (more pe pes) id = requested pe id && requested_each pes id

    pub requested_some : ProtoExpressions → ℕ → Bool
    requested_some no_more id = false
    requested_some (more pe pes) id = requested pe id || requested_some pes id

  meets-composite :
      (op : ℕ) (exprs : Expressions) (id : ℕ)
      → meets view (composite (convert_proto_logical_operator op) exprs) id
        ≡ (if op == 1 then meets_some view exprs id else meets_each view exprs id)
  unfolding meets convert_proto_logical_operator
  meets-composite op exprs id = elim (Bool-cases (op == 1)) [ inl e ↦ rw e | inr e ↦ rw e ]

  mutual
    unfolding valued query_expr_analyzer requested meets

    analyzer_lem :
        (pe : ProtoExpression)
        → valued pe ≡ true
        → (expr : FilterExpression) × (query_expr_analyzer pe ≡ ok expr)
          × ((id : ℕ) → meets view expr id ≡ requested pe id)
    analyzer_lem (filter f) h = (
      single _,
      rw (filter_value-asked f.value h) refl,
      λ id.
          ap
            (λ op.
              meets_single view
                (record { index_name = f.index_name; op = op; value = asked_value f.value }) id)
            (convert_proto_op-asked f.op),
    )
    analyzer_lem (composite_of op pes) h =
        let (exprs, e, each, some) = exprs_lem pes h in
        (
          composite (convert_proto_logical_operator op) exprs,
          rw e refl,
          λ id. meets-composite op exprs id ∙ rw (each id, some id),
        )
    analyzer_lem unset h = (nil_expression, refl, λ id. refl)

    exprs_lem :
        (pes : ProtoExpressions)
        → valued_each pes ≡ true
        → (exprs : Expressions) × (query_exprs pes ≡ ok exprs)
          × ((id : ℕ) → meets_each view exprs id ≡ requested_each pes id)
          × ((id : ℕ) → meets_some view exprs id ≡ requested_some pes id)
    exprs_lem no_more h = (nil, refl, (λ id. refl), λ id. refl)
    exprs_lem (more pe pes) h =
        let (expr, e, m) = analyzer_lem pe (ground arith) in
        let (exprs, e', each, some) = exprs_lem pes (ground arith) in
        (
          cons expr exprs,
          rw (e, e') refl,
          (λ id. rw (m id, each id) refl),
          λ id. rw (m id, some id) refl,
        )

  -- A request in which every filter has a value becomes an expression that an id meets just where
  -- it meets the request.
  pub query_expr_analyzer-requested :
      (pe : ProtoExpression)
      → valued pe ≡ true
      → (expr : FilterExpression) × (query_expr_analyzer pe ≡ ok expr)
        × ((id : ℕ) → meets view expr id ≡ requested pe id)
  query_expr_analyzer-requested = analyzer_lem
