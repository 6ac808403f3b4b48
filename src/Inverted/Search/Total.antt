-- ===== src/Inverted/Search/Total.antt =====
-- The evaluation of filters, beside what they mean.
use coltt.Prelude.{
  none, ap, ◌≤◌, subst, ℕ, ◌≡◌, ◌≢◌, refl, ◌∙◌, Bool, true, false, ◌&&◌, ◌||◌, Option, some, List,
  [], ◌∷◌, any, all, ◌==◌, arith, if◌then◌else◌, Bool-cases, Option-cases, inl, inr,
}
use coltt.Prelude.Bytes.{Bytes}
use coltt.Prelude.Dict
use coltt.Prelude.Dict.{Dict}
use coltt.Prelude.Count.{count}
use coltt.Prelude.Float.{Floats}
use coltt.Prelude.Outcome.{Outcome, ok, err, panic, continue}
use coltt.Inverted.Value.{Value, value_key, hashable}
use coltt.Inverted.Filter.{
  Filter, logical_and, logical_or, other_logical, FilterExpression, single, composite, empty,
  nil_expression, Expressions, nil, cons,
}
use coltt.Inverted.Compare.{satisfies_op}
use coltt.Inverted.Roaring.{Roaring}
use coltt.Inverted.Index.{BitmapIndex, get_shard}
use coltt.Inverted.Index.Postings.{bitmap_has, bitmaps, shard-get_shard, bitmaps-get_shard}
use coltt.Inverted.Search.{
  is_equal, or_matching, or_equal, evaluate_single_filter, evaluate_filter_expression, and_loop,
  or_loop, to_array, search_single_filter, search_with_expression,
}
use coltt.Inverted.Search.Meaning.{
  answered, said_yes, answers_single, meets_single, answers, answers_each, meets, meets_each,
  meets_some,
}

module _ {B : Type 0} ⦃floats : Floats⦄ ⦃roaring : Roaring B⦄ where
  or_matching_step :
      (f : Filter) (key : Value) (bm : B) (m : Dict Value B) (r : B)
      → answered (satisfies_op f key) ≡ true
      → or_matching f ((key, bm) ∷ m) r
        ≡ or_matching f m (if said_yes (satisfies_op f key) then roaring.or r bm else r)
  unfolding or_matching
  or_matching_step f key bm m r h = ground arith

  or_matching_lem :
      (f : Filter) (m : Dict Value B) (r : B)
      → all (λ e. answered (satisfies_op f e.0)) m ≡ true
      → (bm : B) × (or_matching f m r ≡ ok bm)
        × ((id : ℕ)
            → roaring.contains bm id ≡ (
                roaring.contains r id
                || any (λ e. said_yes (satisfies_op f e.0) && roaring.contains e.1 id) m))
  unfolding or_matching
  or_matching_lem f [] r h = (r, refl, λ id. ground arith)
  or_matching_lem f ((key, b) ∷ m) r h =
      let yes? = said_yes (satisfies_op f key) in
      let (bm, e, c) = or_matching_lem f m (if yes? then roaring.or r b else r) (ground arith) in
      (
        bm,
        or_matching_step f key b m r (ground arith) ∙ e,
        λ id. ground (arith, c id, roaring.contains-or id r b),
      )

  or_equal_lem :
      (f : Filter) (m : Dict Value B)
      → hashable f.value ≡ true
      → (bm : B) × (or_equal f m ≡ ok bm)
        × ((id : ℕ) → roaring.contains bm id ≡ bitmap_has (Dict.lookup f.value m) id)
  unfolding or_equal
  or_equal_lem f m h = elim (Option-cases (Dict.lookup f.value m)) [
    | inl e ↦ (roaring.new, rw (h, e), λ id. rw e (roaring.contains-new id))
    | inr (b, e) ↦ (
      roaring.or roaring.new b,
      rw (h, e),
      λ id. rw e (ground (arith, roaring.contains-or id roaring.new b, roaring.contains-new id)),
    )
  ]

  -- evaluateSingleFilter at the bitmaps of its shard
  pub single_lem :
      (f : Filter) (m : Dict Value B)
      → answers_single (λ k. m) f ≡ true
      → (bm : B) × ((if is_equal f.op then or_equal f m else or_matching f m roaring.new) ≡ ok bm)
        × ((id : ℕ) → roaring.contains bm id ≡ meets_single (λ k. m) f id)
  single_lem f m h = elim (Bool-cases (is_equal f.op)) [
    | inl e ↦ let (bm, q, c) = or_equal_lem f m (ground arith) in (bm, rw e q, λ id. rw e (c id))
    | inr e ↦
        let (bm, q, c) = or_matching_lem f m roaring.new (ground arith) in
        (bm, rw e q, λ id. rw e (ground (arith, c id, roaring.contains-new id)))
  ]

module _ {B : Type 0} ⦃floats : Floats⦄ ⦃roaring : Roaring B⦄ (view : Bytes → Dict Value B) where
  -- The index holds the bitmaps of the view.
  abbrev Shows : BitmapIndex B → Type 0
  Shows idx = (k : Bytes) → bitmaps k idx ≡ view k

  -- A call that returns a bitmap of the ids that pass the test, and changes no bitmap of the index.
  abbrev Gives : (ℕ → Bool) → Outcome (Option B) × BitmapIndex B → Type 0
  Gives p r =
      (bm : B) × (idx : BitmapIndex B) × (r ≡ (ok (some bm), idx))
      × ((id : ℕ) → roaring.contains bm id ≡ p id)
      × Shows idx

  single-Gives :
      (f : Filter) (idx : BitmapIndex B)
      → Shows idx
      → answers_single view f ≡ true
      → Gives (meets_single view f) (evaluate_filter_expression (single f) idx)
  unfolding evaluate_filter_expression evaluate_single_filter
  single-Gives f idx s h =
      let e : (get_shard f.index_name idx).0.shard_index ≡ view f.index_name =
        shard-get_shard f.index_name idx ∙ s f.index_name in
      let (bm, q, c) = single_lem f (view f.index_name) h in
      (
        bm,
        (get_shard f.index_name idx).1,
        rw (e, q),
        c,
        λ k. bitmaps-get_shard f.index_name k idx ∙ s k,
      )

  mutual
    unfolding evaluate_filter_expression answers meets

    expression-Gives :
        (e : FilterExpression) (idx : BitmapIndex B)
        → Shows idx
        → answers view e ≡ true
        → Gives (meets view e) (evaluate_filter_expression e idx)
    expression-Gives (single f) idx s h = single-Gives f idx s h
    expression-Gives (composite logical_and nil) idx s h = cc
    expression-Gives (composite logical_and (cons e es)) idx s h =
        let (bm, idx', q, c, s') = expression-Gives e idx s (ground arith) in
        let (bm', idx'', q', c', s'') = and-Gives es bm idx' s' (ground arith) in
        (bm', idx'', rw (q, and_loop) q', λ id. ground (arith, c id, c' id), s'')
    expression-Gives (composite logical_or es) idx s h =
        let (bm, idx', q, c, s') = or-Gives es roaring.new idx s h in
        (bm, idx', q, λ id. ground (arith, c id, roaring.contains-new id), s')
    expression-Gives (composite other_logical es) idx s h = cc
    expression-Gives empty idx s h = cc
    expression-Gives nil_expression idx s h = cc

    and-Gives :
        (es : Expressions) (r : B) (idx : BitmapIndex B)
        → Shows idx
        → answers_each view es ≡ true
        → Gives (λ id. roaring.contains r id && meets_each view es id) (and_loop es (some r) idx)
    and-Gives nil r idx s h = (r, idx, refl, λ id. ground arith, s)
    and-Gives (cons e es) r idx s h =
        let (bm, idx', q, c, s') = expression-Gives e idx s (ground arith) in
        let (bm', idx'', q', c', s'') = and-Gives es (roaring.and r bm) idx' s' (ground arith) in
        (bm', idx'', rw q q', λ id. ground (arith, c id, c' id, roaring.contains-and id r bm), s'')

    or-Gives :
        (es : Expressions) (r : B) (idx : BitmapIndex B)
        → Shows idx
        → answers_each view es ≡ true
        → Gives (λ id. roaring.contains r id || meets_some view es id) (or_loop es r idx)
    or-Gives nil r idx s h = (r, idx, refl, λ id. ground arith, s)
    or-Gives (cons e es) r idx s h =
        let (bm, idx', q, c, s') = expression-Gives e idx s (ground arith) in
        let (bm', idx'', q', c', s'') = or-Gives es (roaring.or r bm) idx' s' (ground arith) in
        (bm', idx'', rw q q', λ id. ground (arith, c id, c' id, roaring.contains-or id r bm), s'')

abbrev value_or : List ℕ → Outcome (List ℕ) → List ℕ
value_or ids (ok found) = found
value_or ids (err e) = ids
value_or ids panic = ids

module _ {B : Type 0} ⦃floats : Floats⦄ ⦃roaring : Roaring B⦄ where
  -- A filter expression that can be evaluated over the index is answered, with exactly the ids
  -- that meet it, and the search leaves every bitmap of the index as it was.
  pub search_with_expression-total :
      (expr : FilterExpression) (idx : BitmapIndex B)
      → answers (λ k. bitmaps k idx) expr ≡ true
      → (ids : List ℕ) × (idx' : BitmapIndex B) × (search_with_expression expr idx ≡ (ok ids, idx'))
        × ((id : ℕ) → any (λ i. i == id) ids ≡ meets (λ k. bitmaps k idx) expr id)
        × ((k : Bytes) → bitmaps k idx' ≡ bitmaps k idx)
  unfolding search_with_expression
  search_with_expression-total expr idx h =
      let (bm, idx', q, c, s) = expression-Gives (λ k. bitmaps k idx) expr idx (λ k. refl) h in
      (roaring.to_array bm, idx', rw q, λ id. roaring.any-to_array id bm ∙ c id, s)

  once_through :
      (r : Outcome (Option B)) (idx idx' : BitmapIndex B) (ids : List ℕ)
      → continue (r, idx) to_array ≡ (ok ids, idx')
      → (id : ℕ) → count (λ i. i == id) ids ≤ 1
  once_through (ok none) idx idx' ids e id = cc
  once_through (ok (some bm)) idx idx' ids e id =
      let same : ok (roaring.to_array bm) ≡ ok ids = ap (λ q. q.0) e in
      subst (λ o. count (λ i. i == id) (value_or [] o) ≤ 1) same (roaring.to_array_once id bm)
  once_through (err x) idx idx' ids e id = cc
  once_through panic idx idx' ids e id = cc

  -- No id is found twice.
  pub search_with_expression_once :
      (expr : FilterExpression) (idx idx' : BitmapIndex B) (ids : List ℕ)
      → search_with_expression expr idx ≡ (ok ids, idx')
      → (id : ℕ) → count (λ i. i == id) ids ≤ 1
  unfolding search_with_expression
  search_with_expression_once expr idx idx' ids =
      let r = evaluate_filter_expression expr idx in once_through r.0 r.1 idx' ids

  -- The same for a single filter.
  pub search_single_filter-total :
      (f : Filter) (idx : BitmapIndex B)
      → answers_single (λ k. bitmaps k idx) f ≡ true
      → (ids : List ℕ) × (idx' : BitmapIndex B) × (search_single_filter f idx ≡ (ok ids, idx'))
        × ((id : ℕ) → any (λ i. i == id) ids ≡ meets_single (λ k. bitmaps k idx) f id)
        × ((k : Bytes) → bitmaps k idx' ≡ bitmaps k idx)
  unfolding search_single_filter evaluate_single_filter
  search_single_filter-total f idx h =
      let (bm, q, c) = single_lem f (bitmaps f.index_name idx) h in
      (
        roaring.to_array bm,
        (get_shard f.index_name idx).1,
        rw (shard-get_shard f.index_name idx, q),
        λ id. roaring.any-to_array id bm ∙ c id,
        λ k. bitmaps-get_shard f.index_name k idx,
      )

  or_matching-fails :
      (f : Filter) (m : Dict Value B) (r bm : B)
      → all (λ e. answered (satisfies_op f e.0)) m ≡ false
      → or_matching f m r ≢ ok bm
  unfolding or_matching
  or_matching-fails f [] r bm h = λ e. cc
  or_matching-fails f ((key, b) ∷ m) r bm h =
      let yes? = said_yes (satisfies_op f key) in
      let rest = or_matching-fails f m (if yes? then roaring.or r b else r) bm in
      ground (arith, rest)

  fails_through :
      (r : Outcome B) (idx : BitmapIndex B) (ids : List ℕ)
      → ((bm : B) → r ≢ ok bm)
      → (continue (r, idx) (λ bm i. (ok (roaring.to_array bm), i))).0 ≢ ok ids
  fails_through (ok bm) idx ids n = λ e. n bm refl
  fails_through (err x) idx ids n = λ e. cc
  fails_through panic idx ids n = λ e. cc

  -- One value under the key that the filter's value cannot be compared with makes every search
  -- by an operator other than equality fail.
  pub search_single_filter-fails :
      (f : Filter) (idx : BitmapIndex B) (ids : List ℕ)
      → is_equal f.op ≡ false
      → answers_single (λ k. bitmaps k idx) f ≡ false
      → (search_single_filter f idx).0 ≢ ok ids
  unfolding search_single_filter evaluate_single_filter
  search_single_filter-fails f idx ids h a =
      let m = bitmaps f.index_name idx in
      rw (shard-get_shard f.index_name idx, h)
        (fails_through (or_matching f m roaring.new) (get_shard f.index_name idx).1 ids
          (λ bm. or_matching-fails f m roaring.new bm (ground arith)))
