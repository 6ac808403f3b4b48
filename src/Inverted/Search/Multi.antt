-- ===== src/Inverted/Search/Multi.antt =====
-- SearchMultiFilter: the conjunction of a list of filters.
use coltt.Prelude.{ℕ, ◌≡◌, refl, ◌∙◌, true, ◌&&◌, some, List, [], ◌∷◌, any, all, ◌==◌, arith}
use coltt.Prelude.Bytes.{Bytes}
use coltt.Prelude.Dict.{Dict}
use coltt.Prelude.Float.{Floats}
use coltt.Prelude.Outcome.{ok}
use coltt.Inverted.Value.{Value}
use coltt.Inverted.Filter.{Filter}
use coltt.Inverted.Roaring.{Roaring}
use coltt.Inverted.Index.{BitmapIndex, get_shard}
use coltt.Inverted.Index.Postings.{bitmaps, shard-get_shard, bitmaps-get_shard}
use coltt.Inverted.Search.{evaluate_single_filter, multi_loop, search_multi_filter}
use coltt.Inverted.Search.Meaning.{answers_single, meets_single}
use coltt.Inverted.Search.Total.{single_lem}

module _ {B : Type 0} ⦃floats : Floats⦄ ⦃roaring : Roaring B⦄ (view : Bytes → Dict Value B) where
  -- A call that returns a bitmap of the ids that pass the test, and changes no bitmap of the index.
  evaluate_lem :
      (f : Filter) (idx : BitmapIndex B)
      → ((k : Bytes) → bitmaps k idx ≡ view k)
      → answers_single view f ≡ true
      → (bm : B) × (idx' : BitmapIndex B) × (evaluate_single_filter f idx ≡ (ok bm, idx'))
        × ((id : ℕ) → roaring.contains bm id ≡ meets_single view f id)
        × ((k : Bytes) → bitmaps k idx' ≡ view k)
  unfolding evaluate_single_filter
  evaluate_lem f idx s h =
      let e = shard-get_shard f.index_name idx ∙ s f.index_name in
      let (bm, q, c) = single_lem f (view f.index_name) h in
      (
        bm,
        (get_shard f.index_name idx).1,
        rw (e, q),
        c,
        λ k. bitmaps-get_shard f.index_name k idx ∙ s k,
      )

  multi_lem :
      (filters : List Filter) (r : B) (idx : BitmapIndex B)
      → ((k : Bytes) → bitmaps k idx ≡ view k)
      → all (answers_single view) filters ≡ true
      → (bm : B) × (idx' : BitmapIndex B) × (multi_loop filters (some r) idx ≡ (ok (some bm), idx'))
        × ((id : ℕ)
            → roaring.contains bm id
              ≡ (roaring.contains r id && all (λ f. meets_single view f id) filters))
        × ((k : Bytes) → bitmaps k idx' ≡ view k)
  unfolding multi_loop
  multi_lem [] r idx s h = (r, idx, refl, λ id. ground arith, s)
  multi_lem (f ∷ filters) r idx s h =
      let (bm, idx', q, c, s') = evaluate_lem f idx s (ground arith) in
      let (bm', idx'', q', c', s'') = multi_lem filters (roaring.and r bm) idx' s' (ground arith) in
      (bm', idx'', rw q q', λ id. ground (arith, c id, c' id, roaring.contains-and id r bm), s'')

module _ {B : Type 0} ⦃floats : Floats⦄ ⦃roaring : Roaring B⦄ where
  -- Filters that can each be evaluated, at least one, are answered with exactly the ids that meet
  -- them all, and the search leaves every bitmap of the index as it was.
  pub search_multi_filter-total :
      (f : Filter) (filters : List Filter) (idx : BitmapIndex B)
      → all (answers_single (λ k. bitmaps k idx)) (f ∷ filters) ≡ true
      → (ids : List ℕ) × (idx' : BitmapIndex B) × (search_multi_filter (f ∷ filters) idx
          ≡ (ok ids, idx'))
        × ((id : ℕ)
            → any (λ i. i == id) ids
              ≡ all (λ g. meets_single (λ k. bitmaps k idx) g id) (f ∷ filters))
        × ((k : Bytes) → bitmaps k idx' ≡ bitmaps k idx)
  unfolding search_multi_filter
  search_multi_filter-total f filters idx h =
      let (bm, idx', q, c, s') =
        evaluate_lem (λ k. bitmaps k idx) f idx (λ k. refl) (ground arith) in
      let (bm', idx'', q', c', s'') =
        multi_lem (λ k. bitmaps k idx) filters bm idx' s' (ground arith) in
      (
        roaring.to_array bm',
        idx'',
        rw (q, multi_loop) (rw q'),
        λ id. roaring.any-to_array id bm' ∙ ground (arith, c id, c' id),
        s'',
      )
