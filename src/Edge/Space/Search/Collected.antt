-- ===== src/Edge/Space/Search/Collected.antt =====
-- What both modes of a search collect of the items of the shards.
use coltt.Prelude.{
  ℕ, zero, suc, ◌≤◌, ◌≡◌, refl, ◌∙◌, sym, Bool, true, false, not, ◌&&◌, List, [], ◌∷◌, ◌++◌, all,
  min, arith,
}
use coltt.Prelude.Int.{pos}
use coltt.Prelude.Float.{float32_nan}
use coltt.Prelude.Count.{count, count-append}
use coltt.Edge.Queue.{
  SearchResultItem, PriorityQueue, Sorter, Ascending, new_priority_queue, add_all, values, to_slice,
}
use coltt.Edge.Queue.Selection.{Selects, reaches, values-Selects}
use coltt.Edge.Space.Search.{add_shards, add_results, shard_results, collect}

add_all-append :
    (xs ys : List SearchResultItem) (pq : PriorityQueue)
    → add_all (xs ++ ys) pq ≡ add_all ys (add_all xs pq)
unfolding add_all
add_all-append [] ys pq = refl
add_all-append (x ∷ xs) ys pq = add_all-append xs ys _

-- The items of `n` shards, from `shard` on.
unfoldable pub items_from : (ℕ → List SearchResultItem) → ℕ → ℕ → List SearchResultItem
items_from items zero shard = []
items_from items (suc n) shard = items shard ++ items_from items n (suc shard)

abbrev pub all_numbers : List SearchResultItem → Bool
all_numbers items = all (λ item. not (float32_nan item.score)) items

all_numbers-append :
    (xs ys : List SearchResultItem) → all_numbers (xs ++ ys) ≡ (all_numbers xs && all_numbers ys)
all_numbers-append [] ys = refl
all_numbers-append (x ∷ xs) ys = ground (arith, all_numbers-append xs ys)

-- A part of the items has only numbers where the items do.
pub numbers_by_count :
    (xs : List SearchResultItem) → count (λ x. float32_nan x.score) xs ≡ 0 → all_numbers xs ≡ true
unfolding count
numbers_by_count [] h = refl
numbers_by_count (x ∷ xs) h = ground (arith, numbers_by_count xs)

pub count-numbers :
    (xs : List SearchResultItem) → all_numbers xs ≡ true → count (λ x. float32_nan x.score) xs ≡ 0
unfolding count
count-numbers [] h = refl
count-numbers (x ∷ xs) h = ground (arith, count-numbers xs)

add_shards-items_from :
    (items : ℕ → List SearchResultItem) (n shard : ℕ) (pq : PriorityQueue)
    → add_shards items n shard pq ≡ add_all (items_from items n shard) pq
unfolding add_shards items_from add_all
add_shards-items_from items zero shard pq = refl
add_shards-items_from items (suc n) shard pq =
    add_shards-items_from items n (suc shard) _
    ∙ sym (add_all-append (items shard) (items_from items n (suc shard)) pq)

joined : List (List SearchResultItem) → List SearchResultItem
joined [] = []
joined (res ∷ results) = res ++ joined results

add_results-joined :
    (results : List (List SearchResultItem)) (pq : PriorityQueue)
    → add_results results pq ≡ add_all (joined results) pq
unfolding add_results joined add_all
add_results-joined [] pq = refl
add_results-joined (res ∷ results) pq =
    add_results-joined results _ ∙ sym (add_all-append res (joined results) pq)

-- The parts that are selected from two lists, side by side, hold all that a selection needs.
record Enough (k : ℕ) (items kept : List SearchResultItem) : Type 0 where
  part : (p : SearchResultItem → Bool) → count p kept ≤ count p items
  highest : (t : ℕ) → min k (count (reaches t) kept) ≡ min k (count (reaches t) items)

module _ (k : ℕ) where
  Enough-append :
      (items items' kept kept' : List SearchResultItem)
      → Selects k items kept
      → Enough k items' kept'
      → Enough k (items ++ items') (kept ++ kept')
  Enough-append items items' kept kept' s s' = record {
    part = λ p.
        omega (arith, s.part p, s'.part p, count-append p items items', count-append p kept kept');
    highest = λ t. omega (
      arith,
      s.highest t,
      s'.highest t,
      count-append (reaches t) items items',
      count-append (reaches t) kept kept',
    );
  }

  Selects-Enough :
      (items kept kept' : List SearchResultItem)
      → Enough k items kept
      → Selects k kept kept'
      → Selects k items kept'
  Selects-Enough items kept kept' s s' = record {
    part = λ p. omega (arith, s.part p, s'.part p);
    highest = λ t. omega (arith, s.highest t, s'.highest t);
  }

module _ ⦃sorter : Sorter⦄ where
  -- The results of a queue: a selection in ascending order.
  to_slice-Selects :
      (k : ℕ) (items : List SearchResultItem)
      → all_numbers items ≡ true
      → Selects k items (to_slice (add_all items (new_priority_queue (pos k))))
        × Ascending (to_slice (add_all items (new_priority_queue (pos k))))
  unfolding to_slice
  to_slice-Selects k items g =
      let s = values-Selects k items g in
      let kept = values (add_all items (new_priority_queue (pos k))) in
      (
        record {
          part = λ p. omega (arith, s.part p, sorter.count-sort_slice p kept);
          highest = λ t. sorter.count-sort_slice (reaches t) kept ∙ s.highest t;
        },
        sorter.sort_slice-Ascending kept (
            numbers_by_count kept
              (omega (arith, s.part (λ x. float32_nan x.score), count-numbers items g))),
      )

  all_numbers-Enough :
      (k : ℕ) (items kept : List SearchResultItem)
      → Enough k items kept
      → all_numbers items ≡ true
      → all_numbers kept ≡ true
  all_numbers-Enough k items kept s g =
      numbers_by_count kept
        (omega (arith, s.part (λ x. float32_nan x.score), count-numbers items g))

  shard_results-Enough :
      (k : ℕ) (items : ℕ → List SearchResultItem) (n shard : ℕ)
      → all_numbers (items_from items n shard) ≡ true
      → Enough k (items_from items n shard) (joined (shard_results items (pos k) n shard))
  unfolding items_from shard_results joined
  shard_results-Enough k items zero shard g = record {
    part = λ p. omega arith;
    highest = λ t. refl;
  }
  shard_results-Enough k items (suc n) shard g =
      let both = all_numbers-append (items shard) (items_from items n (suc shard)) in
      Enough-append k (items shard) (items_from items n (suc shard))
        (to_slice (add_all (items shard) (new_priority_queue (pos k))))
        (joined (shard_results items (pos k) n (suc shard)))
        (to_slice-Selects k (items shard) (ground arith)).0
        (shard_results-Enough k items n (suc shard) (ground arith))

  pub collect-Selects :
      (k : ℕ) (items : ℕ → List SearchResultItem) (high_cpu : Bool)
      → all_numbers (items_from items 16 0) ≡ true
      → Selects k (items_from items 16 0) (collect items (pos k) high_cpu)
        × Ascending (collect items (pos k) high_cpu)
  unfolding collect
  collect-Selects k items true g =
      let results = shard_results items (pos k) 16 0 in
      let s = shard_results-Enough k items 16 0 g in
      rw (add_results-joined results (new_priority_queue (pos k))) (
        let (t, asc) = to_slice-Selects k (joined results) (all_numbers-Enough k _ _ s g) in
        (Selects-Enough k (items_from items 16 0) (joined results) _ s t, asc))
  collect-Selects k items false g =
      rw (add_shards-items_from items 16 0 (new_priority_queue (pos k)))
        (to_slice-Selects k (items_from items 16 0) g)
