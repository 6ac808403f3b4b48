-- ===== src/Edge/Queue.antt =====
-- edge/priority_queue.go over edge/priorityqueue/priority_queue.go: the bounded queue of results.
-- Its mutex makes each call run alone.
pub mod TopK
pub mod Selection
use coltt.Prelude.{
  ℕ, ◌≤◌, ◌≡◌, Bool, true, not, All, all, List, [], ◌∷◌, length, map, if◌then◌else◌,
}
use coltt.Prelude.Bytes.{Bytes}
use coltt.Prelude.Dict.{Dict}
use coltt.Prelude.Int.{ℤ, pos, ltb_ℤ}
use coltt.Prelude.Float.{float32_ltb, float32_nan, float32_rank}
use coltt.Inverted.Index.{Metadata}
use coltt.Prelude.Count.{count}
use coltt.Edge.Heap

pub record SearchResultItem : Type 0 where
  pub id : ℕ
  pub metadata : Metadata
  pub score : ℕ

pub record PriorityQueueItem : Type 0 where
  pub priority : ℕ
  pub value : SearchResultItem

-- minPriorityQueue.Less
unfoldable pub less : PriorityQueueItem → PriorityQueueItem → Bool
less x y = float32_ltb x.priority y.priority

pub record PriorityQueue : Type 0 where
  pub queue : List PriorityQueueItem
  pub max_size : ℤ

abbrev pub new_priority_queue : ℤ → PriorityQueue
new_priority_queue max_size = record { queue = []; max_size = max_size }

-- A pushed item leaves the queue non-empty, so the Pop does not panic.
unfoldable pub add : SearchResultItem → PriorityQueue → PriorityQueue
unfolding less
add item pq =
    let pushed = Heap.push less (record { priority = item.score; value = item }) pq.queue in
    let popped = (Heap.pop less pushed).1 in
    if ltb_ℤ pq.max_size (pos (length pushed))
    then record pq { queue = popped }
    else record pq { queue = pushed }

-- the loops that call Add
unfoldable pub add_all : List SearchResultItem → PriorityQueue → PriorityQueue
add_all [] pq = pq
add_all (item ∷ items) pq = add_all items (add item pq)

-- result[i] = item.Value(), before the sort
unfoldable pub values : PriorityQueue → List SearchResultItem
values pq = map (λ x. x.value) pq.queue

-- No score is above a later one.
abbrev pub Ascending : List SearchResultItem → Type 0
Ascending [] = Unit
Ascending (item ∷ items) =
    All (λ later. float32_rank item.score ≤ float32_rank later.score) items × Ascending items

-- sort.Slice of Go's standard library over result[i].Score < result[j].Score
pub record Sorter : Type 0 where
  pub sort_slice : List SearchResultItem → List SearchResultItem
  pub count-sort_slice :
      (p : SearchResultItem → Bool) (items : List SearchResultItem)
      → count p (sort_slice items) ≡ count p items
  pub sort_slice-Ascending :
      (items : List SearchResultItem)
      → all (λ item. not (float32_nan item.score)) items ≡ true
      → Ascending (sort_slice items)

module _ ⦃sorter : Sorter⦄ where
  unfoldable pub to_slice : PriorityQueue → List SearchResultItem
  unfolding values
  to_slice pq = sorter.sort_slice (values pq)
