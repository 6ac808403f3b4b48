-- ===== src/Hnsw/Queue.antt =====
-- core/vectorindex/priority_queue.go: min and max queues of vertices over container/heap, and the
-- selections of hnsw.go that work on them.
pub mod Items
pub mod Heaped
use coltt.Prelude.{
  ℕ, zero, suc, ◌+◌, ◌-◌, ◌/◌, Bool, Option, none, some, List, [], ◌∷◌, length, ltb, if◌then◌else◌,
}
use coltt.Prelude.Float.{float32_ltb}
use coltt.Prelude.Outcome.{Outcome, ok, panic}
use coltt.Edge.Heap

pub record PriorityQueueItem : Type 0 where
  pub priority : ℕ
  pub value : ℕ

abbrev pub PriorityQueue : Type 0
PriorityQueue = List PriorityQueueItem

-- minPriorityQueue.Less and maxPriorityQueue.Less
abbrev pub min_less : PriorityQueueItem → PriorityQueueItem → Bool
min_less x y = float32_ltb x.priority y.priority

abbrev pub max_less : PriorityQueueItem → PriorityQueueItem → Bool
max_less x y = float32_ltb y.priority x.priority

unfoldable pub peek : PriorityQueue → Outcome PriorityQueueItem
peek [] = panic
peek (x ∷ a) = ok x

-- heap.Init: down from `i - 1` to the root
unfoldable pub sift : ℕ → PriorityQueue → PriorityQueue
sift zero a = a
sift (suc i) a = sift i (Heap.down min_less a i (length a))

-- Reverse of a max queue, in the same array
unfoldable pub reverse : PriorityQueue → PriorityQueue
unfolding sift
reverse a = sift (length a / 2) a

-- for neighbors.Len() > k { neighbors.Pop() }; each round drops one item
unfoldable pub trim_loop : ℕ → ℕ → PriorityQueue → PriorityQueue
trim_loop zero k a = a
trim_loop (suc fuel) k a =
    let rest = trim_loop fuel k (Heap.pop max_less a).1 in if ltb k (length a) then rest else a

unfoldable pub select_neighbors : PriorityQueue → ℕ → PriorityQueue
unfolding trim_loop
select_neighbors a k = trim_loop (length a) k a

pub record Selection : Type 0 where
  pub candidates : PriorityQueue
  pub result : PriorityQueue

push_some : Option PriorityQueueItem → PriorityQueue → PriorityQueue
push_some none a = a
push_some (some x) a = Heap.push max_less x a

-- result.Push(candidateVertices.Pop())
unfoldable pub take_candidate : Selection → Selection
unfolding push_some
take_candidate s =
    let popped = Heap.pop min_less s.candidates in
    record { candidates = popped.1; result = push_some popped.0 s.result }

-- while there are candidates, and fewer than `k` results
unfoldable pub take_loop : ℕ → ℕ → Selection → Selection
take_loop zero k s = s
take_loop (suc fuel) k s =
    let rest = take_loop fuel k (take_candidate s) in
    if ltb 0 (length s.candidates) then if ltb (length s.result) k then rest else s else s

unfoldable pub take_candidates : ℕ → Selection → Selection
unfolding take_loop
take_candidates k s = take_loop (length s.candidates) k s

-- selectNeighborsHeuristic without extendCandidates
unfoldable pub select_neighbors_heuristic : PriorityQueue → ℕ → Bool → PriorityQueue
unfolding take_candidates reverse
select_neighbors_heuristic a k keep_pruned =
    let first = take_candidates k (record { candidates = reverse a; result = [] }) in
    if keep_pruned then (take_candidates k first).result else first.result
