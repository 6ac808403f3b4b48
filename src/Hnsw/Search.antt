-- ===== src/Hnsw/Search.antt =====
-- Search of core/vectorindex/hnsw.go, with the two walks that it shares with Insert.
pub mod Walk
pub mod Unvisited
pub mod Level
pub mod Exhaustive
pub mod Rounds
pub mod Sorted
pub mod Complete
pub mod Answers
use coltt.Prelude.{
  ℕ, zero, suc, ◌+◌, ◌-◌, Bool, true, false, not, ◌||◌, Option, none, some, List, [], ◌∷◌, length,
  any, all, ◌^◌, ltb, ◌==◌, if◌then◌else◌, min,
}
use coltt.Prelude.Float.{Floats, float32_ltb}
use coltt.Prelude.Outcome.{Outcome, ok, panic, ◌>>=◌}
use coltt.Edge.Heap
use coltt.Edge.Space.{Vector, normalized}
use coltt.Edge.Queue.{SearchResultItem}
use coltt.Hnsw.{
  Distances, Hnsw, HnswConfig, HnswEdgeSet, HnswSearchAlgorithm, simple, heuristic, Ref, vertex_at,
  edges_of,
}
use coltt.Hnsw.Queue.{
  PriorityQueueItem, PriorityQueue, min_less, max_less, peek, select_neighbors,
  select_neighbors_heuristic,
}

select_with : HnswSearchAlgorithm → Bool → PriorityQueue → ℕ → PriorityQueue
select_with simple keep_pruned neighbors k = select_neighbors neighbors k
select_with heuristic keep_pruned neighbors k = select_neighbors_heuristic neighbors k keep_pruned

-- switch xx.config.searchAlgorithm
unfoldable pub select_by : HnswConfig → PriorityQueue → ℕ → PriorityQueue
unfolding select_with
select_by config = select_with config.search_algorithm config.heuristic_keep_pruned

pub record Closest : Type 0 where
  pub neighbor : Option Ref
  pub min_distance : ℕ

pub record LevelSearch : Type 0 where
  pub candidates : PriorityQueue
  pub results : PriorityQueue
  pub visited : List Ref

abbrev pub seen : Ref → List Ref → Bool
seen r visited = any (λ v. v == r) visited

-- if closestNeighbor == nil { break }
advance : {A B : Type 0} → (B → Outcome A) → A → Option B → Outcome A
advance next stay none = ok stay
advance next stay (some closest) = next closest

popped : {A : Type 0} → Option A → Outcome A
popped none = panic
popped (some x) = ok x

module _ ⦃space : Distances⦄ (h : Hnsw) (query : Vector) where
  abbrev pub distance_to : Ref → ℕ
  distance_to r = space.distance h.distancer query (vertex_at h r).vector

  abbrev pub item_at : Ref → PriorityQueueItem
  item_at r = record { priority = distance_to r; value = r }

  abbrev pub comparable_to : Ref → Bool
  comparable_to r = space.comparable query (vertex_at h r).vector

  -- xx.distancer.Distance(query, vertex.vector)
  unfoldable pub measured : Ref → Outcome ℕ
  measured r = if comparable_to r then ok (distance_to r) else panic

  -- The edges that a walk goes over. It measures the neighbors that are not deleted, in searchLevel
  -- those of them that it has not measured before, and panics at one that it cannot compare.
  unfoldable pub edges_to_measure : Ref → ℕ → Outcome HnswEdgeSet
  edges_to_measure r level = do
    edges ← edges_of (vertex_at h r) level
    if all (λ e. (vertex_at h e.0).deleted || comparable_to e.0) edges then ok edges else panic

  -- the body of the loop over the edges in greedyClosestNeighbor
  unfoldable pub consider : Ref → Closest → Closest
  consider r c =
      if (vertex_at h r).deleted
      then c
      else if float32_ltb (distance_to r) c.min_distance
      then record { neighbor = some r; min_distance = distance_to r }
      else c

  unfoldable pub consider_all : HnswEdgeSet → Closest → Closest
  consider_all [] c = c
  consider_all ((r, d) ∷ edges) c = consider_all edges (consider r c)

  -- Out of fuel is a panic here.
  unfoldable pub greedy_loop : ℕ → Ref → ℕ → ℕ → Outcome (Ref × ℕ)
  unfolding advance
  greedy_loop zero entrypoint min_distance level = panic
  greedy_loop (suc fuel) entrypoint min_distance level = do
    edges ← edges_to_measure entrypoint level
    let c = consider_all edges (record { neighbor = none; min_distance = min_distance })
    advance (λ closest. greedy_loop fuel closest c.min_distance level) (entrypoint, c.min_distance)
        c.neighbor

  unfoldable pub greedy_closest_neighbor : Ref → ℕ → ℕ → Outcome (Ref × ℕ)
  greedy_closest_neighbor = greedy_loop (length h.store + 1)

  -- for l := bottom + n; l > bottom; l--
  unfoldable pub descend : ℕ → ℕ → Ref → ℕ → Outcome (Ref × ℕ)
  descend zero bottom entrypoint min_distance = ok (entrypoint, min_distance)
  descend (suc n) bottom entrypoint min_distance = do
    (closest, nearer) ← greedy_closest_neighbor entrypoint min_distance (bottom + suc n)
    descend n bottom closest nearer

  module _ (ef : ℕ) where
    -- pushes to both queues, and the pop where the results are too many
    unfoldable pub enqueue : Ref → LevelSearch → LevelSearch
    enqueue r s =
        let results = Heap.push max_less (item_at r) s.results in
        record s {
          candidates = Heap.push min_less (item_at r) s.candidates;
          results = if ltb ef (length results) then (Heap.pop max_less results).1 else results;
        }

    -- the body of the loop over the edges in searchLevel
    unfoldable pub visit : ℕ → Ref → LevelSearch → LevelSearch
    visit lower_bound r s =
        if (vertex_at h r).deleted
        then s
        else if seen r s.visited
        then s
        else (let s' = record s { visited = r ∷ s.visited } in
            if float32_ltb (distance_to r) lower_bound || ltb (length s.results) ef
            then enqueue r s'
            else s')

    unfoldable pub visit_all : ℕ → HnswEdgeSet → LevelSearch → LevelSearch
    visit_all lower_bound [] s = s
    visit_all lower_bound ((r, d) ∷ edges) s = visit_all lower_bound edges (visit lower_bound r s)

    -- One round of the loop in searchLevel; none where it breaks.
    unfoldable pub round : ℕ → LevelSearch → Outcome (Option LevelSearch)
    unfolding popped
    round level s = do
      candidate ← popped (Heap.pop min_less s.candidates).0
      worst ← peek s.results
      let rest = record s { candidates = (Heap.pop min_less s.candidates).1 }
      if float32_ltb worst.priority candidate.priority
          then ok none
          else edges_to_measure candidate.value level >>= λ edges.
              ok (some (visit_all worst.priority edges rest))

    -- Out of fuel is a panic here.
    unfoldable pub level_loop : ℕ → ℕ → LevelSearch → Outcome PriorityQueue
    unfolding advance
    level_loop zero level s = panic
    level_loop (suc fuel) level s = elim (ltb 0 (length s.candidates)) [
      | false ↦ ok s.results
      | true ↦ round level s >>= advance (level_loop fuel level) s.results
    ]

    unfoldable pub search_level : Ref → ℕ → Outcome PriorityQueue
    search_level entrypoint level = do
      d ← measured entrypoint
      let item : PriorityQueueItem = record { priority = d; value = entrypoint }
      level_loop (length h.store + 1) level
          (record { candidates = item ∷ []; results = item ∷ []; visited = entrypoint ∷ [] })

-- result[i] of the item that is popped for `i`
abbrev pub result_of : Hnsw → PriorityQueueItem → SearchResultItem
result_of h item = record {
  id = (vertex_at h item.value).id;
  metadata = (vertex_at h item.value).metadata;
  score = item.priority;
}

push_result : Hnsw → Option PriorityQueueItem → List SearchResultItem → List SearchResultItem
push_result h none result = result
push_result h (some item) result = result_of h item ∷ result

-- for i := n - 1; i >= 0; i--
unfoldable pub fill : Hnsw → ℕ → PriorityQueue → List SearchResultItem → List SearchResultItem
unfolding push_result
fill h zero neighbors result = result
fill h (suc n) neighbors result =
    let popped = Heap.pop max_less neighbors in fill h n popped.1 (push_result h popped.0 result)

abbrev pub max : ℕ → ℕ → ℕ
max a b = if ltb a b then b else a

module _ ⦃floats : Floats⦄ ⦃space : Distances⦄ (h : Hnsw) (k : ℕ) where
  -- int(k) is negative from 2 ^ 63 on: the larger of ef and int(k) is ef then, and after the search
  -- selectNeighbors pops an empty queue, or a slice of a negative length is made.
  unfoldable pub search_from : Vector → Ref → Outcome (List SearchResultItem)
  search_from query entrypoint = do
    d ← measured h query entrypoint
    (closest, d') ← descend h query (vertex_at h entrypoint).level 0 entrypoint d
    let ef = if ltb k (2 ^ 63) then max h.config.ef k else h.config.ef
    neighbors ← search_level h query ef closest 0
    let selected = select_by h.config neighbors k
    if ltb k (2 ^ 63) then ok (fill h (min k (length selected)) selected []) else panic

  unfoldable pub search_by : Option Ref → Vector → Outcome (List SearchResultItem)
  search_by none query = ok []
  search_by (some entrypoint) query = search_from query entrypoint

  unfoldable pub search : Vector → Outcome (List SearchResultItem)
  unfolding search_by
  search query = search_by h.entrypoint (normalized h.distancer query)
