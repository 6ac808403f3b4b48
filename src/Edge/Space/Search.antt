-- ===== src/Edge/Space/Search.antt =====
-- VertexSearch and FilterableVertexSearch of edge/none_vectorstore.go. A map is searched in the
-- order of its list; the goroutines of the shards share nothing but their slots of the results, so
-- they run here one after another.
pub mod Collected
pub mod Highest
pub mod Filtered
use coltt.Prelude.{
  ℕ, zero, suc, Bool, true, all, Option, none, some, List, [], ◌∷◌, map, ◌==◌, if◌then◌else◌,
}
use coltt.Prelude.Dict
use coltt.Prelude.Dict.{Dict, nat_key}
use coltt.Prelude.Float.{Floats}
use coltt.Prelude.Int.{ℤ}
use coltt.Prelude.Outcome.{Outcome, ok, err, panic, continue}
use coltt.Inverted.Filter.{FilterExpression}
use coltt.Inverted.Roaring.{Roaring}
use coltt.Inverted.Search.{search_with_expression}
use coltt.Edge.Queue.{
  SearchResultItem, PriorityQueue, Sorter, new_priority_queue, add_all, to_slice,
}
use coltt.Edge.Space.{
  Quantization, Vector, ENode, NoneVecSpace, DistanceSpace, edge_map_shard_count, shard_map,
  shard_of, node_at, stored_vector, with_index,
}

-- the loop over the shards, from `shard` on, with `n` to go
add_shards : (ℕ → List SearchResultItem) → ℕ → ℕ → PriorityQueue → PriorityQueue
add_shards items zero shard pq = pq
add_shards items (suc n) shard pq = add_shards items n (suc shard) (add_all (items shard) pq)

-- the results of the shards, added to the queue
add_results : List (List SearchResultItem) → PriorityQueue → PriorityQueue
add_results [] pq = pq
add_results (res ∷ results) pq = add_results results (add_all res pq)

module _ ⦃sorter : Sorter⦄ where
  -- what each shard's goroutine leaves in its slot of the results
  shard_results : (ℕ → List SearchResultItem) → ℤ → ℕ → ℕ → List (List SearchResultItem)
  shard_results items top_k zero shard = []
  shard_results items top_k (suc n) shard =
      to_slice (add_all (items shard) (new_priority_queue top_k))
      ∷ shard_results items top_k n (suc shard)

  -- both modes of a search, over the items that it finds in each shard
  unfoldable pub collect : (ℕ → List SearchResultItem) → ℤ → Bool → List SearchResultItem
  unfolding add_shards shard_results add_results
  collect items top_k high_cpu =
      let pq = new_priority_queue top_k in
      if high_cpu
      then to_slice (add_results (shard_results items top_k edge_map_shard_count 0) pq)
      else to_slice (add_shards items edge_map_shard_count 0 pq)

-- Similarity of a quantization, by the code of pkg/distance, which checks no length: two vectors are
-- comparable if its loop over the elements stays within both, and on others it panics. The score is
-- float arithmetic.
pub record Similarity : Type 0 where
  pub comparable : Vector → Vector → Bool
  pub score : Vector → Vector → DistanceSpace → ℕ

module _ {B : Type 0} (similarity : Similarity) where
  module _ (target : Vector) (vertex : NoneVecSpace B) where
    abbrev pub result_item : ℕ → ENode → SearchResultItem
    result_item uid node = record {
      id = uid;
      metadata = node.metadata;
      score = similarity.score target node.vector vertex.distance;
    }

    -- the items of one shard
    unfoldable pub shard_items : ℕ → List SearchResultItem
    shard_items shard = map (λ e. result_item e.0 e.1) (shard_map vertex shard)

    found_item : ℕ → Option ENode → List SearchResultItem → List SearchResultItem
    found_item uid none items = items
    found_item uid (some node) items = result_item uid node ∷ items

    -- the items of the candidates of one shard; a candidate without a vertex is left out
    unfoldable pub candidate_items : List ℕ → ℕ → List SearchResultItem
    unfolding found_item
    candidate_items [] shard = []
    candidate_items (cand ∷ candidates) shard =
        let rest = candidate_items candidates shard in
        if shard_of cand == shard
        then found_item cand (Dict.lookup cand (shard_map vertex shard)) rest
        else rest

    -- the vertices of every shard can be scored
    unfoldable pub all_comparable : Bool
    all_comparable =
        all (λ shard. all (λ e. similarity.comparable target e.1.vector) shard) vertex.vertices

    pub comparable_node : Option ENode → Bool
    comparable_node none = true
    comparable_node (some node) = similarity.comparable target node.vector

    -- so can those of the candidates
    unfoldable pub candidates_comparable : List ℕ → Bool
    unfolding comparable_node
    candidates_comparable = all (λ cand. comparable_node (node_at vertex cand))

  module _ ⦃floats : Floats⦄ ⦃quantization : Quantization⦄ ⦃sorter : Sorter⦄ where
    -- Every vertex is scored, so one that cannot be compared makes the search panic. The error that the function returns is always nil.
    unfoldable pub vertex_search :
        Vector → ℤ → Bool → NoneVecSpace B → Outcome (List SearchResultItem)
    vertex_search target top_k high_cpu vertex =
        let wanted = stored_vector vertex.distance target in
        if all_comparable wanted vertex
        then ok (collect (shard_items wanted vertex) top_k high_cpu)
        else panic

    unfoldable pub filterable_vertex_search :
        ⦃roaring : Roaring B⦄
        → FilterExpression
        → Vector
        → ℤ
        → Bool
        → NoneVecSpace B
        → Outcome (List SearchResultItem) × NoneVecSpace B
    unfolding with_index
    filterable_vertex_search filter target top_k high_cpu vertex =
        continue (with_index vertex (search_with_expression filter vertex.inverted_index))
          (λ candidates vertex'.
            let wanted = stored_vector vertex.distance target in
            (
              if candidates_comparable wanted vertex' candidates
                  then ok (collect (candidate_items wanted vertex' candidates) top_k high_cpu)
                  else panic,
              vertex',
            ))
