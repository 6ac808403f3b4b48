-- ===== src/Tests/HnswReached.antt =====
-- A search with room for every vertex at a concrete input.
use coltt.Prelude.{Bool, ◌==◌, length, ◌+◌, ◌-◌, List, [], ◌∷◌, get_or, min}
use coltt.Prelude.Binary.{le}
use coltt.Prelude.Dict
use coltt.Prelude.Float.{float32_ltb}
use coltt.Prelude.Outcome.{Outcome, ok, err, panic}
use coltt.Edge.Heap
use coltt.Edge.Sharding.{shard_vertex}
use coltt.Edge.Space.{Vector, euclidean, normalized}
use coltt.Hnsw.{
  Distances, Hnsw, HnswOption, with_m, with_ef, new_hnsw, apply, new_hnsw_config, edges_of,
  set_edges, add_edge, get_vertex, set_deleted,
}
use coltt.Hnsw.Queue.{
  peek, sift, reverse, trim_loop, select_neighbors, take_candidate, take_loop, take_candidates,
  select_neighbors_heuristic,
}
use coltt.Hnsw.Search.{
  measured, edges_to_measure, select_by, consider, consider_all, greedy_loop,
  greedy_closest_neighbor, descend, enqueue, visit, visit_all, round, level_loop, search_level,
}
use coltt.Hnsw.Change.{
  queue_edges, edge_set, prune_neighbors, connect, connect_all, with_vertex, store_vertex,
  link_level, link_levels, link, insert_from, insert,
}
use coltt.Hnsw.Calls.{Call, insertion, call, call_all}
use coltt.Tests.Instances.{test_floats}

-- how far apart two vectors of one element are, up to 1000
instance abbrev near : Distances
near = record {
  comparable = λ a b. length a == length b;
  distance = λ kind a b. min ((get_or a 0 0 - get_or b 0 0) + (get_or b 0 0 - get_or a 0 0)) 1000;
}

abbrev options : List HnswOption
options = with_m 2 ∷ with_ef 1 ∷ []

abbrev calls : List Call
calls = insertion 1 (10 ∷ []) [] 0 ∷ insertion 2 (20 ∷ []) [] 1 ∷ insertion 3 (30 ∷ []) [] 0 ∷ []

index_or : Hnsw → Outcome Hnsw → Hnsw
index_or h (ok g) = g
index_or h (err e) = h
index_or h panic = h

unfoldable after : Hnsw
unfolding measured edges_to_measure call_all call insert insert_from link link_levels link_level
    new_hnsw new_hnsw_config store_vertex with_vertex connect_all connect prune_neighbors edge_set
    queue_edges search_level level_loop round visit_all visit enqueue descend
    greedy_closest_neighbor greedy_loop consider_all consider select_by take_candidates take_loop
    take_candidate select_neighbors_heuristic select_neighbors trim_loop reverse sift peek
    set_deleted get_vertex add_edge set_edges edges_of apply shard_vertex float32_ltb Heap.pop
    Heap.push Heap.down Heap.up Heap.less_at Heap.swap le normalized Dict.lookup Dict.insert
    index_or
after = index_or (new_hnsw 1 euclidean options) (call_all calls (new_hnsw 1 euclidean options))

abbrev one_element : Vector → Bool
one_element v = length v == 1
