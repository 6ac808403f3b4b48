-- ===== src/Hnsw/Change.antt =====
-- Insert and Remove of core/vectorindex/hnsw.go. A call that returns an error has changed nothing.
pub mod Prune
pub mod Link
pub mod Insert
pub mod Remove
use coltt.Prelude.{
  ℕ, zero, suc, ◌+◌, ◌-◌, ◌^◌, ◌%◌, Bool, true, false, Option, none, some, List, [], ◌∷◌, ◌++◌,
  length, get_or, set, ltb, ◌==◌, if◌then◌else◌, min,
}
use coltt.Prelude.Dict
use coltt.Prelude.Dict.{nat_key}
use coltt.Prelude.Float.{Floats, float32_ltb}
use coltt.Prelude.Outcome.{Outcome, ok, err, panic, ◌>>=◌, item_not_found, item_already_exists}
use coltt.Edge.Heap
use coltt.Edge.Space.{Vector, normalized}
use coltt.Inverted.Index.{Metadata}
use coltt.Hnsw.{
  Distances, Hnsw, HnswConfig, HnswEdgeSet, HnswVertex, new_hnsw_vertex, Ref, vertex_at, edges_of,
  set_edges, add_edge, remove_edge, shard_of, get_vertex, set_deleted,
}
use coltt.Hnsw.Queue.{PriorityQueueItem, PriorityQueue, max_less}
use coltt.Hnsw.Search.{Closest, select_by, measured, descend, search_level}

-- the edges to vertices that are not deleted, in a max queue
unfoldable pub queue_edges : Hnsw → HnswEdgeSet → PriorityQueue → PriorityQueue
queue_edges h [] queue = queue
queue_edges h ((r, d) ∷ edges) queue = queue_edges h edges (
    if (vertex_at h r).deleted
    then queue
    else Heap.push max_less (record { priority = d; value = r }) queue)

-- newNeighbors
unfoldable pub edge_set : PriorityQueue → HnswEdgeSet → HnswEdgeSet
edge_set [] edges = edges
edge_set (item ∷ queue) edges = edge_set queue (Dict.insert item.value item.priority edges)

unfoldable pub prune_neighbors : Ref → ℕ → ℕ → Hnsw → Outcome Hnsw
prune_neighbors r k level h = do
  edges ← edges_of (vertex_at h r) level
  set_edges r level (edge_set (select_by h.config (queue_edges h edges []) k) []) h

abbrev pub m_max_at : HnswConfig → ℕ → ℕ
m_max_at config level = if level == 0 then config.m_max0 else config.m_max

module _ (r : Ref) (level m_max : ℕ) where
  -- the edges to one neighbor and back
  unfoldable pub connect : PriorityQueueItem → Hnsw → Outcome Hnsw
  connect item h = do
    h1 ← add_edge r level item.value item.priority h
    h2 ← add_edge item.value level r item.priority h1
    edges ← edges_of (vertex_at h2 item.value) level
    if ltb m_max (length edges) then prune_neighbors item.value m_max level h2 else ok h2

  -- for neighbors.Len() > 0; each round pops one item
  unfoldable pub connect_all : ℕ → PriorityQueue → Ref → Hnsw → Outcome (Ref × Hnsw)
  connect_all zero neighbors entrypoint h = ok (entrypoint, h)
  connect_all (suc fuel) neighbors entrypoint h = elim (Heap.pop max_less neighbors).0 [
    | none ↦ ok (entrypoint, h)
    | some item ↦ connect item h >>= connect_all fuel (Heap.pop max_less neighbors).1 item.value
  ]

  -- the loop over the neighbors of a vertex that is removed
  unfoldable pub drop_edges : HnswEdgeSet → Hnsw → Outcome Hnsw
  drop_edges [] h = ok h
  drop_edges ((neighbor, d) ∷ edges) h = do
    h1 ← remove_edge neighbor level r h
    h2 ← prune_neighbors neighbor m_max level h1
    drop_edges edges h2

-- m[vertex.id] = vertex, where the vertex is the next of the store
unfoldable pub with_vertex : HnswVertex → Hnsw → Hnsw
with_vertex v h = record h {
  vertices =
      set h.vertices (shard_of v.id)
        (Dict.insert v.id (length h.store) (get_or h.vertices (shard_of v.id) []));
  len = (h.len + 1) % 2 ^ 64;
  store = h.store ++ v ∷ [];
}

unfoldable pub store_vertex : HnswVertex → Hnsw → Outcome (Ref × Hnsw)
store_vertex v h = elim (get_vertex v.id h) [
  | some r ↦ err item_already_exists
  | none ↦ ok (length h.store, with_vertex v h)
]

module _ ⦃space : Distances⦄ where
  unfoldable pub link_level : Ref → ℕ → Ref → Hnsw → Outcome (Ref × Hnsw)
  link_level r level entrypoint h = do
    neighbors ← search_level h (vertex_at h r).vector h.config.ef_construction entrypoint level
    let selected = select_by h.config neighbors h.config.m
    connect_all r level (m_max_at h.config level) (length selected) selected entrypoint h

  -- for l := n - 1; l >= 0; l--
  unfoldable pub link_levels : ℕ → Ref → Ref → Hnsw → Outcome Hnsw
  link_levels zero r entrypoint h = ok h
  link_levels (suc n) r entrypoint h = do
    (closest, h') ← link_level r n entrypoint h
    link_levels n r closest h'

  -- what Insert does with a vertex that is stored, from the entrypoint
  unfoldable pub link : Ref → Ref → Hnsw → Outcome Hnsw
  link r entrypoint h = do
    let vertex = vertex_at h r
    let top = (vertex_at h entrypoint).level
    d ← measured h vertex.vector entrypoint
    (closest, d') ← descend h vertex.vector (top - vertex.level) vertex.level entrypoint d
    h' ← link_levels (min (vertex_at h closest).level vertex.level + 1) r closest h
    ok (if ltb top vertex.level then record h' { entrypoint = some r } else h')

  module _ ⦃floats : Floats⦄ where
    -- by the entrypoint; the first vertex has level 0
    unfoldable pub insert_from : Option Ref → ℕ → Vector → Metadata → ℕ → Hnsw → Outcome Hnsw
    insert_from none id vector metadata vertex_level h = do
      (r, h') ← store_vertex (new_hnsw_vertex id vector metadata 0) h
      ok (record h' { entrypoint = some r })
    insert_from (some entrypoint) id vector metadata vertex_level h = do
      (r, h') ← store_vertex (new_hnsw_vertex id vector metadata vertex_level) h
      link r entrypoint h'

    unfoldable pub insert : ℕ → Vector → Metadata → ℕ → Hnsw → Outcome Hnsw
    unfolding insert_from
    insert id value metadata vertex_level h =
        insert_from h.entrypoint id (normalized h.distancer value) metadata vertex_level h

-- delete(m, id), and the vertex is marked
unfoldable pub without_vertex : ℕ → Ref → Hnsw → Hnsw
unfolding set_deleted
without_vertex id r h = set_deleted r (record h {
  vertices = set h.vertices (shard_of id) (Dict.remove id (get_or h.vertices (shard_of id) []));
  len = (h.len + (2 ^ 64 - 1)) % 2 ^ 64;
})

unfoldable pub remove_vertex : ℕ → Hnsw → Outcome (Ref × Hnsw)
remove_vertex id h = elim (get_vertex id h) [
  | none ↦ err item_not_found
  | some r ↦ ok (r, without_vertex id r h)
]

-- math.MaxFloat32
abbrev pub max_float : ℕ
max_float = 0x7f7fffff

unfoldable pub nearest_edge : HnswEdgeSet → Closest → Closest
nearest_edge [] c = c
nearest_edge ((r, d) ∷ edges) c =
    nearest_edge edges
      (if float32_ltb d c.min_distance then record { neighbor = some r; min_distance = d } else c)

-- if closestNeighbor != nil { break }
found_or : Outcome Closest → Closest → Option Ref → Outcome Closest
found_or next c none = next
found_or next c (some r) = ok c

-- for l := n - 1; l >= 0; l--
unfoldable pub nearest_level : ℕ → HnswVertex → Closest → Outcome Closest
unfolding found_or
nearest_level zero v c = ok c
nearest_level (suc n) v c = do
  edges ← edges_of v n
  let c' = nearest_edge edges c
  found_or (nearest_level n v c') c' c'.neighbor

-- A removed entrypoint hands over to its closest neighbor.
unfoldable pub hand_over : Ref → Hnsw → Outcome Hnsw
hand_over r h = do
  let start : Closest = record { neighbor = none; min_distance = max_float }
  c ← nearest_level ((vertex_at h r).level + 1) (vertex_at h r) start
  ok (record h { entrypoint = c.neighbor })

unfoldable pub replace_from : Option Ref → Ref → Hnsw → Outcome Hnsw
replace_from none r h = ok h
replace_from (some entrypoint) r h = if entrypoint == r then hand_over r h else ok h

unfoldable pub replace_entrypoint : Ref → Hnsw → Outcome Hnsw
unfolding replace_from
replace_entrypoint r h = replace_from h.entrypoint r h

-- for l := n - 1; l >= 0; l--
unfoldable pub unlink_levels : ℕ → Ref → Hnsw → Outcome Hnsw
unlink_levels zero r h = ok h
unlink_levels (suc n) r h = do
  edges ← edges_of (vertex_at h r) n
  h' ← drop_edges r n (m_max_at h.config n) edges h
  unlink_levels n r h'

unfoldable pub remove : ℕ → Hnsw → Outcome Hnsw
remove id h = do
  (r, h1) ← remove_vertex id h
  h2 ← replace_entrypoint r h1
  unlink_levels ((vertex_at h2 r).level + 1) r h2
