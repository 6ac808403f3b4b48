-- ===== src/Hnsw.antt =====
-- The graph of core/vectorindex: hnsw.go, hnsw_vertex.go and hnsw_config.go. A pointer to a vertex
-- is its place in the store, where every vertex stays after its creation; a removed vertex is no
-- longer in the shards, but other vertices may still hold edges to it. A call runs alone, so each
-- compare-and-swap succeeds. Levels and the numbers of the configuration are not negative; a number
-- that is left to its default, -1 in the source, is none.
pub mod Queue
pub mod Search
pub mod Change
pub mod Shape
pub mod Calls
use coltt.Prelude.{
  ℕ, ◌+◌, ◌-◌, ◌*◌, ◌%◌, ◌^◌, Bool, true, false, Option, none, some, List, [], ◌∷◌, ◌++◌, length,
  get_or, set, replicate, ltb, if◌then◌else◌,
}
use coltt.Prelude.Dict
use coltt.Prelude.Dict.{Dict, nat_key}
use coltt.Prelude.Outcome.{Outcome, ok, panic, ◌>>=◌}
use coltt.Inverted.Index.{Metadata}
use coltt.Edge.Sharding.{shard_vertex}
use coltt.Edge.Space.{Vector, DistanceSpace}

-- Distance of a space, by the code of pkg/distance, which checks no length: two vectors are comparable
-- if its loop over the elements stays within both, and on others it panics. The distance is float
-- arithmetic.
pub record Distances : Type 0 where
  pub comparable : Vector → Vector → Bool
  pub distance : DistanceSpace → Vector → Vector → ℕ

pub data HnswSearchAlgorithm : Type 0 where
  simple heuristic : HnswSearchAlgorithm

pub record HnswConfig : Type 0 where
  pub search_algorithm : HnswSearchAlgorithm
  pub ef : ℕ
  pub ef_construction : ℕ
  pub m : ℕ
  pub m_max : ℕ
  pub m_max0 : ℕ
  pub heuristic_keep_pruned : Bool

pub data HnswOption : Type 0 where
  algorithm : HnswSearchAlgorithm → HnswOption
  with_ef with_ef_construction with_m : ℕ → HnswOption
  with_m_max with_m_max0 : Option ℕ → HnswOption
  keep_pruned : Bool → HnswOption

-- the configuration while the options are applied
pub record OptionalConfig : Type 0 where
  pub config : HnswConfig
  pub m_max : Option ℕ
  pub m_max0 : Option ℕ

unfoldable pub apply : HnswOption → OptionalConfig → OptionalConfig
apply (algorithm a) c = record c { config = record c.config { search_algorithm = a } }
apply (with_ef n) c = record c { config = record c.config { ef = n } }
apply (with_ef_construction n) c = record c { config = record c.config { ef_construction = n } }
apply (with_m n) c = record c { config = record c.config { m = n } }
apply (with_m_max n) c = record c { m_max = n }
apply (with_m_max0 n) c = record c { m_max0 = n }
apply (keep_pruned b) c = record c { config = record c.config { heuristic_keep_pruned = b } }

apply_all : List HnswOption → OptionalConfig → OptionalConfig
apply_all [] c = c
apply_all (option ∷ options) c = apply_all options (apply option c)

or_default : ℕ → Option ℕ → ℕ
or_default d none = d
or_default d (some n) = n

-- the defaults
abbrev plain_config : HnswConfig
plain_config = record {
  search_algorithm = simple;
  ef = 20;
  ef_construction = 200;
  m = 16;
  m_max = 0;
  m_max0 = 0;
  heuristic_keep_pruned = true;
}

unfoldable pub new_hnsw_config : List HnswOption → HnswConfig
unfolding apply_all or_default apply
new_hnsw_config options =
    let c = apply_all options (record { config = plain_config; m_max = none; m_max0 = none }) in
    record c.config {
      m_max = or_default c.config.m c.m_max;
      m_max0 = or_default (2 * c.config.m) c.m_max0;
    }

-- *hnswVertex
abbrev pub Ref : Type 0
Ref = ℕ

abbrev pub HnswEdgeSet : Type 0
HnswEdgeSet = Dict Ref ℕ

pub record HnswVertex : Type 0 where
  pub id : ℕ
  pub vector : Vector
  pub level : ℕ
  pub metadata : Metadata
  pub deleted : Bool
  pub edges : List HnswEdgeSet

abbrev pub new_hnsw_vertex : ℕ → Vector → Metadata → ℕ → HnswVertex
new_hnsw_vertex id vector metadata level = record {
  id = id;
  vector = vector;
  level = level;
  metadata = metadata;
  deleted = false;
  edges = replicate (level + 1) [];
}

abbrev pub vertices_map_shard_count : ℕ
vertices_map_shard_count = 16

pub record Hnsw : Type 0 where
  pub dim : ℕ
  pub distancer : DistanceSpace
  pub config : HnswConfig
  pub len : ℕ
  pub vertices : List (Dict ℕ Ref)
  pub entrypoint : Option Ref
  pub store : List HnswVertex

unfoldable pub new_hnsw : ℕ → DistanceSpace → List HnswOption → Hnsw
new_hnsw dim distancer options = record {
  dim = dim;
  distancer = distancer;
  config = new_hnsw_config options;
  len = 0;
  vertices = replicate vertices_map_shard_count [];
  entrypoint = none;
  store = [];
}

-- what a pointer would show that leads nowhere; no pointer does
abbrev pub blank : HnswVertex
blank = new_hnsw_vertex 0 [] [] 0

abbrev pub vertex_at : Hnsw → Ref → HnswVertex
vertex_at h r = get_or h.store r blank

-- v.edges[level], which panics out of range
unfoldable pub edges_of : HnswVertex → ℕ → Outcome HnswEdgeSet
edges_of v level = if ltb level (length v.edges) then ok (get_or v.edges level []) else panic

-- vertex.setEdges(level, edges)
put_edges : Ref → ℕ → HnswEdgeSet → Hnsw → Hnsw
put_edges r level edges h =
    let v = vertex_at h r in
    record h { store = set h.store r (record v { edges = set v.edges level edges }) }

module _ (r : Ref) (level : ℕ) where
  unfoldable pub set_edges : HnswEdgeSet → Hnsw → Outcome Hnsw
  unfolding put_edges
  set_edges edges h = edges_of (vertex_at h r) level >>= λ _. ok (put_edges r level edges h)

  unfoldable pub add_edge : Ref → ℕ → Hnsw → Outcome Hnsw
  unfolding put_edges
  add_edge edge distance h = do
    edges ← edges_of (vertex_at h r) level
    ok (put_edges r level (Dict.insert edge distance edges) h)

  unfoldable pub remove_edge : Ref → Hnsw → Outcome Hnsw
  unfolding put_edges
  remove_edge edge h = do
    edges ← edges_of (vertex_at h r) level
    ok (put_edges r level (Dict.remove edge edges) h)

abbrev pub shard_of : ℕ → ℕ
shard_of id = shard_vertex id vertices_map_shard_count

-- vertices[shardIdx][id]
unfoldable pub get_vertex : ℕ → Hnsw → Option Ref
get_vertex id h = Dict.lookup id (get_or h.vertices (shard_of id) [])

unfoldable pub set_deleted : Ref → Hnsw → Hnsw
set_deleted r h = record h { store = set h.store r (record (vertex_at h r) { deleted = true }) }
