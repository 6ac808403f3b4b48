-- ===== src/Edge/Space.antt =====
-- edge/none_vectorstore.go: a vector space without quantization. A call runs alone; its locks are
-- not modelled. Ids, dimensions and sizes are below 2 ^ 64, 2 ^ 32 and 2 ^ 64.
pub mod Sync
pub mod Drop
pub mod Changed
pub mod Reachable
pub mod Search
pub mod Save
pub mod Files
use coltt.Prelude.{
  ℕ, zero, suc, ◌%◌, ◌^◌, Bool, true, false, Option, none, some, List, [], ◌∷◌, length, get_or, set,
  replicate, map, ◌==◌, if◌then◌else◌,
}
use coltt.Prelude.Bytes.{Bytes}
use coltt.Prelude.Dict
use coltt.Prelude.Dict.{Dict, nat_key}
use coltt.Prelude.Float.{Floats, float32_nan, float32_rank}
use coltt.Prelude.Outcome.{Outcome, ok, err, panic, continue, dim_unmatched}
use coltt.Inverted.Value.{Value, string}
use coltt.Inverted.Filter.{Filter, op_equal}
use coltt.Inverted.Roaring.{Roaring}
use coltt.Inverted.Index
use coltt.Inverted.Index.{BitmapIndex, Metadata, new_bitmap_index}
use coltt.Inverted.Search.{search_single_filter, search_multi_filter}
use coltt.Edge.Analyzer.{IndexFeature, standard_analyzer, drop_key_analyzer}
use coltt.Edge.Sharding.{shard_vertex}

-- []float32, as bit patterns
abbrev pub Vector : Type 0
Vector = List ℕ

pub record ENode : Type 0 where
  pub vector : Vector
  pub metadata : Metadata

-- edge.Metadata
pub record SpaceMetadata : Type 0 where
  pub dim : ℕ
  pub distance : ℕ
  pub quantization : ℕ
  pub index_type : Dict Bytes IndexFeature
  pub versioning : Bool

-- distance.Space by its Type
pub data DistanceSpace : Type 0 where
  cosine euclidean : DistanceSpace

abbrev pub edge_map_shard_count : ℕ
edge_map_shard_count = 16

pub record NoneVecSpace (B : Type 0) : Type 0 where
  pub vertex_metadata : SpaceMetadata
  pub collection_name : Bytes
  pub size : ℕ
  pub vertices : List (Dict ℕ ENode)
  pub distance : DistanceSpace
  pub inverted_index : BitmapIndex B

-- edgepb.Distance_Cosine is 0
abbrev pub distancer : SpaceMetadata → DistanceSpace
distancer metadata = if metadata.distance == 0 then cosine else euclidean

unfoldable pub new_none_vectorstore : {B : Type 0} → Bytes → SpaceMetadata → NoneVecSpace B
new_none_vectorstore collection_name metadata = record {
  vertex_metadata = metadata;
  collection_name = collection_name;
  size = 0;
  vertices = replicate edge_map_shard_count [];
  distance = distancer metadata;
  inverted_index = new_bitmap_index;
}

abbrev pub shard_of : ℕ → ℕ
shard_of id = shard_vertex id edge_map_shard_count

module _ {B : Type 0} where
  abbrev pub shard_map : NoneVecSpace B → ℕ → Dict ℕ ENode
  shard_map vertex shard = get_or vertex.vertices shard []

  -- vertex.vertices[shardIdx][id]
  unfoldable pub node_at : NoneVecSpace B → ℕ → Option ENode
  node_at vertex id = Dict.lookup id (shard_map vertex (shard_of id))

  -- vertex.vertices[shardIdx][commitId] = data
  unfoldable pub store_node : ℕ → ENode → NoneVecSpace B → NoneVecSpace B
  store_node id node vertex = record vertex {
    vertices =
        set vertex.vertices (shard_of id) (Dict.insert id node (shard_map vertex (shard_of id)));
  }

  -- delete(vertex.vertices[shardIdx], id)
  unfoldable pub delete_node : ℕ → NoneVecSpace B → NoneVecSpace B
  delete_node id vertex = record vertex {
    vertices = set vertex.vertices (shard_of id) (Dict.remove id (shard_map vertex (shard_of id)));
  }

-- the name of the first column that is a primary key, or the empty name
primary_index : Dict Bytes IndexFeature → Bytes
primary_index [] = []
primary_index ((k, indexer) ∷ features) =
    if indexer.primary_key then indexer.index_name else primary_index features

-- v == 0
is_zero32 : ℕ → Bool
is_zero32 x = float32_rank x == float32_rank 0

-- What the four spaces differ in: Lower, which never fails, and the bytes that an element of a
-- stored vector has in the file.
pub record Quantization : Type 0 where
  pub lower : Vector → Vector
  pub element_width : ℕ

-- NoQuantization: Lower returns its argument
abbrev pub no_quantization : Quantization
no_quantization = record { lower = λ v. v; element_width = 4 }

module _ ⦃floats : Floats⦄ where
  open floats use {add32, mul32, div32, sqrt32}

  squares : ℕ → Vector → ℕ
  squares norm [] = norm
  squares norm (x ∷ v) = squares (add32 norm (mul32 x x)) v

  -- Normalize of vectorstore.go; a norm of zero leaves a vector of zeros
  unfoldable pub normalize : Vector → Vector
  unfolding squares is_zero32
  normalize v =
      let norm = squares 0 v in
      if is_zero32 norm then replicate (length v) 0 else map (λ x. div32 x (sqrt32 norm)) v

  -- if vertex.distance.Type() == T_COSINE { v = Normalize(v) }
  unfoldable pub normalized : DistanceSpace → Vector → Vector
  normalized cosine v = normalize v
  normalized euclidean v = v

  module _ ⦃quantization : Quantization⦄ where
    unfoldable pub stored_vector : DistanceSpace → Vector → Vector
    stored_vector distance v = quantization.lower (normalized distance v)

first_or : ℕ → List ℕ → ℕ
first_or commit_id [] = commit_id
first_or commit_id (id ∷ ids) = id

drop_filters : Metadata → List Filter
drop_filters [] = []
drop_filters ((index, value) ∷ drop_filter) =
    record { index_name = index; op = op_equal; value = value } ∷ drop_filters drop_filter

-- the metadata of a missing vertex is a nil map
node_metadata : Option ENode → Metadata
node_metadata none = []
node_metadata (some node) = node.metadata

module _ {B : Type 0} ⦃floats : Floats⦄ ⦃quantization : Quantization⦄ ⦃roaring : Roaring B⦄ where
  with_index :
      {A : Type 0} → NoneVecSpace B → Outcome A × BitmapIndex B → Outcome A × NoneVecSpace B
  with_index vertex (r, idx) = (r, record vertex { inverted_index = idx })

  find_commit_id : ℕ → Filter → NoneVecSpace B → Outcome ℕ × NoneVecSpace B
  unfolding with_index first_or
  find_commit_id commit_id finder vertex =
      continue (with_index vertex (search_single_filter finder vertex.inverted_index))
        (λ ids vertex'. (ok (first_or commit_id ids), vertex'))

  -- the id of the vertex with the primary key, where there is one
  unfoldable pub resolve_id : Bytes → ℕ → NoneVecSpace B → Outcome ℕ × NoneVecSpace B
  unfolding find_commit_id primary_index
  resolve_id [] commit_id vertex = (ok commit_id, vertex)
  resolve_id (c ∷ update_id) commit_id vertex =
      find_commit_id commit_id
        (record {
          index_name = primary_index vertex.vertex_metadata.index_type;
          op = op_equal;
          value = string (c ∷ update_id);
        })
        vertex

  -- invertedIndex.Add, and the vertex into its shard
  unfoldable pub commit_vertex :
      ℕ → Vector → Metadata → NoneVecSpace B → Outcome (Unit {0}) × NoneVecSpace B
  unfolding with_index
  commit_vertex commit_id vector metadata vertex =
      continue (with_index vertex (Index.add commit_id metadata vertex.inverted_index))
        (λ _ vertex'.
          let node : ENode = record {
            vector = stored_vector vertex.distance vector;
            metadata = metadata;
          } in
          (ok tt, store_node commit_id node vertex'))

  -- the checks of the data, then the writes
  unfoldable pub place_vertex : ℕ → ENode → NoneVecSpace B → Outcome (Unit {0}) × NoneVecSpace B
  place_vertex commit_id node vertex =
      if vertex.vertex_metadata.dim == length node.vector % 2 ^ 32
      then continue (standard_analyzer node.metadata vertex.vertex_metadata.index_type, vertex)
          (λ metadata vertex'. commit_vertex commit_id node.vector metadata vertex')
      else (err dim_unmatched, vertex)

  unfoldable pub changed_vertex :
      Bytes → ℕ → ENode → NoneVecSpace B → Outcome (Unit {0}) × NoneVecSpace B
  changed_vertex update_id commit_id node vertex =
      continue (resolve_id update_id commit_id vertex) (λ id vertex'. place_vertex id node vertex')

  -- one round of the loop over the ids
  unfoldable pub drop_vertex : ℕ → NoneVecSpace B → Outcome (Unit {0}) × NoneVecSpace B
  unfolding with_index node_metadata
  drop_vertex id vertex =
      continue
        (with_index vertex
          (Index.remove id (node_metadata (node_at vertex id)) vertex.inverted_index))
        (λ _ vertex'. (ok tt, delete_node id vertex'))

  unfoldable pub drop_all : List ℕ → NoneVecSpace B → Outcome (Unit {0}) × NoneVecSpace B
  drop_all [] vertex = (ok tt, vertex)
  drop_all (id ∷ ids) vertex = continue (drop_vertex id vertex) (λ _ vertex'. drop_all ids vertex')

  unfoldable pub remove_vertex : Metadata → NoneVecSpace B → Outcome (Unit {0}) × NoneVecSpace B
  unfolding drop_filters with_index
  remove_vertex drop_filter vertex =
      continue (drop_key_analyzer drop_filter vertex.vertex_metadata.index_type, vertex)
        (λ _ vertex'.
          continue
            (with_index vertex'
              (search_multi_filter (drop_filters drop_filter) vertex'.inverted_index))
            (λ ids vertex''. drop_all ids vertex''))
