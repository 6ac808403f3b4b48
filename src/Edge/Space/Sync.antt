-- ===== src/Edge/Space/Sync.antt =====
-- The agreement of the inverted index and the vertices of a space, and the steps that write both.
use coltt.Prelude.{
  ℕ, ◌≡◌, refl, ap, sym, ◌∙◌, Bool, true, false, ◌&&◌, ◌||◌, Option, none, some, [], length,
  length-set, get_or, get_or-set, get_or-replicate, all, arith, ◌==◌, if◌then◌else◌,
}
use coltt.Prelude.Bytes.{Bytes}
use coltt.Prelude.Dict
use coltt.Prelude.Dict.{Dict, nat_key}
use coltt.Prelude.Float.{Floats}
use coltt.Prelude.Outcome.{ok}
use coltt.Inverted.Value.{Value, reflexive, hashable, value_key}
use coltt.Inverted.Roaring.{Roaring}
use coltt.Inverted.Index
use coltt.Inverted.Index.{BitmapIndex, Metadata}
use coltt.Inverted.Index.Postings.{posted, bitmaps, tags, posted-add}
use coltt.Inverted.Index.Removal.{all-hashable}
use coltt.Edge.Sharding.{shard_vertex-lt}
use coltt.Edge.Space.{
  Quantization, Vector, ENode, NoneVecSpace, shard_of, node_at, store_node, delete_node,
  stored_vector, commit_vertex, new_none_vectorstore, SpaceMetadata,
}

abbrev pub metadata_tags : Option ENode → Bytes → Value → Bool
metadata_tags none k v = false
metadata_tags (some node) k v = tags node.metadata k v

abbrev pub metadata_hashable : Option ENode → Bool
metadata_hashable none = true
metadata_hashable (some node) = all (λ e. hashable e.1) node.metadata

module _ {B : Type 0} ⦃roaring : Roaring B⦄ where
  -- Every shard is there, the metadata can be keys, and the index posts a vertex under exactly
  -- the values of its metadata.
  pub record InSync (vertex : NoneVecSpace B) : Type 0 where
    pub shards : length vertex.vertices ≡ 16
    pub keys : (id : ℕ) → metadata_hashable (node_at vertex id) ≡ true
    pub postings :
        (k : Bytes) (v : Value) (id : ℕ)
        → posted vertex.inverted_index k v id ≡ metadata_tags (node_at vertex id) k v

module _ {B : Type 0} (vertex : NoneVecSpace B) (shards : length vertex.vertices ≡ 16) where
  pub node_at-store_node :
      (id j : ℕ) (node : ENode)
      → node_at (store_node id node vertex) j ≡ (if id == j then some node else node_at vertex j)
  unfolding node_at store_node
  node_at-store_node id j node =
      let here = shard_vertex-lt id 16 (omega arith) in
      let m = get_or vertex.vertices (shard_of id) [] in
      ground (
        arith,
        shards,
        here,
        get_or-set vertex.vertices (shard_of id) (shard_of j) (Dict.insert id node m) [],
        Dict.lookup-insert id j node m,
      )

  pub node_at-delete_node :
      (id j : ℕ) → node_at (delete_node id vertex) j ≡ (if id == j then none else node_at vertex j)
  unfolding node_at delete_node
  node_at-delete_node id j =
      let here = shard_vertex-lt id 16 (omega arith) in
      let m = get_or vertex.vertices (shard_of id) [] in
      ground (
        arith,
        shards,
        here,
        get_or-set vertex.vertices (shard_of id) (shard_of j) (Dict.remove id m) [],
        Dict.lookup-remove id j m,
      )

pub node_at-index :
    {B : Type 0} (vertex : NoneVecSpace B) (idx : BitmapIndex B) (j : ℕ)
    → node_at (record vertex { inverted_index = idx }) j ≡ node_at vertex j
unfolding node_at
node_at-index vertex idx j = refl

module _ {B : Type 0} (id : ℕ) (node : ENode) (space : NoneVecSpace B) where
  index-store_node : (store_node id node space).inverted_index ≡ space.inverted_index
  unfolding store_node
  index-store_node = refl

  shards-store_node : length (store_node id node space).vertices ≡ length space.vertices
  unfolding store_node
  shards-store_node = length-set space.vertices _ _

module _ {B : Type 0} ⦃floats : Floats⦄ ⦃quantization : Quantization⦄ ⦃roaring : Roaring B⦄ where
  module _ (id : ℕ) (vector : Vector) (metadata : Metadata) (vertex : NoneVecSpace B)
      (h : all (λ e. reflexive e.1) metadata ≡ true) (s : InSync vertex) where
    abbrev committed_node : ENode
    committed_node = record { vector = stored_vector vertex.distance vector; metadata = metadata }

    abbrev posted_vertex : NoneVecSpace B
    posted_vertex = record vertex {
      inverted_index = (Index.add id metadata vertex.inverted_index).1;
    }

    commit_vertex-runs :
        commit_vertex id vector metadata vertex
        ≡ (ok tt, store_node id committed_node posted_vertex)
    unfolding commit_vertex
    commit_vertex-runs = rw (posted-add id metadata vertex.inverted_index h).0

    pub node_at-commit_vertex :
        (j : ℕ)
        → node_at (commit_vertex id vector metadata vertex).1 j
          ≡ (if id == j then some committed_node else node_at vertex j)
    node_at-commit_vertex j = rw commit_vertex-runs (
        node_at-store_node posted_vertex s.shards id j committed_node
        ∙ ground (arith, node_at-index vertex posted_vertex.inverted_index j))

    posted-commit_vertex :
        (k : Bytes) (v : Value) (j : ℕ)
        → posted (commit_vertex id vector metadata vertex).1.inverted_index k v j
          ≡ ((tags metadata k v && id == j) || metadata_tags (node_at vertex j) k v)
    posted-commit_vertex k v j =
        rw (commit_vertex-runs, index-store_node id committed_node posted_vertex)
          ((posted-add id metadata vertex.inverted_index h).1 k v j ∙ rw (s.postings k v j))

    -- A vertex with a fresh id is stored, and the index and the vertices still agree.
    pub commit_vertex-InSync :
        node_at vertex id ≡ none
        → ((commit_vertex id vector metadata vertex).0 ≡ ok tt)
          × InSync (commit_vertex id vector metadata vertex).1
    commit_vertex-InSync fresh = (
      rw commit_vertex-runs,
      record {
        shards =
            rw commit_vertex-runs (shards-store_node id committed_node posted_vertex ∙ s.shards);
        keys = λ j. ground (arith, node_at-commit_vertex j, s.keys j, all-hashable metadata h);
        postings =
            λ k v j. ground (arith, node_at-commit_vertex j, posted-commit_vertex k v j, fresh);
      },
    )

    -- On a space where the index and the vertices agree, let a vertex be stored under an id in use,
    -- with metadata whose values can be map keys and equal themselves, and which lacks a value that
    -- the old metadata has under a key. This succeeds and the vertex is stored, but the id is still
    -- posted under that value, so that the index and the vertices no longer agree.
    pub commit_vertex-stale :
        (old : ENode) (k : Bytes) (v : Value)
        → node_at vertex id ≡ some old
        → tags old.metadata k v ≡ true
        → tags metadata k v ≡ false
        → ((commit_vertex id vector metadata vertex).0 ≡ ok tt)
          × (node_at (commit_vertex id vector metadata vertex).1 id ≡ some committed_node)
          × (posted (commit_vertex id vector metadata vertex).1.inverted_index k v id ≡ true)
          × ¬ InSync (commit_vertex id vector metadata vertex).1
    commit_vertex-stale old k v e had lacks =
        let stored = node_at-commit_vertex id in
        let stays = posted-commit_vertex k v id in
        (
          rw commit_vertex-runs refl,
          ground arith,
          ground arith,
          λ synced. let p = synced.postings k v id in ground arith,
        )

-- A new space stores no vertex.
pub node_at-new :
    (B : Type 0) (collection_name : Bytes) (metadata : SpaceMetadata) (id : ℕ)
    → node_at {B = B} (new_none_vectorstore collection_name metadata) id ≡ none
unfolding node_at new_none_vectorstore Dict.lookup
node_at-new B collection_name metadata id =
    ap (Dict.lookup id) (get_or-replicate {A = Dict ℕ ENode} 16 (shard_of id) [])

module _ {B : Type 0} ⦃roaring : Roaring B⦄ where
  -- A new space has nothing stored and nothing posted.
  pub new_none_vectorstore-InSync :
      (collection_name : Bytes) (metadata : SpaceMetadata)
      → InSync {B = B} (new_none_vectorstore collection_name metadata)
  unfolding new_none_vectorstore posted bitmaps Dict.lookup
  new_none_vectorstore-InSync collection_name metadata = record {
    shards = refl;
    keys = λ id. ap metadata_hashable (node_at-new B collection_name metadata id);
    postings =
        λ k v id. sym (ap (λ o. metadata_tags o k v) (node_at-new B collection_name metadata id));
  }
