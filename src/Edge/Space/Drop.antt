-- ===== src/Edge/Space/Drop.antt =====
-- RemoveVertex: which vertices go, and what is left in the index.
use coltt.Prelude.{
  ℕ, ◌≡◌, refl, ◌∙◌, sym, ap, Bool, true, not, ◌&&◌, Option, none, some, List, [], ◌∷◌, length,
  length-set, all, any, arith, ◌==◌, if◌then◌else◌,
}
use coltt.Prelude.Bytes.{Bytes}
use coltt.Prelude.Dict
use coltt.Prelude.Dict.{Dict, nat_key}
use coltt.Prelude.Float.{Floats}
use coltt.Prelude.Outcome.{ok}
use coltt.Inverted.Value.{Value, hashable, value_key}
use coltt.Inverted.Filter.{op_equal}
use coltt.Inverted.Roaring.{Roaring}
use coltt.Inverted.Index
use coltt.Inverted.Index.{BitmapIndex, Metadata}
use coltt.Inverted.Index.Postings.{posted, tags, bitmaps, bitmap_has}
use coltt.Inverted.Index.Removal.{posted-remove}
use coltt.Inverted.Search.Meaning.{answers_single, meets_single}
use coltt.Inverted.Search.Multi.{search_multi_filter-total}
use coltt.Edge.Analyzer.{drop_key_analyzer}
use coltt.Edge.Space.{
  Quantization, ENode, NoneVecSpace, node_at, delete_node, drop_vertex, drop_all, node_metadata,
  drop_filters, remove_vertex,
}
use coltt.Edge.Space.Sync.{
  InSync, metadata_tags, metadata_hashable, node_at-delete_node, node_at-index,
}

module _ {B : Type 0} (id : ℕ) (space : NoneVecSpace B) where
  index-delete_node : (delete_node id space).inverted_index ≡ space.inverted_index
  unfolding delete_node
  index-delete_node = refl

  shards-delete_node : length (delete_node id space).vertices ≡ length space.vertices
  unfolding delete_node
  shards-delete_node = length-set space.vertices _ _

tags-node_metadata :
    (o : Option ENode) (k : Bytes) (v : Value) → tags (node_metadata o) k v ≡ metadata_tags o k v
unfolding node_metadata tags
tags-node_metadata none k v = refl
tags-node_metadata (some node) k v = refl

dropped_tags :
    (id j : ℕ) (nodes : ℕ → Option ENode) (k : Bytes) (v : Value)
    → (not (metadata_tags (nodes id) k v && id == j) && metadata_tags (nodes j) k v)
      ≡ metadata_tags (if id == j then none else nodes j) k v
dropped_tags id j nodes k v = ground arith

hashable-node_metadata :
    (o : Option ENode)
    → metadata_hashable o ≡ true
    → all (λ e. hashable e.1) (node_metadata o) ≡ true
unfolding node_metadata
hashable-node_metadata none h = refl
hashable-node_metadata (some node) h = h

module _ {B : Type 0} ⦃floats : Floats⦄ ⦃quantization : Quantization⦄ ⦃roaring : Roaring B⦄ where
  module _ (id : ℕ) (vertex : NoneVecSpace B) (s : InSync vertex) where
    abbrev old_metadata : Metadata
    old_metadata = node_metadata (node_at vertex id)

    abbrev unposted : NoneVecSpace B
    unposted = record vertex {
      inverted_index = (Index.remove id old_metadata vertex.inverted_index).1;
    }

    drop_vertex-runs : drop_vertex id vertex ≡ (ok tt, delete_node id unposted)
    unfolding drop_vertex
    drop_vertex-runs =
        rw
          (posted-remove id old_metadata vertex.inverted_index
            (hashable-node_metadata (node_at vertex id) (s.keys id))).0

    node_at-drop_vertex :
        (j : ℕ) → node_at (delete_node id unposted) j ≡ (if id == j then none else node_at vertex j)
    node_at-drop_vertex j =
        node_at-delete_node unposted s.shards id j
        ∙ ground (arith, node_at-index vertex unposted.inverted_index j)

    drop_vertex-InSync : InSync (delete_node id unposted)
    drop_vertex-InSync = record {
      shards = shards-delete_node id unposted ∙ s.shards;
      keys = λ j. ground (arith, node_at-drop_vertex j, s.keys j);
      postings = λ k v j.
          ap (λ idx. posted idx k v j) (index-delete_node id unposted)
          ∙ (posted-remove id old_metadata vertex.inverted_index
                (hashable-node_metadata (node_at vertex id) (s.keys id))).1
              k v j
          ∙ ap (λ b. not (b && id == j) && posted vertex.inverted_index k v j)
              (tags-node_metadata (node_at vertex id) k v)
          ∙ ap (λ b. not (metadata_tags (node_at vertex id) k v && id == j) && b) (s.postings k v j)
          ∙ dropped_tags id j (node_at vertex) k v
          ∙ sym (ap (λ o. metadata_tags o k v) (node_at-drop_vertex j));
    }

  drop_all_lem :
      (ids : List ℕ) (vertex : NoneVecSpace B)
      → InSync vertex
      → (vertex' : NoneVecSpace B) × (drop_all ids vertex ≡ (ok tt, vertex'))
        × InSync vertex'
        × ((j : ℕ) → node_at vertex' j ≡ (if any (λ i. i == j) ids then none else node_at vertex j))
  unfolding drop_all
  drop_all_lem [] vertex s = (vertex, refl, s, λ j. refl)
  drop_all_lem (id ∷ ids) vertex s =
      let (vertex', e, s', n) =
        drop_all_lem ids (delete_node id (unposted id vertex s)) (drop_vertex-InSync id vertex s) in
      (
        vertex',
        rw (drop_vertex-runs id vertex s) e,
        s',
        λ j. n j ∙ ground (arith, node_at-drop_vertex id vertex s j),
      )

  drop_filters-answered :
      (view : Bytes → Dict Value B) (drop_filter : Metadata)
      → all (λ e. hashable e.1) drop_filter ≡ true
      → all (answers_single view) (drop_filters drop_filter) ≡ true
  unfolding drop_filters
  drop_filters-answered view [] h = refl
  drop_filters-answered view ((k, v) ∷ drop_filter) h =
      ground (arith, drop_filters-answered view drop_filter)

  -- The vertex has every value of the filter.
  abbrev pub has_all : NoneVecSpace B → Metadata → ℕ → Bool
  has_all vertex drop_filter id = all (λ e. metadata_tags (node_at vertex id) e.0 e.1) drop_filter

  drop_filters-met :
      (vertex : NoneVecSpace B) (drop_filter : Metadata) (id : ℕ)
      → InSync vertex
      → all
          (λ f. meets_single (λ k. bitmaps k vertex.inverted_index) f id)
          (drop_filters drop_filter)
        ≡ has_all vertex drop_filter id
  unfolding drop_filters
  drop_filters-met vertex [] id s = refl
  drop_filters-met vertex ((k, v) ∷ drop_filter) id s =
      let p : bitmap_has (Dict.lookup v (bitmaps k vertex.inverted_index)) id
          ≡ metadata_tags (node_at vertex id) k v =
        unfold posted in s.postings k v id in
      rw (p, drop_filters-met vertex drop_filter id s)

  pub InSync-index :
      (vertex : NoneVecSpace B) (idx : BitmapIndex B)
      → InSync vertex
      → ((k : Bytes) → bitmaps k idx ≡ bitmaps k vertex.inverted_index)
      → InSync (record vertex { inverted_index = idx })
  unfolding posted node_at
  InSync-index vertex idx s same = record {
    shards = s.shards;
    keys = s.keys;
    postings = λ k v id. rw (same k) (s.postings k v id);
  }

  -- From a space whose index and vertices agree, RemoveVertex by at least one value, each of which
  -- can be a key and passes the analyzer, deletes exactly the vertices whose metadata has every
  -- value of the filter, keeps the others as they were, and leaves index and vertices in agreement.
  pub remove_vertex-exact :
      (key : Bytes) (value : Value) (drop_filter : Metadata) (vertex : NoneVecSpace B)
      → InSync vertex
      → all (λ e. hashable e.1) ((key, value) ∷ drop_filter) ≡ true
      → drop_key_analyzer ((key, value) ∷ drop_filter) vertex.vertex_metadata.index_type ≡ ok tt
      → (vertex' : NoneVecSpace B) × (remove_vertex ((key, value) ∷ drop_filter) vertex
          ≡ (ok tt, vertex'))
        × InSync vertex'
        × ((id : ℕ)
            → node_at vertex' id ≡ (
                if has_all vertex ((key, value) ∷ drop_filter) id then none else node_at vertex id))
  unfolding remove_vertex
  remove_vertex-exact key value drop_filter vertex s h c =
      let dropped = (key, value) ∷ drop_filter in
      let view = λ (k : Bytes). bitmaps k vertex.inverted_index in
      let (ids, idx, found, exact, same) =
        search_multi_filter-total (record { index_name = key; op = op_equal; value = value })
          (drop_filters drop_filter) vertex.inverted_index
          (unfold drop_filters in drop_filters-answered view dropped h) in
      let (vertex', e, s', n) =
        drop_all_lem ids (record vertex { inverted_index = idx })
          (InSync-index vertex idx s same) in
      (
        vertex',
        rw c (rw found e),
        s',
        λ id.
            let met : any (λ i. i == id) ids ≡ has_all vertex dropped id =
              unfold drop_filters in exact id ∙ drop_filters-met vertex dropped id s in
            n id ∙ ground (arith, met, node_at-index vertex idx id),
      )
