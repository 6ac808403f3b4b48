-- ===== src/Edge/Space/Reachable.antt =====
-- The spaces that calls lead to, one call after another and whatever their outcomes.
use coltt.Prelude.{
  ℕ, ◌≡◌, ap, sym, subst, true, false, none, [], ◌∷◌, length, ◌%◌, ◌^◌, ◌==◌, all, Bool-cases, inl,
  inr,
}
use coltt.Prelude.Bytes.{Bytes}
use coltt.Prelude.Float.{Floats}
use coltt.Prelude.Outcome.{ok, Outcome-cases}
use coltt.Inverted.Value.{Value, reflexive, hashable}
use coltt.Inverted.Roaring.{Roaring}
use coltt.Inverted.Index.{Metadata}
use coltt.Edge.Analyzer.{standard_analyzer, drop_key_analyzer}
use coltt.Edge.Space.{
  Quantization, ENode, NoneVecSpace, SpaceMetadata, new_none_vectorstore, node_at, changed_vertex,
  resolve_id, place_vertex, remove_vertex,
}
use coltt.Edge.Space.Sync.{InSync, new_none_vectorstore-InSync}
use coltt.Edge.Space.Changed.{changed_vertex-InSync}
use coltt.Edge.Space.Drop.{remove_vertex-exact}

module _ {B : Type 0} ⦃floats : Floats⦄ ⦃quantization : Quantization⦄ ⦃roaring : Roaring B⦄ where
  -- What the analyzer leaves of the metadata can be keys.
  abbrev pub CanBeKeys : ENode → NoneVecSpace B → Type 0
  CanBeKeys node vertex =
      (metadata : Metadata)
      → standard_analyzer node.metadata vertex.vertex_metadata.index_type ≡ ok metadata
      → all (λ e. reflexive e.1) metadata ≡ true

  -- One call: an insertion under an id that is not in use, or a removal by at least one value.
  pub data Reachable : NoneVecSpace B → Type 0 where
    created :
        (collection_name : Bytes) (metadata : SpaceMetadata)
        → Reachable (new_none_vectorstore collection_name metadata)
    inserted :
        (id : ℕ) (node : ENode) (vertex : NoneVecSpace B)
        → Reachable vertex
        → node_at vertex id ≡ none
        → CanBeKeys node vertex
        → Reachable (changed_vertex [] id node vertex).1
    removed :
        (key : Bytes) (value : Value) (drop_filter : Metadata) (vertex : NoneVecSpace B)
        → Reachable vertex
        → all (λ e. hashable e.1) ((key, value) ∷ drop_filter) ≡ true
        → Reachable (remove_vertex ((key, value) ∷ drop_filter) vertex).1

  -- a call that fails its checks leaves the space
  refused_lem :
      (id : ℕ) (node : ENode) (vertex : NoneVecSpace B)
      → (vertex.vertex_metadata.dim == length node.vector % 2 ^ 32) ≡ false
      → (changed_vertex [] id node vertex).1 ≡ vertex
  unfolding changed_vertex resolve_id place_vertex
  refused_lem id node vertex d = rw d

  inserted-InSync :
      (id : ℕ) (node : ENode) (vertex : NoneVecSpace B)
      → InSync vertex
      → node_at vertex id ≡ none
      → CanBeKeys node vertex
      → InSync (changed_vertex [] id node vertex).1
  unfolding changed_vertex resolve_id place_vertex
  inserted-InSync id node vertex s fresh keys =
      elim (Bool-cases (vertex.vertex_metadata.dim == length node.vector % 2 ^ 32)) [
        | inr d ↦ rw d s
        | inl d ↦
            elim (Outcome-cases
              (standard_analyzer node.metadata vertex.vertex_metadata.index_type)) [
                | inl (metadata, c) ↦
                    let (vertex', e, s', n) =
                      changed_vertex-InSync id node metadata vertex s d c (keys metadata c) fresh in
                    subst InSync (sym (ap (λ r. r.1) e)) s'
                | inr (inl (e, c)) ↦ rw (d, c) s
                | inr (inr c) ↦ rw (d, c) s
              ]
      ]

  removed-InSync :
      (key : Bytes) (value : Value) (drop_filter : Metadata) (vertex : NoneVecSpace B)
      → InSync vertex
      → all (λ e. hashable e.1) ((key, value) ∷ drop_filter) ≡ true
      → InSync (remove_vertex ((key, value) ∷ drop_filter) vertex).1
  unfolding remove_vertex
  removed-InSync key value drop_filter vertex s h =
      elim (Outcome-cases
        (drop_key_analyzer ((key, value) ∷ drop_filter) vertex.vertex_metadata.index_type)) [
          | inl (u, c) ↦
              let (vertex', e, s', n) = remove_vertex-exact key value drop_filter vertex s h c in
              subst InSync (sym (ap (λ r. r.1) e)) s'
          | inr (inl (e, c)) ↦ rw c s
          | inr (inr c) ↦ rw c s
        ]

  -- After any insertions under ids not in use, of metadata that can be keys, and any removals by
  -- values that can be keys, failed calls included, the index posts each vertex under exactly the
  -- values of its metadata.
  pub Reachable-InSync : (vertex : NoneVecSpace B) → Reachable vertex → InSync vertex
  Reachable-InSync _ (created collection_name metadata) =
      new_none_vectorstore-InSync collection_name metadata
  Reachable-InSync _ (inserted id node vertex r fresh keys) =
      inserted-InSync id node vertex (Reachable-InSync vertex r) fresh keys
  Reachable-InSync _ (removed key value drop_filter vertex r h) =
      removed-InSync key value drop_filter vertex (Reachable-InSync vertex r) h
