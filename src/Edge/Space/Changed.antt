-- ===== src/Edge/Space/Changed.antt =====
-- ChangedVertex for a new vertex.
use coltt.Prelude.{
  ℕ, ◌≡◌, ◌∙◌, ap, true, some, none, [], length, ◌%◌, ◌^◌, ◌==◌, all, if◌then◌else◌,
}
use coltt.Prelude.Float.{Floats}
use coltt.Prelude.Outcome.{ok}
use coltt.Inverted.Value.{reflexive}
use coltt.Inverted.Roaring.{Roaring}
use coltt.Inverted.Index.{Metadata}
use coltt.Edge.Analyzer.{standard_analyzer}
use coltt.Edge.Space.{
  Quantization, ENode, NoneVecSpace, node_at, stored_vector, resolve_id, place_vertex,
  commit_vertex, changed_vertex,
}
use coltt.Edge.Space.Sync.{InSync, commit_vertex-InSync, node_at-commit_vertex}

module _ {B : Type 0} ⦃floats : Floats⦄ ⦃quantization : Quantization⦄ ⦃roaring : Roaring B⦄ where
  changed_vertex-commit_vertex :
      (id : ℕ) (node : ENode) (metadata : Metadata) (vertex : NoneVecSpace B)
      → (vertex.vertex_metadata.dim == length node.vector % 2 ^ 32) ≡ true
      → standard_analyzer node.metadata vertex.vertex_metadata.index_type ≡ ok metadata
      → changed_vertex [] id node vertex ≡ commit_vertex id node.vector metadata vertex
  unfolding changed_vertex resolve_id place_vertex
  changed_vertex-commit_vertex id node metadata vertex d c = rw (d, c)

  -- ChangedVertex without an update id, for a vertex of the dimension of the space whose metadata
  -- passes the analyzer and can be keys, under an id that is not in use: it succeeds, stores
  -- exactly that vertex, with the metadata that the analyzer leaves and its vector normalized
  -- where the distance is the cosine, and leaves every other vertex; the index and the vertices
  -- still agree.
  pub changed_vertex-InSync :
      (id : ℕ) (node : ENode) (metadata : Metadata) (vertex : NoneVecSpace B)
      → InSync vertex
      → (vertex.vertex_metadata.dim == length node.vector % 2 ^ 32) ≡ true
      → standard_analyzer node.metadata vertex.vertex_metadata.index_type ≡ ok metadata
      → all (λ e. reflexive e.1) metadata ≡ true
      → node_at vertex id ≡ none
      → (vertex' : NoneVecSpace B) × (changed_vertex [] id node vertex ≡ (ok tt, vertex'))
        × InSync vertex'
        × ((j : ℕ)
            → node_at vertex' j ≡ (
                if id == j
                then some (record {
                  vector = stored_vector vertex.distance node.vector;
                  metadata = metadata;
                })
                else node_at vertex j))
  changed_vertex-InSync id node metadata vertex s d c h fresh =
      let (done, s') = commit_vertex-InSync id node.vector metadata vertex h s fresh in
      (
        (commit_vertex id node.vector metadata vertex).1,
        changed_vertex-commit_vertex id node metadata vertex d c
            ∙ ap (λ r. (r, (commit_vertex id node.vector metadata vertex).1)) done,
        s',
        node_at-commit_vertex id node.vector metadata vertex h s,
      )
