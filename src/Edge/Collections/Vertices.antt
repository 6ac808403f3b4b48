-- ===== src/Edge/Collections/Vertices.antt =====
-- Index and Search of edge/edge.go: the handlers on the vertices of a loaded collection.
use coltt.Prelude.{ℕ, ◌+◌, ◌%◌, ◌^◌, Bool, List, ◌==◌, if◌then◌else◌}
use coltt.Prelude.Bytes.{Bytes}
use coltt.Prelude.Binary.{bits_int64}
use coltt.Prelude.Int.{ℤ}
use coltt.Prelude.Float.{Floats}
use coltt.Prelude.Outcome.{Outcome, ok, err, unsupported_change}
use coltt.Inverted.Filter.{FilterExpression, nil_expression}
use coltt.Inverted.Index.{Metadata}
use coltt.Edge.Query.{ProtoExpression, query_expr_analyzer}
use coltt.Edge.Queue.{SearchResultItem}
use coltt.Edge.Space.{Vector}
use coltt.Edge.Vectorstore.{Vectorspace, on_space, read_space}
use coltt.Edge.Collections.Candidates.{Candidate, candidates}
use coltt.Edge.Collections.{◌>>=◌, ◌>>◌, Action, reads, EdgeState, authorization, on_spaces}

-- edgepb.IndexChange, its metadata as a map; `commit_id` is the id that autoCommitID generates
pub record IndexChange : Type 0 where
  pub collection_name : Bytes
  pub primary_key : Bytes
  pub metadata : Metadata
  pub vectors : Vector
  pub changed : ℕ
  pub commit_id : ℕ

-- edgepb.SearchIndex; a missing filter expression is one that is not set
pub record SearchIndex : Type 0 where
  pub collection_name : Bytes
  pub vector : Vector
  pub offset : ℕ
  pub limit : ℕ
  pub filter_expression : ProtoExpression
  pub high_resource_avaliable : Bool

-- req.GetLimit()+req.GetOffset() on uint64, and its int
abbrev pub top_k : SearchIndex → ℤ
top_k req = bits_int64 ((req.limit + req.offset) % 2 ^ 64)

module _ {V S : Type 0} ⦃vectorspace : Vectorspace V⦄ where
  -- the switch on the change
  unfoldable pub change_vertices : IndexChange → Action (EdgeState V S) (Unit {0})
  change_vertices req =
      if req.changed == 0
      then on_spaces (
          on_space req.collection_name (
            vectorspace.changed_vertex req.primary_key req.commit_id
              (record { vector = req.vectors; metadata = req.metadata })))
      else if req.changed == 1
      then on_spaces (on_space req.collection_name (vectorspace.remove_vertex req.metadata))
      else reads (λ s. err unsupported_change)

  unfoldable pub index : IndexChange → Action (EdgeState V S) (Unit {0})
  index req = do reads (authorization req.collection_name); change_vertices req

  -- without an expression every vertex is searched
  unfoldable pub search_items :
      SearchIndex → FilterExpression → Action (EdgeState V S) (List SearchResultItem)
  search_items req nil_expression = on_spaces (
      on_space req.collection_name
        (vectorspace.vertex_search req.vector (top_k req) req.high_resource_avaliable))
  search_items req expr = on_spaces (
      on_space req.collection_name (
        vectorspace.filterable_vertex_search expr req.vector (top_k req)
          req.high_resource_avaliable))

  unfoldable pub space_distance : Bytes → Action (EdgeState V S) ℕ
  space_distance name =
      reads (λ s. read_space name (λ v. ok (vectorspace.vertex_metadata v).distance) s.spaces)

  module _ ⦃floats : Floats⦄ where
    unfoldable pub search :
        (Metadata → Outcome Metadata) → SearchIndex → Action (EdgeState V S) (List Candidate)
    search new_struct req = do
      reads (authorization req.collection_name)
      expr ← reads (λ s. query_expr_analyzer req.filter_expression)
      items ← search_items req expr
      dist ← space_distance req.collection_name
      reads (λ s. candidates new_struct (dist == 0) items)
