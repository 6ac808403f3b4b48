-- ===== src/Edge/Collections/Refines/Moves.antt =====
-- Every handler refines the life cycle.
use coltt.Prelude.{◌≡◌, refl, false, inl, inr, Bool-cases, ◌==◌}
use coltt.Prelude.Bytes.{Bytes, bytes_eq}
use coltt.Prelude.Dict.{bytes_key}
use coltt.Prelude.Float.{Floats}
use coltt.Prelude.Outcome.{Outcome}
use coltt.Inverted.Filter.{FilterExpression, nil_expression, single, composite, empty}
use coltt.Inverted.Index.{Metadata}
use coltt.Edge.Storage.{Storage, Json}
use coltt.Edge.Vectorstore.{Vectorspace}
use coltt.Edge.Collections.{EdgeState, has_collection, already_load_collection}
use coltt.Edge.Collections.Handlers.{get_collection, collection_detail, flush}
use coltt.Edge.Collections.Vertices.{
  IndexChange, SearchIndex, index, change_vertices, search, search_items, space_distance,
}
use coltt.Edge.Collections.Quiet.{
  Marks, Quiet, reads-Quiet, on_spaces-Quiet, bind-Quiet, save_collection-Quiet,
}
use coltt.Edge.Collections.Requests.{
  Request, creates, deletes, gets, loads, releases, flushes, changes, searches, handled,
}
use coltt.Edge.Collections.Phases.{phase, name_of, Allowed}
use coltt.Edge.Collections.Refines.Shifts.{Goes-Marks}
use coltt.Edge.Collections.Refines.Allows.{
  create_collection-Goes, delete_collection-Goes, release_collection-Goes, load_collection-Goes,
}

module _ {V S : Type 0} ⦃storage : Storage S⦄ ⦃vectorspace : Vectorspace V⦄ where
  get_collection-Marks :
      (name : Bytes) (s : EdgeState V S) → Marks s.exists s.load (get_collection name s).1
  unfolding get_collection collection_detail
  get_collection-Marks name s = elim (Bool-cases (has_collection name s)) [
    | inr away ↦ rw away (refl, refl)
    | inl has ↦ elim (Bool-cases (already_load_collection name s)) [
      | inl load ↦ rw (has, load) ((reads-Quiet _).same s)
      | inr no_load ↦ rw (has, no_load) (refl, refl)
    ]
  ]

  flush-Quiet : (name : Bytes) → Quiet {V = V} {S = S} (flush name)
  unfolding flush
  flush-Quiet name = bind-Quiet _ _ (reads-Quiet _) λ _. save_collection-Quiet name

  change_vertices-Quiet : (req : IndexChange) → Quiet {V = V} {S = S} (change_vertices req)
  unfolding change_vertices
  change_vertices-Quiet req = elim (Bool-cases (req.changed == 0)) [
    | inl e ↦ rw e (on_spaces-Quiet _)
    | inr e ↦ elim (Bool-cases (req.changed == 1)) [
      | inl f ↦ rw (e, f) (on_spaces-Quiet _)
      | inr f ↦ rw (e, f) (reads-Quiet _)
    ]
  ]

  index-Quiet : (req : IndexChange) → Quiet {V = V} {S = S} (index req)
  unfolding index
  index-Quiet req = bind-Quiet _ _ (reads-Quiet _) λ _. change_vertices-Quiet req

  search_items-Quiet :
      (req : SearchIndex) (expr : FilterExpression) → Quiet {V = V} {S = S} (search_items req expr)
  unfolding search_items
  search_items-Quiet req nil_expression = on_spaces-Quiet _
  search_items-Quiet req (single f) = on_spaces-Quiet _
  search_items-Quiet req (composite op es) = on_spaces-Quiet _
  search_items-Quiet req empty = on_spaces-Quiet _

  module _ ⦃floats : Floats⦄ (new_struct : Metadata → Outcome Metadata) where
    search-Quiet : (req : SearchIndex) → Quiet {V = V} {S = S} (search new_struct req)
    unfolding search space_distance
    search-Quiet req = bind-Quiet _ _ (reads-Quiet _) λ _. bind-Quiet _ _ (reads-Quiet _) λ expr.
        bind-Quiet _ _ (search_items-Quiet req expr)
          λ items. bind-Quiet _ _ (reads-Quiet _) λ dist. reads-Quiet _

    -- Whatever its outcome, a request moves the collection that it names as the life cycle allows,
    -- and leaves every other collection in its phase: a creation takes an absent collection to
    -- loaded or leaves it absent, a load takes a stored one to loaded or leaves it stored, a
    -- release takes a loaded one to stored, a deletion takes any to absent, and nothing else moves.
    pub handled-Allowed :
        ⦃json : Json⦄ (r : Request) (other : Bytes) (s : EdgeState V S)
        → bytes_eq (name_of r) other ≡ false
        → Allowed r (phase (name_of r) s) (phase (name_of r) (handled new_struct r s))
          × (phase other (handled new_struct r s) ≡ phase other s)
    unfolding handled
    handled-Allowed (creates req) other s apart = create_collection-Goes other s req apart
    handled-Allowed (deletes name) other s apart = delete_collection-Goes other s name apart
    handled-Allowed (gets name) other s apart =
        Goes-Marks (gets name) other s _ (λ p. refl) (get_collection-Marks name s)
    handled-Allowed (loads name) other s apart = load_collection-Goes other s name apart
    handled-Allowed (releases name) other s apart = release_collection-Goes other s name apart
    handled-Allowed (flushes name) other s apart =
        Goes-Marks (flushes name) other s _ (λ p. refl) ((flush-Quiet name).same s)
    handled-Allowed (changes req) other s apart =
        Goes-Marks (changes req) other s _ (λ p. refl) ((index-Quiet req).same s)
    handled-Allowed (searches req) other s apart =
        Goes-Marks (searches req) other s _ (λ p. refl) ((search-Quiet req).same s)
