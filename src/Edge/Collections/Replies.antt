-- ===== src/Edge/Collections/Replies.antt =====
-- The replies of the handlers of edge/edge.go where they refuse a request.
use coltt.Prelude.{
  ◌≡◌, refl, true, false, ◌&&◌, none, arith, if◌then◌else◌, Bool-cases, inl, inr, ◌⊎◌,
}
use coltt.Prelude.Bytes.{Bytes, bytes_eq_refl}
use coltt.Prelude.Dict
use coltt.Prelude.Dict.{Dict, bytes_key}
use coltt.Prelude.Float.{Floats}
use coltt.Prelude.Outcome.{
  Error, Outcome, ok, err, panic, collection_not_found, collection_not_load,
}
use coltt.Inverted.Index.{Metadata}
use coltt.Edge.Storage.{Storage}
use coltt.Edge.Vectorstore.{Vectorspace, destroy_space}
use coltt.Edge.Collections.{
  ◌>>=◌, reads, EdgeState, has_collection, already_load_collection, authorization, destroy_bucket,
}
use coltt.Edge.Collections.Handlers.{
  Collection, create_collection, after_creation, clear_failed, creation_steps, flush,
}
use coltt.Edge.Collections.Vertices.{IndexChange, SearchIndex, index, search}

module _ {V S : Type 0} where
  -- Nothing is known of the collection: it does not exist, is not loaded and has no space.
  abbrev pub Gone : Bytes → EdgeState V S → Type 0
  Gone name s =
      (has_collection name s ≡ false)
      × (already_load_collection name s ≡ false)
      × (Dict.lookup name s.spaces ≡ none)

  -- The error of a request on a collection that is not loaded.
  abbrev pub refusal : Bytes → EdgeState V S → Error
  refusal name s = if has_collection name s then collection_not_load else collection_not_found

  refused :
      (name : Bytes) (s : EdgeState V S)
      → (has_collection name s && already_load_collection name s) ≡ false
      → authorization name s ≡ err (refusal name s)
  unfolding authorization
  refused name s h = ground arith

  module _ ⦃storage : Storage S⦄ where
    clear_failed-Gone : (name : Bytes) (s : EdgeState V S) → Gone name (clear_failed name s)
    unfolding clear_failed destroy_bucket destroy_space has_collection already_load_collection
    clear_failed-Gone name s = (
      ground (arith, Dict.lookup-remove name name s.exists, bytes_eq_refl name),
      ground (arith, Dict.lookup-remove name name s.load, bytes_eq_refl name),
      ground (arith, Dict.lookup-remove name name s.spaces, bytes_eq_refl name),
    )

    after_creation-err :
        (req : Collection) (x : Outcome (Unit {0}) × EdgeState V S) (e : Error)
        → (after_creation req x).0 ≡ err e
        → Gone req.collection_name (after_creation req x).1
    unfolding after_creation
    after_creation-err req (ok u, s) e h = cc
    after_creation-err req (err e', s) e h = clear_failed-Gone req.collection_name s
    after_creation-err req (panic, s) e h = cc

    module _ ⦃vectorspace : Vectorspace V⦄ where
      -- When CreateCollection returns an error, either the collection existed and nothing has
      -- changed, or, at whatever step it failed, the collection does not exist afterwards, is not
      -- loaded and has no space.
      pub create_collection-undone :
          (req : Collection) (s : EdgeState V S) (e : Error)
          → (create_collection req s).0 ≡ err e
          → ((has_collection req.collection_name s ≡ true) × ((create_collection req s).1 ≡ s))
            ⊎ Gone req.collection_name (create_collection req s).1
      unfolding create_collection
      create_collection-undone req s e = elim (Bool-cases (has_collection req.collection_name s)) [
        | inl there ↦ rw there (λ h. inl (refl, refl))
        | inr away ↦ rw away (λ h. inr (after_creation-err req (creation_steps req s) e h))
      ]

      -- On a collection that does not exist or is not loaded, Index, Search and Flush return the
      -- error that says which, and change nothing.
      pub refused-unloaded :
          ⦃floats : Floats⦄ (new_struct : Metadata → Outcome Metadata) (change : IndexChange)
          (query : SearchIndex) (name : Bytes) (s : EdgeState V S)
          → change.collection_name ≡ name
          → query.collection_name ≡ name
          → (has_collection name s && already_load_collection name s) ≡ false
          → (index change s ≡ (err (refusal name s), s))
            × (search new_struct query s ≡ (err (refusal name s), s))
            × (flush name s ≡ (err (refusal name s), s))
      unfolding index search flush reads ◌>>=◌
      refused-unloaded new_struct change query name s c q h =
          let r = refused name s h in (rw (c, r) refl, rw (q, r) refl, rw r refl)
