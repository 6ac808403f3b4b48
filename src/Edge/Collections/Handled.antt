-- ===== src/Edge/Collections/Handled.antt =====
-- The handlers of edge/edge.go and the loaded collections.
use coltt.Prelude.{Bool, true, false, Bool-cases, inl, inr, ◌==◌}
use coltt.Prelude.Bytes.{Bytes}
use coltt.Prelude.Dict.{bytes_key}
use coltt.Prelude.Float.{Floats}
use coltt.Prelude.Outcome.{Outcome, ok, err, panic}
use coltt.Inverted.Filter.{FilterExpression, nil_expression}
use coltt.Inverted.Index.{Metadata}
use coltt.Edge.Storage.{Storage, Json}
use coltt.Edge.Vectorstore.{Vectorspace, on_space}
use coltt.Edge.Collections.{
  EdgeState, has_collection, already_load_collection, destroy_bucket, on_spaces,
}
use coltt.Edge.Collections.Handlers.{
  Collection, create_collection, after_creation, creation_steps, delete_collection, clear_failed,
  get_collection, collection_detail, load_collection, release_collection, release_steps, flush,
  bucket_life_cycle_job, clean_if,
}
use coltt.Edge.Collections.Vertices.{
  IndexChange, SearchIndex, index, change_vertices, search, search_items, space_distance,
}
use coltt.Edge.Collections.Triple.{
  Ends, Ends-state, Triple, bind_lem, reads_lem, modifies_lem, pure_lem,
}
use coltt.Edge.Collections.Loaded.{
  Loaded, LoadedWith, LoadedWithout, destroy_bucket-Loaded, destroys_space-Loaded, storage-Loaded,
}
use coltt.Edge.Collections.Rules.{Loaded-Stable, save_collection_lem, on_storage_lem, strengthen}
use coltt.Edge.Collections.Kept.{
  creation_steps_lem, release_steps_lem, loading_steps_lem, registered,
}

module _ {V S : Type 0} ⦃vectorspace : Vectorspace V⦄ ⦃storage : Storage S⦄ where
  clear_failed-Loaded : (name : Bytes) (s : EdgeState V S) → Loaded s → Loaded (clear_failed name s)
  unfolding clear_failed destroy_bucket
  clear_failed-Loaded name s l =
      let x = (storage.remove_bucket name s.storage).1 in
      destroys_space-Loaded name (destroy_bucket name (record s { storage = x }))
        (destroy_bucket-Loaded name (record s { storage = x }) (storage-Loaded x s l))

  after_creation-Loaded :
      (req : Collection) (x : Outcome (Unit {0}) × EdgeState V S)
      → Ends Loaded Loaded x
      → Loaded (after_creation req x).1
  unfolding after_creation
  after_creation-Loaded req (ok u, s) l = l
  after_creation-Loaded req (err e, s) l = clear_failed-Loaded req.collection_name s l
  after_creation-Loaded req (panic, s) l = l

  pub create_collection-Loaded :
      (req : Collection) (s : EdgeState V S) → Loaded s → Loaded (create_collection req s).1
  unfolding create_collection
  create_collection-Loaded req s l = elim (Bool-cases (has_collection req.collection_name s)) [
    | inl e ↦ rw e l
    | inr e ↦
        rw e (after_creation-Loaded req (creation_steps req s) ((creation_steps_lem req).run s l))
  ]

  pub release_collection-Loaded :
      (name : Bytes) (s : EdgeState V S) → Loaded s → Loaded (release_collection name s).1
  unfolding release_collection
  release_collection-Loaded name s l = elim (Bool-cases (has_collection name s)) [
    | inr e ↦ rw e l
    | inl e ↦ elim (Bool-cases (already_load_collection name s)) [
      | inr e' ↦ rw (e, e') l
      | inl e' ↦
          rw (e, e') (Ends-state Loaded (release_steps name s) ((release_steps_lem name).run s l))
    ]
  ]

  pub delete_collection-Loaded :
      (name : Bytes) (s : EdgeState V S) → Loaded s → Loaded (delete_collection name s).1
  unfolding delete_collection
  delete_collection-Loaded name s l = elim (Bool-cases (has_collection name s)) [
    | inr e ↦ rw e l
    | inl e ↦ rw e (
        Ends-state Loaded _ (
          (bind_lem Loaded Loaded (LoadedWithout name) Loaded _ _
              (modifies_lem Loaded Loaded (LoadedWithout name) _ (destroy_bucket-Loaded name))
              λ _.
                bind_lem Loaded (LoadedWithout name) Loaded Loaded _ _
                  (modifies_lem Loaded (LoadedWithout name) Loaded _ (destroys_space-Loaded name))
                  λ _. on_storage_lem Loaded Loaded-Stable _).run
            s l))
  ]

  collection_detail_lem :
      (name : Bytes) → Triple {E = EdgeState V S} Loaded Loaded Loaded (collection_detail name)
  unfolding collection_detail
  collection_detail_lem name = reads_lem Loaded Loaded _ (λ s h. h)

  pub get_collection-Loaded :
      (name : Bytes) (s : EdgeState V S) → Loaded s → Loaded (get_collection name s).1
  unfolding get_collection
  get_collection-Loaded name s l = elim (Bool-cases (has_collection name s)) [
    | inr e ↦ rw e l
    | inl e ↦ elim (Bool-cases (already_load_collection name s)) [
      | inr e' ↦ rw (e, e') l
      | inl e' ↦
          rw (e, e')
            (Ends-state Loaded (collection_detail name s) ((collection_detail_lem name).run s l))
    ]
  ]

  clean_if_lem :
      (name : Bytes) (r : Outcome Bool)
      → Triple {E = EdgeState V S} Loaded Loaded Loaded (clean_if name r)
  unfolding clean_if
  clean_if_lem name (ok true) = on_storage_lem Loaded Loaded-Stable _
  clean_if_lem name (ok false) = pure_lem Loaded Loaded tt
  clean_if_lem name (err e) = pure_lem Loaded Loaded tt
  clean_if_lem name panic = record { run = λ s l. l }

  bucket_life_cycle_job_lem :
      (name : Bytes) → Triple {E = EdgeState V S} Loaded Loaded Loaded (bucket_life_cycle_job name)
  unfolding bucket_life_cycle_job
  bucket_life_cycle_job_lem name = record {
    run = λ s l. (clean_if_lem name (storage.is_version_bucket name s.storage)).run s l;
  }

  pub flush-Loaded : (name : Bytes) (s : EdgeState V S) → Loaded s → Loaded (flush name s).1
  unfolding flush
  flush-Loaded name s l = Ends-state Loaded _ (
      (bind_lem Loaded Loaded Loaded Loaded _ _ (reads_lem Loaded Loaded _ (λ s h. h))
          λ _. save_collection_lem Loaded Loaded-Stable name).run
        s l)

  on_vertices_lem :
      {A : Type 0} (name : Bytes) (method : V → Outcome A × V)
      → Triple {E = EdgeState V S} Loaded Loaded Loaded (on_spaces (on_space name method))
  on_vertices_lem name method =
      strengthen Loaded Loaded (LoadedWith name) Loaded _ (λ s h. h.0) (registered name method)

  change_vertices_lem :
      (req : IndexChange) → Triple {E = EdgeState V S} Loaded Loaded Loaded (change_vertices req)
  unfolding change_vertices
  change_vertices_lem req = elim (Bool-cases (req.changed == 0)) [
    | inl e ↦ rw e (on_vertices_lem req.collection_name _)
    | inr e ↦ elim (Bool-cases (req.changed == 1)) [
      | inl e' ↦ rw (e, e') (on_vertices_lem req.collection_name _)
      | inr e' ↦ rw (e, e') (reads_lem Loaded Loaded _ (λ s h. h))
    ]
  ]

  pub index-Loaded : (req : IndexChange) (s : EdgeState V S) → Loaded s → Loaded (index req s).1
  unfolding index
  index-Loaded req s l = Ends-state Loaded _ (
      (bind_lem Loaded Loaded Loaded Loaded _ _ (reads_lem Loaded Loaded _ (λ s h. h))
          λ _. change_vertices_lem req).run
        s l)

  search_items_lem :
      (req : SearchIndex) (expr : FilterExpression)
      → Triple {E = EdgeState V S} Loaded Loaded Loaded (search_items req expr)
  unfolding search_items
  search_items_lem req nil_expression = on_vertices_lem req.collection_name _
  search_items_lem req expr = on_vertices_lem req.collection_name _

  module _ ⦃floats : Floats⦄ where
    pub search-Loaded :
        (new_struct : Metadata → Outcome Metadata) (req : SearchIndex) (s : EdgeState V S)
        → Loaded s
        → Loaded (search new_struct req s).1
    unfolding search space_distance
    search-Loaded new_struct req s l = Ends-state Loaded _ (
        (bind_lem Loaded Loaded Loaded Loaded _ _ (reads_lem Loaded Loaded _ (λ s h. h)) λ _.
            bind_lem Loaded Loaded Loaded Loaded _ _ (reads_lem Loaded Loaded _ (λ s h. h)) λ expr.
              bind_lem Loaded Loaded Loaded Loaded _ _ (search_items_lem req expr) λ items.
                bind_lem Loaded Loaded Loaded Loaded _ _ (reads_lem Loaded Loaded _ (λ s h. h))
                  λ dist. reads_lem Loaded Loaded _ (λ s h. h)).run
          s l)

  module _ ⦃json : Json⦄ where
    pub load_collection-Loaded :
        (name : Bytes) (s : EdgeState V S) → Loaded s → Loaded (load_collection name s).1
    unfolding load_collection
    load_collection-Loaded name s l = elim (Bool-cases (has_collection name s)) [
      | inr e ↦ rw e l
      | inl e ↦ elim (Bool-cases (already_load_collection name s)) [
        | inl e' ↦
            rw (e, e')
              (Ends-state Loaded (collection_detail name s) ((collection_detail_lem name).run s l))
        | inr e' ↦
            rw (e, e')
              (Ends-state Loaded _ (
                (bind_lem Loaded Loaded Loaded Loaded _ _ (loading_steps_lem name) λ _.
                    bind_lem Loaded Loaded Loaded Loaded _ _ (bucket_life_cycle_job_lem name)
                      λ _. collection_detail_lem name).run
                  s l))
      ]
    ]
