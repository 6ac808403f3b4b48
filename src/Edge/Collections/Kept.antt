-- ===== src/Edge/Collections/Kept.antt =====
-- The handlers, step by step, and the loaded collections.
use coltt.Prelude.{Bool, true, false}
use coltt.Prelude.Bytes.{Bytes}
use coltt.Prelude.Dict.{bytes_key}
use coltt.Prelude.Outcome.{Outcome}
use coltt.Edge.Storage.{Storage, Json}
use coltt.Edge.Vectorstore.{Vectorspace, on_space}
use coltt.Edge.Collections.{EdgeState, on_spaces}
use coltt.Edge.Collections.Handlers.{
  Collection, metadata_of, creation_steps, set_versioning, loading_steps, release_steps,
}
use coltt.Edge.Collections.Rules.{
  Loaded-Stable, LoadedWith-Stable, LoadedWithout-Stable, save_collection_lem, on_storage_lem,
  weaken, on_spaces_lem, on_space-Registers, create_space-Registers, fill_empty-Loaded,
}
use coltt.Edge.Collections.Triple.{Triple, bind_lem, reads_lem, modifies_lem, pure_lem}
use coltt.Edge.Collections.Loaded.{
  Loaded, LoadedWith, LoadedWithout, new_authorization_bucket-Loaded,
  eliminate_bucket_memory-Loaded, destroys_space-Loaded,
}

module _ {V S : Type 0} ⦃vectorspace : Vectorspace V⦄ ⦃storage : Storage S⦄ where
  pub registered :
      {A : Type 0} (name : Bytes) (method : V → Outcome A × V)
      → Triple {E = EdgeState V S} Loaded Loaded
          (LoadedWith name)
          (on_spaces (on_space name method))
  registered name method =
      on_spaces_lem name (on_space name method) (on_space-Registers name method)

  still :
      {A : Type 0} (name : Bytes) (method : V → Outcome A × V)
      → Triple {E = EdgeState V S} Loaded
          (LoadedWith name)
          (LoadedWith name)
          (on_spaces (on_space name method))
  still name method =
      weaken Loaded Loaded (LoadedWith name) (LoadedWith name) _ (λ s h. h.0)
        (registered name method)

  set_versioning_lem :
      (name : Bytes) (versioning : Bool)
      → Triple {E = EdgeState V S} Loaded Loaded Loaded (set_versioning {V = V} name versioning)
  unfolding set_versioning
  set_versioning_lem name true = on_storage_lem Loaded Loaded-Stable _
  set_versioning_lem name false = pure_lem Loaded Loaded tt

  pub creation_steps_lem :
      (req : Collection) → Triple {E = EdgeState V S} Loaded Loaded Loaded (creation_steps req)
  unfolding creation_steps
  creation_steps_lem req =
      let name = req.collection_name in
      bind_lem Loaded Loaded Loaded Loaded _ _ (on_storage_lem Loaded Loaded-Stable _) λ _.
        bind_lem Loaded Loaded Loaded Loaded _ _ (set_versioning_lem name req.versioning) λ _.
          bind_lem Loaded Loaded (LoadedWith name) Loaded _ _
            (on_spaces_lem name _ (create_space-Registers name (metadata_of req)))
            λ _.
              bind_lem Loaded (LoadedWith name) (LoadedWith name) Loaded _ _
                (save_collection_lem (LoadedWith name) (LoadedWith-Stable name) name)
                λ _.
                  modifies_lem Loaded (LoadedWith name) Loaded _
                    (new_authorization_bucket-Loaded name)

  pub release_steps_lem :
      (name : Bytes) → Triple {E = EdgeState V S} Loaded Loaded Loaded (release_steps name)
  unfolding release_steps
  release_steps_lem name =
      bind_lem Loaded Loaded (LoadedWithout name) Loaded _ _
        (modifies_lem Loaded Loaded (LoadedWithout name) _ (eliminate_bucket_memory-Loaded name))
        λ _.
          bind_lem Loaded (LoadedWithout name) (LoadedWithout name) Loaded _ _
            (save_collection_lem (LoadedWithout name) (LoadedWithout-Stable name) name)
            λ _. modifies_lem Loaded (LoadedWithout name) Loaded _ (destroys_space-Loaded name)

  module _ ⦃json : Json⦄ where
    pub loading_steps_lem :
        (name : Bytes) → Triple {E = EdgeState V S} Loaded Loaded Loaded (loading_steps name)
    unfolding loading_steps
    loading_steps_lem name =
        bind_lem Loaded Loaded Loaded Loaded _ _ (reads_lem Loaded Loaded _ (λ s h. h)) λ metadata.
          bind_lem Loaded Loaded Loaded Loaded _ _ (reads_lem Loaded Loaded _ (λ s h. h))
            λ quantization.
              bind_lem Loaded Loaded Loaded Loaded _ _
                (modifies_lem Loaded Loaded Loaded _ (fill_empty-Loaded name quantization))
                λ _. bind_lem Loaded Loaded (LoadedWith name) Loaded _ _ (registered name _) λ _.
                  bind_lem Loaded (LoadedWith name) (LoadedWith name) Loaded _ _
                    (reads_lem Loaded (LoadedWith name) _ (λ s h. h.0))
                    λ inverted_index.
                      bind_lem Loaded (LoadedWith name) (LoadedWith name) Loaded _ _ (still name _)
                        λ _.
                          bind_lem Loaded (LoadedWith name) (LoadedWith name) Loaded _ _
                            (reads_lem Loaded (LoadedWith name) _ (λ s h. h.0))
                            λ vertex_data.
                              bind_lem Loaded (LoadedWith name) (LoadedWith name) Loaded _ _
                                (still name _)
                                λ _.
                                  modifies_lem Loaded (LoadedWith name) Loaded _
                                    (new_authorization_bucket-Loaded name)
