-- ===== src/Edge/Collections/Handlers.antt =====
-- The handlers of edge/edge.go that make, load, store and delete collections. The name of the
-- request stands for the request where it holds nothing else.
use coltt.Prelude.{ℕ, Bool, true, false, List, if◌then◌else◌}
use coltt.Prelude.Bytes.{Bytes}
use coltt.Prelude.Outcome.{Outcome, ok, err, panic, collection_not_found, collection_exists}
use coltt.Edge.Space.{SpaceMetadata}
use coltt.Edge.Storage.{Storage, Json}
use coltt.Edge.Vectorstore.{
  Vectorspace, read_space, create_space, fill_empty, loaded_metadata, loaded_vertex,
  loaded_inverted,
}
use coltt.Edge.Collections.{
  ◌>>=◌, ◌>>◌, Action, pure, reads, modifies, EdgeState, has_collection, already_load_collection,
  new_authorization_bucket, eliminate_bucket_memory, destroy_bucket, destroys_space, authorization,
  on_spaces, on_storage, get_file, metadata_object, vertex_object, inverted_object, ProtoIndex,
  index_design_analyze, reverse_index_design, save_collection,
}

-- edgepb.Collection
pub record Collection : Type 0 where
  pub collection_name : Bytes
  pub index : List ProtoIndex
  pub distance : ℕ
  pub quantization : ℕ
  pub dim : ℕ
  pub versioning : Bool

-- edgepb.CollectionDetail; a collection that is not loaded has a name alone
pub data CollectionDetail : Type 0 where
  loaded : (collection : Collection) (size : ℕ) → CollectionDetail
  not_loaded : Bytes → CollectionDetail

abbrev pub metadata_of : Collection → SpaceMetadata
metadata_of req = record {
  dim = req.dim;
  distance = req.distance;
  quantization = req.quantization;
  index_type = index_design_analyze req.index;
  versioning = req.versioning;
}

abbrev pub quantization_of : Outcome SpaceMetadata → Outcome ℕ
quantization_of (ok metadata) = ok metadata.quantization
quantization_of (err e) = err e
quantization_of panic = panic

module _ ⦃json : Json⦄ where
  -- the quantization of the stored metadata
  unfoldable pub convert_bytes_metadata : Bytes → Outcome ℕ
  convert_bytes_metadata bytes = quantization_of (json.unmarshal bytes)

module _ {V : Type 0} ⦃vectorspace : Vectorspace V⦄ where
  -- the detail of a loaded collection, read from its space
  unfoldable pub detail_of : Bytes → V → Outcome CollectionDetail
  detail_of name space =
      let m = vectorspace.vertex_metadata space in
      ok (
        loaded
          (record {
            collection_name = name;
            index = reverse_index_design m.index_type;
            distance = m.distance;
            quantization = m.quantization;
            dim = m.dim;
            versioning = m.versioning;
          })
          (vectorspace.load_size space))

module _ {V S : Type 0} ⦃storage : Storage S⦄ where
  -- BucketLifeCycleJob: a failing check is logged, and the clean-up skipped
  unfoldable pub clean_if : Bytes → Outcome Bool → Action (EdgeState V S) (Unit {0})
  clean_if name (ok true) = on_storage (storage.version_clean_up name)
  clean_if name (ok false) = pure tt
  clean_if name (err e) = pure tt
  clean_if name panic = λ s. (panic, s)

  unfoldable pub bucket_life_cycle_job : Bytes → Action (EdgeState V S) (Unit {0})
  unfolding clean_if
  bucket_life_cycle_job name s = clean_if name (storage.is_version_bucket name s.storage) s

  unfoldable pub set_versioning : Bytes → Bool → Action (EdgeState V S) (Unit {0})
  set_versioning name true = on_storage (storage.versioning name)
  set_versioning name false = pure tt

  unfoldable pub delete_collection : Bytes → Action (EdgeState V S) (Unit {0})
  delete_collection name s =
      if has_collection name s
      then (do
        modifies (destroy_bucket name)
        modifies (destroys_space name)
        on_storage (storage.remove_bucket name))
          s
      else (ok tt, s)

  -- what the handler does after a reply that is marked to be cleared
  unfoldable pub clear_failed : Bytes → EdgeState V S → EdgeState V S
  clear_failed name s =
      destroy_bucket name
        (destroys_space name (record s { storage = (storage.remove_bucket name s.storage).1 }))

  -- A recovered panic leaves no result, so that the handler panics when it reads the status.
  unfoldable pub after_creation :
      Collection → Outcome (Unit {0}) × EdgeState V S → Outcome Collection × EdgeState V S
  after_creation req (ok u, s) = (ok req, s)
  after_creation req (err e, s) = (err e, clear_failed req.collection_name s)
  after_creation req (panic, s) = (panic, s)

  module _ ⦃vectorspace : Vectorspace V⦄ where
    unfoldable pub creation_steps : Collection → Action (EdgeState V S) (Unit {0})
    unfolding set_versioning
    creation_steps req = do
      on_storage (storage.create_bucket req.collection_name)
      set_versioning req.collection_name req.versioning
      on_spaces (create_space req.collection_name (metadata_of req))
      save_collection req.collection_name
      modifies (new_authorization_bucket req.collection_name)

    unfoldable pub create_collection : Collection → Action (EdgeState V S) Collection
    unfolding after_creation
    create_collection req s =
        if has_collection req.collection_name s
        then (err collection_exists, s)
        else after_creation req (creation_steps req s)

    unfoldable pub collection_detail : Bytes → Action (EdgeState V S) CollectionDetail
    unfolding detail_of
    collection_detail name = reads (λ s. read_space name (detail_of name) s.spaces)

    unfoldable pub get_collection : Bytes → Action (EdgeState V S) CollectionDetail
    get_collection name s =
        if has_collection name s
        then (if already_load_collection name s
            then collection_detail name s
            else (ok (not_loaded name), s))
        else (err collection_not_found, s)

    module _ ⦃json : Json⦄ where
      unfoldable pub loading_steps : Bytes → Action (EdgeState V S) (Unit {0})
      loading_steps name = do
        metadata ← get_file name (metadata_object name)
        quantization ← reads (λ s. convert_bytes_metadata metadata)
        modifies (λ s. record s { spaces = fill_empty name quantization s.spaces })
        on_spaces (loaded_metadata name metadata)
        inverted_index ← get_file name (inverted_object name)
        on_spaces (loaded_inverted name inverted_index)
        vertex_data ← get_file name (vertex_object name)
        on_spaces (loaded_vertex name vertex_data)
        modifies (new_authorization_bucket name)

      unfoldable pub load_collection : Bytes → Action (EdgeState V S) CollectionDetail
      load_collection name s =
          if has_collection name s
          then (if already_load_collection name s
              then collection_detail name s
              else (do loading_steps name; bucket_life_cycle_job name; collection_detail name) s)
          else (err collection_not_found, s)

    -- The collection is not loaded any more before it is saved.
    unfoldable pub release_steps : Bytes → Action (EdgeState V S) (Unit {0})
    release_steps name = do
      modifies (eliminate_bucket_memory name)
      save_collection name
      modifies (destroys_space name)

    unfoldable pub release_collection : Bytes → Action (EdgeState V S) (Unit {0})
    release_collection name s =
        if has_collection name s
        then (if already_load_collection name s then release_steps name s else (ok tt, s))
        else (err collection_not_found, s)

    unfoldable pub flush : Bytes → Action (EdgeState V S) (Unit {0})
    flush name = do reads (authorization name); save_collection name
