-- ===== src/Edge/Collections/Restored.antt =====
-- ReleaseCollection, and LoadCollection after it: the space comes back from the storage.
use coltt.Prelude.{ℕ, ◌≡◌, refl, ◌∙◌, ap, Bool, true, false, some, none, arith}
use coltt.Prelude.Bytes.{Bytes, bytes_eq_refl}
use coltt.Prelude.Dict
use coltt.Prelude.Dict.{Dict, bytes_key}
use coltt.Prelude.Outcome.{Outcome, ok, err, panic, continue}
use coltt.Edge.Storage.{Storage, Durable, Json}
use coltt.Edge.Vectorstore.{
  Vectorspace, on_space, on_entry, fill_empty, known_quantization, destroy_space,
}
use coltt.Edge.Collections.{
  ◌>>=◌, reads, modifies, EdgeState, flag, on_spaces, has_collection, already_load_collection,
  new_authorization_bucket, eliminate_bucket_memory, destroys_space, pure, on_storage,
}
use coltt.Edge.Collections.Handlers.{
  convert_bytes_metadata, loading_steps, release_steps, release_collection, load_collection,
  bucket_life_cycle_job, clean_if, collection_detail,
}
use coltt.Edge.Collections.Stored.{Objects, Saves, Holds, save_collection-Holds}

module _ {V : Type 0} where
  pub on_space-ok :
      {A : Type 0} (name : Bytes) (method : V → Outcome A × V) (spaces : Dict Bytes V) (v : V)
      → Dict.lookup name spaces ≡ some v
      → on_space name method spaces ≡ ((method v).0, Dict.modify name (method v).1 spaces)
  unfolding on_space
  on_space-ok name method spaces v there = rw (there, on_entry) refl

continue_state :
    {A B E : Type 0} (x : Outcome A × E) (f : E → Outcome B)
    → (continue x (λ a s. (f s, s))).1 ≡ x.1
continue_state (ok a, s) f = refl
continue_state (err e, s) f = refl
continue_state (panic, s) f = refl

fill_empty-known :
    {V : Type 0} ⦃vectorspace : Vectorspace V⦄ (name : Bytes) (q : ℕ) (spaces : Dict Bytes V)
    → known_quantization q ≡ true
    → fill_empty name q spaces ≡ Dict.insert name (vectorspace.empty_space q) spaces
unfolding fill_empty
fill_empty-known name q spaces known = rw known refl

module _ {V : Type 0} ⦃vectorspace : Vectorspace V⦄ ⦃json : Json⦄ where
  -- A space of quantization `q` that loads the objects of a collection, in the order of
  -- LoadCollection, is first `v1`, then `v2`, and in the end `v`.
  pub record Loads (name : Bytes) (o : Objects) (v : V) : Type 0 where
    pub q : ℕ
    pub v1 : V
    pub v2 : V
    pub quantized : convert_bytes_metadata o.metadata ≡ ok q
    pub known : known_quantization q ≡ true
    pub first :
        vectorspace.load_vertex_metadata name o.metadata (vectorspace.empty_space q) ≡ (ok tt, v1)
    pub second : vectorspace.load_vertex_inverted o.inverted v1 ≡ (ok tt, v2)
    pub third : vectorspace.load_vertex o.vertices v2 ≡ (ok tt, v)

  module _ {S : Type 0} ⦃storage : Storage S⦄ where
    loading_steps-Loads :
        (name : Bytes) (o : Objects) (v : V) (s : EdgeState V S)
        → Holds name o s.storage
        → Loads name o v
        → (spaces : Dict Bytes V) × (loading_steps name s
            ≡ (ok tt, new_authorization_bucket name (record s { spaces = spaces })))
          × (Dict.lookup name spaces ≡ some v)
    unfolding loading_steps ◌>>=◌ reads modifies on_spaces
    loading_steps-Loads name o v s held l =
        let empty = vectorspace.empty_space l.q in
        let entered : Dict Bytes V → Outcome (Unit {0}) × V → Outcome (Unit {0}) × Dict Bytes V =
          λ m r. (r.0, Dict.modify name r.1 m) in
        let m0 = Dict.insert name empty s.spaces in
        let m1 = Dict.modify name l.v1 m0 in
        let m2 = Dict.modify name l.v2 m1 in
        let m3 = Dict.modify name v m2 in
        let e0 : Dict.lookup name m0 ≡ some empty =
          ground (arith, Dict.lookup-insert name name empty s.spaces, bytes_eq_refl name) in
        let e1 : Dict.lookup name m1 ≡ some l.v1 =
          ground (arith, Dict.lookup-modify name name l.v1 m0 empty e0, bytes_eq_refl name) in
        let e2 : Dict.lookup name m2 ≡ some l.v2 =
          ground (arith, Dict.lookup-modify name name l.v2 m1 l.v1 e1, bytes_eq_refl name) in
        let e3 : Dict.lookup name m3 ≡ some v =
          ground (arith, Dict.lookup-modify name name v m2 l.v2 e2, bytes_eq_refl name) in
        let f1 : on_space name (vectorspace.load_vertex_metadata name o.metadata) m0 ≡ (ok tt, m1) =
          on_space-ok name _ m0 empty e0 ∙ ap (entered m0) l.first in
        let f2 : on_space name (vectorspace.load_vertex_inverted o.inverted) m1 ≡ (ok tt, m2) =
          on_space-ok name _ m1 l.v1 e1 ∙ ap (entered m1) l.second in
        let f3 : on_space name (vectorspace.load_vertex o.vertices) m2 ≡ (ok tt, m3) =
          on_space-ok name _ m2 l.v2 e2 ∙ ap (entered m2) l.third in
        (
          m3,
          rw
              (
                held.metadata_held,
                l.quantized,
                fill_empty-known name l.q s.spaces l.known,
                f1,
                held.inverted_held,
                f2,
                held.vertices_held,
                f3,
              )
              refl,
          e3,
        )

    -- The clean-up of old versions changes nothing but the storage.
    clean_if-spaces :
        (name : Bytes) (r : Outcome Bool) (s : EdgeState V S)
        → (x : S) × ((clean_if name r s).1 ≡ record s { storage = x })
    unfolding clean_if on_storage pure
    clean_if-spaces name (ok true) s = ((storage.version_clean_up name s.storage).1, refl)
    clean_if-spaces name (ok false) s = (s.storage, refl)
    clean_if-spaces name (err e) s = (s.storage, refl)
    clean_if-spaces name panic s = (s.storage, refl)

    load_collection-steps :
        (name : Bytes) (s t : EdgeState V S)
        → has_collection name s ≡ true
        → already_load_collection name s ≡ false
        → loading_steps name s ≡ (ok tt, t)
        → (x : S) × ((load_collection name s).1 ≡ record t { storage = x })
    unfolding load_collection ◌>>=◌ collection_detail reads bucket_life_cycle_job
    load_collection-steps name s t has away steps =
        let (x, e) = clean_if-spaces name (storage.is_version_bucket name t.storage) t in
        (x, rw (has, away, steps) (continue_state _ _ ∙ e))

    module _ (durable : Durable storage) where
      release_collection-Holds :
          (name : Bytes) (o : Objects) (v : V) (s : EdgeState V S)
          → has_collection name s ≡ true
          → already_load_collection name s ≡ true
          → Dict.lookup name s.spaces ≡ some v
          → Saves v o
          → durable.Available s.storage
          → (x : S) × (release_collection name s ≡ (
            ok tt,
            destroys_space name (record (eliminate_bucket_memory name s) { storage = x }),
          ))
            × Holds name o x
      unfolding release_collection release_steps ◌>>=◌ modifies eliminate_bucket_memory
      release_collection-Holds name o v s has here there saves up =
          let (x, e, h) =
            save_collection-Holds durable name o v (eliminate_bucket_memory name s) there saves
              up in
          (x, rw (has, here, e) refl, h)

      -- ReleaseCollection of a collection that is loaded, and whose space is saved as three
      -- objects, succeeds over an available storage and takes the space from the registry.
      -- LoadCollection after it loads the collection again, with the space that loading the three
      -- objects into an empty space ends in.
      pub load_collection-release_collection :
          (name : Bytes) (o : Objects) (v v' : V) (s : EdgeState V S)
          → has_collection name s ≡ true
          → already_load_collection name s ≡ true
          → Dict.lookup name s.spaces ≡ some v
          → Saves v o
          → Loads name o v'
          → durable.Available s.storage
          → (released : EdgeState V S) × (release_collection name s ≡ (ok tt, released))
            × (already_load_collection name released ≡ false)
            × (Dict.lookup name released.spaces ≡ none)
            × (already_load_collection name (load_collection name released).1 ≡ true)
            × (Dict.lookup name (load_collection name released).1.spaces ≡ some v')
      unfolding has_collection already_load_collection eliminate_bucket_memory destroy_space
          new_authorization_bucket
      load_collection-release_collection name o v v' s has here there saves loads up =
          let (x, r, h) = release_collection-Holds name o v s has here there saves up in
          let released : EdgeState V S =
            destroys_space name (record (eliminate_bucket_memory name s) { storage = x }) in
          let away : flag (Dict.lookup name released.load) ≡ false =
            ground (arith, Dict.lookup-remove name name s.load, bytes_eq_refl name) in
          let gone : Dict.lookup name released.spaces ≡ none =
            ground (arith, Dict.lookup-remove name name s.spaces, bytes_eq_refl name) in
          let (spaces, steps, back) = loading_steps-Loads name o v' released h loads in
          let (y, e) = load_collection-steps name released _ has away steps in
          let again : flag (Dict.lookup name (Dict.insert name true released.load)) ≡ true =
            ground (arith, Dict.lookup-insert name name true released.load, bytes_eq_refl name) in
          (released, r, away, gone, rw e again, rw e back)
