-- ===== src/Edge/Collections/Stored.antt =====
-- What save_collection leaves in the storage.
use coltt.Prelude.{◌≡◌, ◌≢◌, refl, ◌∙◌, ap, some, ◌++◌, length, arith}
use mathlib.Core.List.{append_cancel_left}
use coltt.Prelude.Bytes.{Bytes}
use coltt.Prelude.Dict
use coltt.Prelude.Dict.{Dict, bytes_key}
use coltt.Prelude.Outcome.{Outcome, ok}
use coltt.Edge.Storage.{Storage, Durable}
use coltt.Edge.Vectorstore.{Vectorspace, read_space}
use coltt.Edge.Collections.{
  ◌>>=◌, reads, EdgeState, on_storage, save_collection, metadata_object, vertex_object,
  inverted_object,
}

-- The three objects of a collection.
pub record Objects : Type 0 where
  pub metadata : Bytes
  pub vertices : Bytes
  pub inverted : Bytes

module _ {V : Type 0} ⦃vectorspace : Vectorspace V⦄ where
  -- The space is saved as these objects.
  pub record Saves (v : V) (o : Objects) : Type 0 where
    pub metadata_saved : vectorspace.save_vertex_metadata v ≡ ok o.metadata
    pub vertices_saved : vectorspace.save_vertex v ≡ ok o.vertices
    pub inverted_saved : vectorspace.save_vertex_inverted v ≡ ok o.inverted

pub read_space-some :
    {V A : Type 0} (name : Bytes) (method : V → Outcome A) (spaces : Dict Bytes V) (v : V)
    → Dict.lookup name spaces ≡ some v
    → read_space name method spaces ≡ method v
unfolding read_space
read_space-some name method spaces v there = rw (there, read_space) refl

append_differs : (name a b : Bytes) → length a ≢ length b → name ++ a ≢ name ++ b
append_differs name a b h e = h (ap length (append_cancel_left name a b e))

module _ {S : Type 0} ⦃storage : Storage S⦄ where
  abbrev pub put_objects : Bytes → Objects → S → S
  put_objects name o s =
      let s1 = (storage.put_object name (metadata_object name) o.metadata s).1 in
      let s2 = (storage.put_object name (vertex_object name) o.vertices s1).1 in
      (storage.put_object name (inverted_object name) o.inverted s2).1

  -- The objects of the collection in the storage.
  pub record Holds (name : Bytes) (o : Objects) (s : S) : Type 0 where
    pub metadata_held : storage.get_object name (metadata_object name) s ≡ ok o.metadata
    pub vertices_held : storage.get_object name (vertex_object name) s ≡ ok o.vertices
    pub inverted_held : storage.get_object name (inverted_object name) s ≡ ok o.inverted

  module _ (durable : Durable storage) where
    pub put_objects-Holds :
        (name : Bytes) (o : Objects) (s : S)
        → durable.Available s
        → Holds name o (put_objects name o s)
    put_objects-Holds name o s h =
        let s1 = (storage.put_object name (metadata_object name) o.metadata s).1 in
        let s2 = (storage.put_object name (vertex_object name) o.vertices s1).1 in
        let h1 : durable.Available s1 = durable.put-Available _ _ _ s h in
        let h2 : durable.Available s2 = durable.put-Available _ _ _ s1 h1 in
        record {
          metadata_held =
              durable.get-put_other _ _ _ o.inverted s2 h2 (append_differs name _ _ (omega arith))
              ∙ durable.get-put_other _ _ _ o.vertices s1 h1 (append_differs name _ _ (omega arith))
              ∙ durable.get-put _ _ o.metadata s h;
          vertices_held =
              durable.get-put_other _ _ _ o.inverted s2 h2 (append_differs name _ _ (omega arith))
              ∙ durable.get-put _ _ o.vertices s1 h1;
          inverted_held = durable.get-put _ _ o.inverted s2 h2;
        }

    pub put_objects-Available :
        (name : Bytes) (o : Objects) (s : S)
        → durable.Available s
        → durable.Available (put_objects name o s)
    put_objects-Available name o s h =
        durable.put-Available _ _ _ _
          (durable.put-Available _ _ _ _ (durable.put-Available _ _ _ s h))

    module _ {V : Type 0} ⦃vectorspace : Vectorspace V⦄ where
      pub save_collection-Holds :
          (name : Bytes) (o : Objects) (v : V) (s : EdgeState V S)
          → Dict.lookup name s.spaces ≡ some v
          → Saves v o
          → durable.Available s.storage
          → (x : S) × (save_collection name s ≡ (ok tt, record s { storage = x })) × Holds name o x
      unfolding save_collection ◌>>=◌ reads on_storage
      save_collection-Holds name o v s there saves h =
          let s1 = (storage.put_object name (metadata_object name) o.metadata s.storage).1 in
          let s2 = (storage.put_object name (vertex_object name) o.vertices s1).1 in
          let h1 : durable.Available s1 = durable.put-Available _ _ _ s.storage h in
          let h2 : durable.Available s2 = durable.put-Available _ _ _ s1 h1 in
          (
            put_objects name o s.storage,
            rw
                (
                  read_space-some name vectorspace.save_vertex_metadata s.spaces v there,
                  saves.metadata_saved,
                  durable.put-ok name (metadata_object name) o.metadata s.storage h,
                  read_space-some name vectorspace.save_vertex s.spaces v there,
                  saves.vertices_saved,
                  durable.put-ok name (vertex_object name) o.vertices s1 h1,
                  read_space-some name vectorspace.save_vertex_inverted s.spaces v there,
                  saves.inverted_saved,
                  durable.put-ok name (inverted_object name) o.inverted s2 h2,
                )
                refl,
            put_objects-Holds name o s.storage h,
          )
