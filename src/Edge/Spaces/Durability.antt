-- ===== src/Edge/Spaces/Durability.antt =====
-- A collection, released and loaded again, with the spaces of package edge.
use coltt.Prelude.{◌≡◌, refl, ap, true, false, some, none}
use coltt.Prelude.Bytes.{Bytes}
use coltt.Prelude.Dict
use coltt.Prelude.Dict.{Dict, bytes_key}
use coltt.Prelude.Float.{Floats}
use coltt.Prelude.Outcome.{ok}
use coltt.Inverted.Roaring.{Roaring}
use coltt.Edge.Queue.{Sorter}
use coltt.Edge.Space.{NoneVecSpace}
use coltt.Edge.Space.Files.Restored.{Restores, Storable, stages_lem}
use coltt.Edge.Storage.{Storage, Durable, Json}
use coltt.Edge.Vectorstore.{known_quantization}
use coltt.Edge.Collections.{EdgeState, has_collection, already_load_collection}
use coltt.Edge.Collections.Handlers.{convert_bytes_metadata, release_collection, load_collection}
use coltt.Edge.Collections.Stored.{Objects, Saves}
use coltt.Edge.Collections.Restored.{Loads, load_collection-release_collection}
use coltt.Edge.Spaces.{Quantizers, AnySpace, any_space, empty_space, quantization_for, within}

module _ {B : Type 0} ⦃floats : Floats⦄ ⦃roaring : Roaring B⦄ ⦃sorter : Sorter⦄
    ⦃quantizers : Quantizers⦄ ⦃json : Json⦄ where
  -- A space with its index and locks, of the quantization that its metadata names, and all of it
  -- can be stored.
  pub record Whole (any : AnySpace B) : Type 0 where
    pub has_index : any.has_index ≡ true
    pub has_locks : any.has_locks ≡ true
    pub same : any.space.vertex_metadata.quantization ≡ any.quantization
    pub known : known_quantization any.quantization ≡ true
    pub storable : Storable ⦃quantization = quantization_for any.quantization⦄ any.space

  abbrev with_space : AnySpace B → NoneVecSpace B → AnySpace B
  with_space any space = record {
    quantization = any.quantization;
    has_index = true;
    has_locks = true;
    space = space;
  }

  files_lem :
      (name : Bytes) (any : AnySpace B)
      → Whole any
      → (o : Objects) × (space : NoneVecSpace B) × Saves any o
        × Loads name o (with_space any space)
        × Restores name any.space space
  unfolding empty_space within convert_bytes_metadata
  files_lem name any h =
      let (m, i, v, space, em, read, ei, ev, g, r) =
        stages_lem ⦃quantization = quantization_for any.quantization⦄ name any.space
          (empty_space any.quantization).space h.storable in
      (
        record { metadata = m; vertices = v; inverted = i },
        space,
        record {
          metadata_saved = em;
          vertices_saved = rw h.has_locks ev;
          inverted_saved = rw h.has_index ei;
        },
        record {
          q = any.quantization;
          v1 = record {
            quantization = any.quantization;
            has_index = false;
            has_locks = false;
            space = g.described_only;
          };
          v2 = record {
            quantization = any.quantization;
            has_index = true;
            has_locks = false;
            space = g.indexed_only;
          };
          quantized = rw read (ap ok h.same);
          known = h.known;
          first = rw g.stage1 refl;
          second = rw g.stage2 refl;
          third = rw g.stage3 refl;
        },
        r,
      )

  module _ {S : Type 0} ⦃storage : Storage S⦄ (durable : Durable storage) where
    -- A loaded collection whose space is whole and can be stored is released without an error over
    -- an available storage, and its space leaves the registry. Loading it again brings back a space
    -- of the same quantization with the same metadata, the same vertices under the same ids and the
    -- same postings, and the collection is loaded.
    pub load_collection-Restores :
        (name : Bytes) (any : AnySpace B) (s : EdgeState (AnySpace B) S)
        → has_collection name s ≡ true
        → already_load_collection name s ≡ true
        → Dict.lookup name s.spaces ≡ some any
        → Whole any
        → durable.Available s.storage
        → (released : EdgeState (AnySpace B) S) × (any' : AnySpace B) × (release_collection name s
            ≡ (ok tt, released))
          × (Dict.lookup name released.spaces ≡ none)
          × (already_load_collection name (load_collection name released).1 ≡ true)
          × (Dict.lookup name (load_collection name released).1.spaces ≡ some any')
          × (any'.quantization ≡ any.quantization)
          × Restores name any.space any'.space
    load_collection-Restores name any s has here there whole up =
        let (o, space, saves, loads, r) = files_lem name any whole in
        let any' = with_space any space in
        let (released, done, away, gone, again, back) =
          load_collection-release_collection durable name o any any' s has here there saves loads
            up in
        (released, any', done, gone, again, back, refl, r)
