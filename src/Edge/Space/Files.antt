-- ===== src/Edge/Space/Files.antt =====
-- The other two files of a space in edge/none_vectorstore.go: its metadata, as JSON, and its
-- inverted index; and the three files together.
pub mod Restored
use coltt.Prelude.{ℕ}
use coltt.Prelude.Bytes.{Bytes}
use coltt.Prelude.Float.{Floats}
use coltt.Prelude.Outcome.{Outcome, ok, err, panic, continue}
use coltt.Inverted.Roaring.{Roaring}
use coltt.Inverted.Index.{new_bitmap_index}
use coltt.Inverted.Codec.{serialize_binary, deserialize_binary}
use coltt.Edge.Space.{NoneVecSpace, SpaceMetadata, distancer, with_index}
use coltt.Edge.Storage.{Json}

module _ {B : Type 0} where
  module _ ⦃json : Json⦄ where
    -- json.Marshal of this struct does not fail
    unfoldable pub save_vertex_metadata : NoneVecSpace B → Outcome Bytes
    save_vertex_metadata vertex = ok (json.marshal vertex.vertex_metadata)

    put_metadata :
        Bytes → NoneVecSpace B → Outcome SpaceMetadata → Outcome (Unit {0}) × NoneVecSpace B
    put_metadata collection_name vertex (ok metadata) = (
      ok tt,
      record vertex {
        collection_name = collection_name;
        vertex_metadata = metadata;
        distance = distancer metadata;
      },
    )
    put_metadata collection_name vertex (err e) = (err e, vertex)
    put_metadata collection_name vertex panic = (panic, vertex)

    unfoldable pub load_vertex_metadata :
        Bytes → Bytes → NoneVecSpace B → Outcome (Unit {0}) × NoneVecSpace B
    unfolding put_metadata
    load_vertex_metadata collection_name bytes vertex =
        put_metadata collection_name vertex (json.unmarshal bytes)

  module _ ⦃floats : Floats⦄ ⦃roaring : Roaring B⦄ where
    unfoldable pub save_vertex_inverted : NoneVecSpace B → Outcome Bytes
    save_vertex_inverted vertex = serialize_binary vertex.inverted_index

    -- The index is a new one, which the bytes are read into.
    unfoldable pub load_vertex_inverted :
        Bytes → NoneVecSpace B → Outcome (Unit {0}) × NoneVecSpace B
    load_vertex_inverted bytes vertex =
        let (r, idx) = deserialize_binary bytes new_bitmap_index in
        (r, record vertex { inverted_index = idx })
