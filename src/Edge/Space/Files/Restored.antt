-- ===== src/Edge/Space/Files/Restored.antt =====
-- A space, stored in its three files and loaded from them in the order of LoadCollection.
use coltt.Prelude.{ℕ, ◌<◌, ◌^◌, ◌≡◌, refl, All, length}
use coltt.Prelude.Bytes.{Bytes}
use coltt.Prelude.Float.{Floats}
use coltt.Prelude.Outcome.{Outcome, ok, continue}
use coltt.Inverted.Value.{Value}
use coltt.Inverted.Roaring.{Roaring}
use coltt.Inverted.Index.Postings.{posted}
use coltt.Inverted.Codec.RoundTrip.{StorableShards, deserialize_binary-serialize_binary}
use coltt.Inverted.Codec.Loaded.{DistinctShards}
use coltt.Edge.Space.{NoneVecSpace, Quantization, distancer, node_at}
use coltt.Edge.Space.Save.{save_vertex, load_vertex}
use coltt.Edge.Space.Save.RoundTrip.{StorableShard, shards_from, load_vertex-save_vertex}
use coltt.Edge.Space.Files.{
  save_vertex_metadata, load_vertex_metadata, put_metadata, save_vertex_inverted,
  load_vertex_inverted,
}
use coltt.Edge.Storage.{Json}

module _ {B : Type 0} ⦃roaring : Roaring B⦄ where
  -- The same vertices, the same postings, the metadata and the distance that goes with it.
  pub record Restores (collection_name : Bytes) (vertex vertex' : NoneVecSpace B) : Type 0 where
    pub named : vertex'.collection_name ≡ collection_name
    pub described : vertex'.vertex_metadata ≡ vertex.vertex_metadata
    pub measured : vertex'.distance ≡ distancer vertex.vertex_metadata
    pub placed : (id : ℕ) → node_at vertex' id ≡ node_at vertex id
    pub indexed :
        (k : Bytes) (v : Value) (j : ℕ)
        → posted vertex'.inverted_index k v j ≡ posted vertex.inverted_index k v j

module _ {B : Type 0} ⦃floats : Floats⦄ ⦃quantization : Quantization⦄ ⦃roaring : Roaring B⦄
    ⦃json : Json⦄ where
  -- Metadata, index and vertices, in this order; the first that fails ends it.
  abbrev pub load_files :
      Bytes → Bytes → Bytes → Bytes → NoneVecSpace B → Outcome (Unit {0}) × NoneVecSpace B
  load_files collection_name metadata inverted_index vertex_data into =
      continue (load_vertex_metadata collection_name metadata into) (λ _ vertex.
        continue (load_vertex_inverted inverted_index vertex)
          (λ _ vertex'. load_vertex vertex_data vertex'))

  -- A space and all that can be stored of it.
  pub record Storable (vertex : NoneVecSpace B) : Type 0 where
    pub encodes : json.Encodes vertex.vertex_metadata
    pub postings : StorableShards vertex.inverted_index.shards
    pub distinct : DistinctShards vertex.inverted_index.shards
    pub few : length vertex.inverted_index.shards < 2 ^ 32
    pub shards : All StorableShard (shards_from vertex 16 0)

  -- What `into` is after each of the three files.
  pub record Stages (name m i v : Bytes) (into vertex' : NoneVecSpace B) : Type 0 where
    pub described_only : NoneVecSpace B
    pub indexed_only : NoneVecSpace B
    pub stage1 : load_vertex_metadata name m into ≡ (ok tt, described_only)
    pub stage2 : load_vertex_inverted i described_only ≡ (ok tt, indexed_only)
    pub stage3 : load_vertex v indexed_only ≡ (ok tt, vertex')

  pub stages_lem :
      (name : Bytes) (vertex into : NoneVecSpace B)
      → Storable vertex
      → (m i v : Bytes) × (vertex' : NoneVecSpace B) × (save_vertex_metadata vertex ≡ ok m)
        × (json.unmarshal m ≡ ok vertex.vertex_metadata)
        × (save_vertex_inverted vertex ≡ ok i)
        × (save_vertex vertex ≡ ok v)
        × Stages name m i v into vertex'
        × Restores name vertex vertex'
  unfolding save_vertex_metadata load_vertex_metadata put_metadata save_vertex_inverted
      load_vertex_inverted node_at
  stages_lem name vertex into h =
      let (i, idx', ei, li, p) =
        deserialize_binary-serialize_binary vertex.inverted_index h.postings h.distinct h.few in
      let m = vertex.vertex_metadata in
      let described : NoneVecSpace B = record into {
        collection_name = name;
        vertex_metadata = m;
        distance = distancer m;
      } in
      let loaded : NoneVecSpace B = record described { inverted_index = idx' } in
      let (v, maps, ev, lv, n, same) = load_vertex-save_vertex vertex loaded h.shards in
      let read = json.unmarshal-marshal m h.encodes in
      (
        json.marshal m,
        i,
        v,
        record loaded { vertices = maps },
        refl,
        read,
        ei,
        ev,
        record {
          described_only = described;
          indexed_only = loaded;
          stage1 = rw read refl;
          stage2 = rw li refl;
          stage3 = lv;
        },
        record { named = refl; described = refl; measured = refl; placed = same; indexed = p },
      )

  -- A space whose metadata JSON keeps, and whose index and shards can be stored, is saved in three
  -- files without an error. Whatever space loads them, one after the other, ends without an error
  -- as a space of the same metadata, vertices and postings.
  pub load_files-Restores :
      (name : Bytes) (vertex into : NoneVecSpace B)
      → Storable vertex
      → (m i v : Bytes) × (vertex' : NoneVecSpace B) × (save_vertex_metadata vertex ≡ ok m)
        × (save_vertex_inverted vertex ≡ ok i)
        × (save_vertex vertex ≡ ok v)
        × (load_files name m i v into ≡ (ok tt, vertex'))
        × Restores name vertex vertex'
  load_files-Restores name vertex into h =
      let (m, i, v, vertex', em, read, ei, ev, g, r) = stages_lem name vertex into h in
      (m, i, v, vertex', em, ei, ev, rw (g.stage1, g.stage2, g.stage3) refl, r)
