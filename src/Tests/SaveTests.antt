-- ===== src/Tests/SaveTests.antt =====
-- The theorems on the files of a space, at a space of one vertex.
use coltt.Prelude.{ℕ, replicate, ◌≡◌, refl, All, List, [], ◌∷◌, length, arith}
use coltt.Prelude.Bytes.{Bytes, bytes_eq}
use coltt.Prelude.Dict
use coltt.Prelude.Dict.{Dict, bytes_key, nat_key}
use coltt.Prelude.Int.{pos}
use coltt.Prelude.Binary.{le}
use coltt.Prelude.Outcome.{ok}
use coltt.Inverted.Value.{value_eq, identity, int64}
use coltt.Inverted.Index
use coltt.Inverted.Index.{Metadata}
use coltt.Edge.Sharding.{shard_vertex}
use coltt.Edge.Space.{
  NoneVecSpace, new_none_vectorstore, commit_vertex, store_node, node_at, stored_vector, normalized,
}
use coltt.Edge.Space.Save.{save_vertex, load_vertex}
use coltt.Edge.Space.Save.RoundTrip.{StorableShard, shards_from, load_vertex-save_vertex}
use coltt.Edge.Space.Files.{save_vertex_metadata, save_vertex_inverted}
use coltt.Edge.Space.Files.Restored.{Storable, load_files, Restores, load_files-Restores}
use coltt.Tests.Instances.{list_roaring, test_floats, plain_vectors, one_design, design}

abbrev pub key : Bytes
key = b'k' ∷ []

abbrev pub one : Metadata
one = (key, int64 (pos 1)) ∷ []

abbrev empty_space : NoneVecSpace (List ℕ)
empty_space = new_none_vectorstore key design

abbrev pub with_seven : NoneVecSpace (List ℕ)
with_seven = (commit_vertex 7 (0 ∷ []) one empty_space).1

empty_shard : StorableShard []
empty_shard = (omega arith, tt, tt)

-- The vertex stands in the third shard.
small_shards : All StorableShard (shards_from with_seven 16 0)
unfolding commit_vertex Index.add Index.add_entry Dict.lookup Index.get_shard new_none_vectorstore
    Dict.insert value_eq bytes_eq identity store_node shard_vertex le stored_vector normalized
small_shards =
    let e : StorableShard [] = empty_shard in
    let others : All StorableShard (replicate 13 []) =
      (e, (e, (e, (e, (e, (e, (e, (e, (e, (e, (e, (e, (e, tt))))))))))))) in
    (
      e,
      (
        e,
        (
          (
            omega arith,
            (
              (
                omega arith,
                (
                  omega arith,
                  (omega arith, tt),
                  omega arith,
                  ((omega arith, omega arith), tt),
                  (refl, tt),
                ),
              ),
              tt,
            ),
            (refl, tt),
          ),
          others,
        ),
      ),
    )

load_vertex-save_vertex_example :
    (s : Bytes) × (shards : _) × (save_vertex with_seven ≡ ok s)
    × (load_vertex s empty_space ≡ (ok tt, record empty_space { vertices = shards }))
    × (length shards ≡ 16)
    × ((id : ℕ) → node_at (record empty_space { vertices = shards }) id ≡ node_at with_seven id)
load_vertex-save_vertex_example = load_vertex-save_vertex with_seven empty_space small_shards

pub with_seven-Storable : Storable with_seven
unfolding commit_vertex Index.add Index.add_entry Dict.lookup Index.get_shard new_none_vectorstore
    Dict.insert value_eq bytes_eq identity store_node Dict.modify
with_seven-Storable = record {
  encodes = refl;
  postings = (omega arith, omega arith, (omega arith, omega arith, tt), tt);
  distinct = (refl, (refl, tt), tt);
  few = omega arith;
  shards = small_shards;
}

load_files-Restores_example :
    (m i v : Bytes) × (vertex' : NoneVecSpace (List ℕ)) × (save_vertex_metadata with_seven ≡ ok m)
    × (save_vertex_inverted with_seven ≡ ok i)
    × (save_vertex with_seven ≡ ok v)
    × (load_files key m i v empty_space ≡ (ok tt, vertex'))
    × Restores key with_seven vertex'
load_files-Restores_example = load_files-Restores key with_seven empty_space with_seven-Storable
