-- ===== src/Edge/Space/Save/RoundTrip.antt =====
-- SaveVertex and LoadVertex, one after the other.
use coltt.Prelude.{
  ℕ, zero, suc, ◌+◌, ◌<◌, ◌^◌, ◌≡◌, refl, ◌∙◌, ap, List, [], ◌∷◌, ◌++◌, length, arith, All, get_or,
}
use mathlib.Core.List.{append_assoc, append-nil}
use coltt.Prelude.Bytes.{Bytes}
use coltt.Prelude.Dict
use coltt.Prelude.Dict.{Dict, bytes_key, nat_key}
use coltt.Prelude.Dict.Keys.{Distinct, insert_all, insert_all_nil}
use coltt.Prelude.Binary.{be, read_be-be}
use coltt.Prelude.Float.{Floats}
use coltt.Prelude.Outcome.{ok}
use coltt.Edge.Sharding.{shard_vertex-lt}
use coltt.Edge.Space.{ENode, NoneVecSpace, Quantization, shard_map, shard_of, node_at}
use coltt.Edge.Space.Save.Nodes.{StorableNode, load_node-save_node}
use coltt.Edge.Space.Save.{
  save_nodes, load_nodes, save_shards, load_shards, save_vertex, load_vertex, put_shards,
}

module _ ⦃floats : Floats⦄ ⦃quantization : Quantization⦄ where
  -- Each id and each node of a shard can be stored, and no id stands twice.
  abbrev pub StorableShard : Dict ℕ ENode → Type 0
  StorableShard entries =
      (length entries < 2 ^ 64)
      × All (λ e. (e.0 < 2 ^ 64) × StorableNode e.1) entries
      × Distinct entries

  load_nodes-save_nodes :
      (entries : Dict ℕ ENode)
      → All (λ e. (e.0 < 2 ^ 64) × StorableNode e.1) entries
      → (s : Bytes) × (save_nodes entries ≡ ok s)
        × ((rest : Bytes) (into : Dict ℕ ENode)
            → load_nodes (length entries) (s ++ rest) into ≡ ok (insert_all entries into, rest))
  unfolding save_nodes load_nodes insert_all
  load_nodes-save_nodes [] h = ([], refl, λ rest into. refl)
  load_nodes-save_nodes ((key, node) ∷ entries) (hd, tl) =
      let (s, e, r) = load_node-save_node node hd.1 in
      let (t, e', r') = load_nodes-save_nodes entries tl in
      let small = hd.0 in
      (
        be 8 key ++ (s ++ t),
        rw (e, e') refl,
        λ rest into.
            rw
              (
                append_assoc (be 8 key) (s ++ t) rest,
                append_assoc s t rest,
                read_be-be 8 key (s ++ (t ++ rest)) (omega arith),
                r (t ++ rest),
              )
              (r' rest (Dict.insert key node into)),
      )

get_or-next :
    {A : Type 0} (x : A) (xs : List A) (i : ℕ) (d : A) → get_or (x ∷ xs) (suc i) d ≡ get_or xs i d
get_or-next x xs i d = refl

module _ {B : Type 0} where
  -- The maps of `n` shards, from `shard` on.
  abbrev pub shards_from : NoneVecSpace B → ℕ → ℕ → List (Dict ℕ ENode)
  shards_from vertex zero shard = []
  shards_from vertex (suc n) shard = shard_map vertex shard ∷ shards_from vertex n (suc shard)

  length-shards_from :
      (vertex : NoneVecSpace B) (n shard : ℕ) → length (shards_from vertex n shard) ≡ n
  length-shards_from vertex zero shard = refl
  length-shards_from vertex (suc n) shard = ap suc (length-shards_from vertex n (suc shard))

  get_or-shards_from :
      (vertex : NoneVecSpace B) (n shard i : ℕ)
      → i < n
      → get_or (shards_from vertex n shard) i [] ≡ shard_map vertex (shard + i)
  get_or-shards_from vertex zero shard i h = absurd (omega arith)
  get_or-shards_from vertex (suc n) shard zero h = ap (shard_map vertex) (omega arith)
  get_or-shards_from vertex (suc n) shard (suc i) h =
      get_or-shards_from vertex n (suc shard) i (omega arith) ∙ ap (shard_map vertex) (omega arith)

  shards_from_lem :
      (vertex : NoneVecSpace B) (i : ℕ)
      → i < 16
      → get_or (shards_from vertex 16 0) i [] ≡ shard_map vertex i
  shards_from_lem vertex i h =
      get_or-shards_from vertex 16 0 i h ∙ ap (shard_map vertex) (omega arith)

  module _ ⦃floats : Floats⦄ ⦃quantization : Quantization⦄ where
    load_shards-save_shards :
        (vertex : NoneVecSpace B) (n shard : ℕ)
        → All StorableShard (shards_from vertex n shard)
        → (s : Bytes) × (save_shards n shard vertex ≡ ok s)
          × ((rest : Bytes) → load_shards n (s ++ rest) ≡ ok (shards_from vertex n shard))
    unfolding save_shards load_shards
    load_shards-save_shards vertex zero shard h = ([], refl, λ rest. refl)
    load_shards-save_shards vertex (suc n) shard ((few, nodes, distinct), tl) =
        let entries = shard_map vertex shard in
        let (s, e, r) = load_nodes-save_nodes entries nodes in
        let (t, e', r') = load_shards-save_shards vertex n (suc shard) tl in
        let k = length entries in
        (
          be 8 k ++ (s ++ t),
          rw (e, e') refl,
          λ rest.
              rw
                (
                  append_assoc (be 8 k) (s ++ t) rest,
                  append_assoc s t rest,
                  read_be-be 8 k (s ++ (t ++ rest)) (omega arith),
                  r (t ++ rest) [],
                  insert_all_nil entries distinct,
                  r' rest,
                )
                refl,
        )

    -- A space whose shards can be stored is written without an error. Any space that loads the
    -- bytes has exactly the vertices of the first, in 16 shards, and keeps all else as it was.
    pub load_vertex-save_vertex :
        (vertex into : NoneVecSpace B)
        → All StorableShard (shards_from vertex 16 0)
        → (s : Bytes) × (shards : List (Dict ℕ ENode)) × (save_vertex vertex ≡ ok s)
          × (load_vertex s into ≡ (ok tt, record into { vertices = shards }))
          × (length shards ≡ 16)
          × ((id : ℕ) → node_at (record into { vertices = shards }) id ≡ node_at vertex id)
    unfolding save_vertex load_vertex put_shards node_at
    load_vertex-save_vertex vertex into h =
        let (s, e, r) = load_shards-save_shards vertex 16 0 h in
        let loaded : load_shards 16 s ≡ ok (shards_from vertex 16 0) =
          rw (append-nil s) at (r []) in
        (
          s,
          shards_from vertex 16 0,
          e,
          rw loaded refl,
          length-shards_from vertex 16 0,
          λ id.
              ap (Dict.lookup id)
                (shards_from_lem vertex (shard_of id) (shard_vertex-lt id 16 (omega arith))),
        )
