-- ===== src/Inverted/Codec/Loaded.antt =====
-- The index that DeserializeBinary builds from the entries it reads, and its postings.
use coltt.Prelude.{◌≡◌, refl, ◌∙◌, none, [], ◌∷◌, arith, if◌then◌else◌}
use coltt.Prelude.Bytes.{Bytes, bytes_eq}
use coltt.Prelude.Dict
use coltt.Prelude.Dict.{Dict, Key, bytes_key}
use coltt.Prelude.Dict.Keys.{Distinct, first_of_two, insert_all, lookup-insert_all}
use coltt.Inverted.Value.{Value, value_key}
use coltt.Inverted.Index.{BitmapIndex, IndexShard, get_shard}
use coltt.Inverted.Index.Postings.{
  bitmaps, shard_bitmaps, bitmaps-put_shard, shard-get_shard, bitmaps-get_shard, bitmaps-beq,
}
use coltt.Inverted.Codec.{set_bitmap}

module _ {B : Type 0} where
  bitmaps-set_bitmap :
      (key k : Bytes) (v : Value) (bm : B) (idx : BitmapIndex B)
      → bitmaps k (set_bitmap key v bm idx)
        ≡ (if bytes_eq key k then Dict.insert v bm (bitmaps key idx) else bitmaps k idx)
  unfolding set_bitmap
  bitmaps-set_bitmap key k v bm idx =
      let (shard, idx') = get_shard key idx in
      ground (
        arith,
        bitmaps-put_shard key k (Dict.insert v bm shard.shard_index) idx',
        shard-get_shard key idx,
        bitmaps-get_shard key k idx,
      )

  -- the entries of one shard, read one after the other
  unfoldable pub set_all : Bytes → Dict Value B → BitmapIndex B → BitmapIndex B
  set_all key [] idx = idx
  set_all key ((v, bm) ∷ m) idx = set_all key m (set_bitmap key v bm idx)

  bitmaps-set_all :
      (key k : Bytes) (m : Dict Value B) (idx : BitmapIndex B)
      → bitmaps k (set_all key m idx)
        ≡ (if bytes_eq key k then insert_all m (bitmaps k idx) else bitmaps k idx)
  unfolding set_all insert_all
  bitmaps-set_all key k [] idx = ground arith
  bitmaps-set_all key k ((v, bm) ∷ m) idx = ground (
    arith,
    bitmaps-set_all key k m (set_bitmap key v bm idx),
    bitmaps-set_bitmap key k v bm idx,
    bitmaps-beq key k idx,
  )

  -- the shards, read one after the other
  unfoldable pub load_all : Dict Bytes (IndexShard B) → BitmapIndex B → BitmapIndex B
  load_all [] idx = idx
  load_all ((key, shard) ∷ shards) idx =
      load_all shards (set_all key shard.shard_index (get_shard key idx).1)

  -- No key of the index stands twice, and no value under a key.
  abbrev pub DistinctShards : Dict Bytes (IndexShard B) → Type 0
  DistinctShards [] = Unit
  DistinctShards ((key, shard) ∷ shards) =
      (Dict.lookup key shards ≡ none) × Distinct shard.shard_index × DistinctShards shards

  lookup-set_all :
      (key k : Bytes) (v : Value) (m : Dict Value B) (idx : BitmapIndex B)
      → Distinct m
      → Dict.lookup v (bitmaps k (set_all key m (get_shard key idx).1)) ≡ (
          if bytes_eq key k
          then first_of_two (Dict.lookup v m) (Dict.lookup v (bitmaps k idx))
          else Dict.lookup v (bitmaps k idx))
  lookup-set_all key k v m idx d = ground (
    arith,
    bitmaps-set_all key k m (get_shard key idx).1,
    bitmaps-get_shard key k idx,
    lookup-insert_all v m (bitmaps k idx) d,
  )

  pub lookup-load_all :
      (k : Bytes) (v : Value) (shards : Dict Bytes (IndexShard B)) (idx : BitmapIndex B)
      → DistinctShards shards
      → Dict.lookup v (bitmaps k (load_all shards idx))
        ≡ first_of_two
            (Dict.lookup v (shard_bitmaps (Dict.lookup k shards)))
            (Dict.lookup v (bitmaps k idx))
  unfolding load_all Dict.lookup
  lookup-load_all k v [] idx d = refl
  lookup-load_all k v ((key, shard) ∷ shards) idx d =
      lookup-load_all k v shards (set_all key shard.shard_index (get_shard key idx).1) d.2
      ∙ (rw (lookup-set_all key k v shard.shard_index idx d.1)
          (ground (arith, Dict.lookup-beq key k shards, d.0)))
