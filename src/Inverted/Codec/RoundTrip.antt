-- ===== src/Inverted/Codec/RoundTrip.antt =====
-- SerializeBinary and DeserializeBinary (pkg/inverted/save.go), one after the other.
use coltt.Prelude.{
  ℕ, ◌%◌, ◌<◌, ◌^◌, ◌≡◌, refl, ap, Option, none, some, [], ◌∷◌, ◌++◌, length, arith,
}
use mathlib.Core.List.{append_assoc, append-nil}
use coltt.Prelude.Bytes.{Bytes}
use coltt.Prelude.Dict
use coltt.Prelude.Dict.{Dict, bytes_key}
use coltt.Prelude.Binary.{le, read_le-le, read_full-append}
use coltt.Prelude.Float.{Floats}
use coltt.Prelude.Outcome.{ok}
use coltt.Prelude.Dict.Keys.{first_of_two}
use coltt.Inverted.Value.{Value, value_key}
use coltt.Inverted.Roaring.{Roaring}
use coltt.Inverted.Index.{BitmapIndex, IndexShard, new_bitmap_index, get_shard}
use coltt.Inverted.Index.Postings.{posted, bitmap_has, bitmaps, shard_bitmaps}
use coltt.Inverted.Codec.{
  read_value, write_block, read_block, write_values, write_shards, serialize_binary, unmarshalled,
  read_entry, set_bitmap, read_values, read_header, read_shards, deserialize_binary,
}
use coltt.Inverted.Codec.Values.{Storable, write_value-total}
use coltt.Inverted.Codec.Loaded.{DistinctShards, set_all, load_all, lookup-load_all}

pub read_block-write_block :
    (s rest : Bytes) → length s < 2 ^ 32 → read_block (write_block s ++ rest) ≡ ok (s, rest)
unfolding read_block write_block
read_block-write_block s rest h =
    let small : length s % 2 ^ 32 ≡ length s = omega arith in
    rw (
      small,
      append_assoc (le 4 (length s)) s rest,
      read_le-le 4 (length s) (s ++ rest) (omega arith),
      read_full-append s rest,
    )

pub read_header_lem :
    (key rest : Bytes) (n : ℕ)
    → length key < 2 ^ 32
    → n < 2 ^ 32
    → read_header (write_block key ++ (le 4 n ++ rest)) ≡ ok (key, n, rest)
unfolding read_header
read_header_lem key rest n h k =
    rw (read_block-write_block key (le 4 n ++ rest) h, read_le-le 4 n rest (omega arith))

pub first_of_two-none : {A : Type 0} (o : Option A) → first_of_two o none ≡ o
first_of_two-none none = refl
first_of_two-none (some a) = refl

module _ {B : Type 0} ⦃floats : Floats⦄ ⦃roaring : Roaring B⦄ where
  -- Each value can be stored, and no block of bytes passes the 32 bits of its length.
  abbrev pub StorableValues : Dict Value B → Type 0
  StorableValues [] = Unit
  StorableValues ((v, bm) ∷ m) =
      Storable v × (length (roaring.to_bytes bm) < 2 ^ 32) × StorableValues m

  abbrev pub StorableShards : Dict Bytes (IndexShard B) → Type 0
  StorableShards [] = Unit
  StorableShards ((key, shard) ∷ shards) =
      (length key < 2 ^ 32)
      × (length shard.shard_index < 2 ^ 32)
      × StorableValues shard.shard_index
      × StorableShards shards

  read_entry_lem :
      (v : Value) (bm : B) (s rest : Bytes)
      → ((after : Bytes) → read_value (s ++ after) ≡ ok (v, after))
      → length (roaring.to_bytes bm) < 2 ^ 32
      → read_entry (s ++ (write_block (roaring.to_bytes bm) ++ rest)) ≡ ok (v, bm, rest)
  unfolding read_entry unmarshalled
  read_entry_lem v bm s rest r h = rw (
    r (write_block (roaring.to_bytes bm) ++ rest),
    read_block-write_block (roaring.to_bytes bm) rest h,
    roaring.unmarshal_binary-to_bytes bm,
  )

  read_values-write_values :
      (key : Bytes) (m : Dict Value B)
      → StorableValues m
      → (s : Bytes) × (write_values m ≡ ok s)
        × ((rest : Bytes) (idx : BitmapIndex B)
            → read_values (length m) key (s ++ rest) idx ≡ (ok rest, set_all key m idx))
  unfolding write_values read_values set_all
  read_values-write_values key [] h = ([], refl, λ rest idx. refl)
  read_values-write_values key ((v, bm) ∷ m) h =
      let (s, e, r) = write_value-total v h.0 in
      let (t, e', r') = read_values-write_values key m h.2 in
      let b = write_block (roaring.to_bytes bm) in
      (
        s ++ (b ++ t),
        rw (e, e'),
        λ rest idx.
            rw
              (
                append_assoc s (b ++ t) rest,
                append_assoc b t rest,
                read_entry_lem v bm s (t ++ rest) r h.1,
              )
              (r' rest (set_bitmap key v bm idx)),
      )

  read_shards-write_shards :
      (shards : Dict Bytes (IndexShard B))
      → StorableShards shards
      → (s : Bytes) × (write_shards shards ≡ ok s)
        × ((rest : Bytes) (idx : BitmapIndex B)
            → read_shards (length shards) (s ++ rest) idx ≡ (ok rest, load_all shards idx))
  unfolding write_shards read_shards load_all
  read_shards-write_shards [] h = ([], refl, λ rest idx. refl)
  read_shards-write_shards ((key, shard) ∷ shards) h =
      let m = shard.shard_index in
      let (s, e, r) = read_values-write_values key m h.2 in
      let (t, e', r') = read_shards-write_shards shards h.3 in
      let n = length m in
      let small : n % 2 ^ 32 ≡ n = let fits = h.1 in omega arith in
      (
        write_block key ++ (le 4 n ++ (s ++ t)),
        rw (e, e', small),
        λ rest idx.
            rw
              (
                append_assoc (write_block key) (le 4 n ++ (s ++ t)) rest,
                append_assoc (le 4 n) (s ++ t) rest,
                append_assoc s t rest,
                read_header_lem key (s ++ (t ++ rest)) n h.0 h.1,
                r (t ++ rest) (get_shard key idx).1,
              )
              (r' rest (set_all key m (get_shard key idx).1)),
      )

  lookup-new : (k : Bytes) (v : Value) → Dict.lookup {V = B} v (bitmaps k new_bitmap_index) ≡ none
  unfolding bitmaps Dict.lookup
  lookup-new k v = refl

  lookup-bitmaps :
      (k : Bytes) (v : Value) (idx : BitmapIndex B)
      → Dict.lookup v (shard_bitmaps (Dict.lookup k idx.shards)) ≡ Dict.lookup v (bitmaps k idx)
  unfolding bitmaps
  lookup-bitmaps k v idx = refl

  -- Every index of storable entries, with no key or value standing twice, is written without an
  -- error, and a fresh index that reads the bytes has the same postings.
  pub deserialize_binary-serialize_binary :
      (idx : BitmapIndex B)
      → StorableShards idx.shards
      → DistinctShards idx.shards
      → length idx.shards < 2 ^ 32
      → (s : Bytes) × (idx' : BitmapIndex B) × (serialize_binary idx ≡ ok s)
        × (deserialize_binary s new_bitmap_index ≡ (ok tt, idx'))
        × ((k : Bytes) (v : Value) (j : ℕ) → posted idx' k v j ≡ posted idx k v j)
  unfolding serialize_binary deserialize_binary posted
  deserialize_binary-serialize_binary idx h d n =
      let (s, e, r) = read_shards-write_shards idx.shards h in
      let count = length idx.shards in
      let small : count % 2 ^ 32 ≡ count = omega arith in
      let loaded : read_shards count s new_bitmap_index
          ≡ (ok [], load_all idx.shards new_bitmap_index) =
        rw (append-nil s) at (r [] new_bitmap_index) in
      (
        le 4 count ++ s,
        load_all idx.shards new_bitmap_index,
        rw (e, small),
        rw (read_le-le 4 count s (omega arith), loaded),
        λ k v j. rw (lookup-load_all k v idx.shards new_bitmap_index d) (
            ap (λ (o : Option B). bitmap_has o j)
              (rw (lookup-new k v, first_of_two-none) (lookup-bitmaps k v idx))),
      )
