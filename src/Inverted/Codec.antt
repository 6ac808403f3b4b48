-- ===== src/Inverted/Codec.antt =====
-- pkg/inverted/save.go: the binary form of the index. A write to the buffer does not fail (its
-- growth without memory is not modelled), so a writer returns the bytes that it appends.
pub mod Values
pub mod Loaded
pub mod RoundTrip
use coltt.Prelude.{
  ℕ, zero, suc, ◌%◌, ◌^◌, Bool, true, false, not, Option, none, some, List, [], ◌∷◌, ◌++◌, length,
  ltb, ◌==◌, if◌then◌else◌,
}
use coltt.Prelude.Bytes.{Bytes}
use coltt.Prelude.Dict
use coltt.Prelude.Dict.{Dict, bytes_key}
use coltt.Prelude.Binary.{be, le, read_full, read_be, read_le, read_byte, int64_bits, bits_int64}
use coltt.Prelude.Float.{Floats}
use coltt.Prelude.Outcome.{
  Outcome, ok, err, panic, ◌>>=◌, continue, value_too_long, unsupported_metadata, unsupported_tag,
  bad_bitmap,
}
use coltt.Inverted.Value.{
  Value, value_key, null, int, int64, float32, float64, string, bool, composite, bit,
}
use coltt.Inverted.Roaring.{Roaring}
use coltt.Inverted.Index.{BitmapIndex, IndexShard, new_bitmap_index, put_shard, get_shard}

module _ ⦃floats : Floats⦄ where
  unfoldable pub write_value : Value → Outcome Bytes
  write_value (int z) = ok (0 ∷ be 8 (int64_bits z))
  write_value (int64 z) = ok (0 ∷ be 8 (int64_bits z))
  write_value (float32 x) = ok (1 ∷ be 8 (floats.float64_of_float32 x))
  write_value (float64 x) = ok (1 ∷ be 8 x)
  write_value (string s) =
      if ltb 65535 (length s) then err value_too_long else ok (2 ∷ (be 2 (length s) ++ s))
  write_value (bool b) = ok (3 ∷ bit b ∷ [])
  write_value v = err unsupported_metadata

-- the switch on the tag
read_tagged : ℕ → Bytes → Outcome (Value × Bytes)
read_tagged tag buf =
    if tag == 0
    then (do (n, rest) ← read_be 8 buf; ok (int64 (bits_int64 n), rest))
    else if tag == 1
    then (do (x, rest) ← read_be 8 buf; ok (float64 x, rest))
    else if tag == 2
    then (do (n, rest) ← read_be 2 buf; (s, rest') ← read_full n rest; ok (string s, rest'))
    else if tag == 3
    then (do (b, rest) ← read_byte buf; ok (bool (not (b == 0)), rest))
    else err unsupported_tag

unfoldable pub read_value : Bytes → Outcome (Value × Bytes)
unfolding read_tagged
read_value buf = do (tag, rest) ← read_byte buf; read_tagged tag rest

unfoldable pub unmarshalled : {B : Type 0} → Option B → Outcome B
unmarshalled none = err bad_bitmap
unmarshalled (some bm) = ok bm

-- A length that does not fit in 32 bits is cut, as uint32(len(b)) is.
unfoldable pub write_block : Bytes → Bytes
write_block s = le 4 (length s % 2 ^ 32) ++ s

unfoldable pub read_block : Bytes → Outcome (Bytes × Bytes)
read_block buf = do (n, rest) ← read_le 4 buf; read_full n rest

-- a key and the number of its values
unfoldable pub read_header : Bytes → Outcome (Bytes × ℕ × Bytes)
unfolding read_block
read_header buf = do (key, rest) ← read_block buf; (n, rest') ← read_le 4 rest; ok (key, n, rest')

module _ {B : Type 0} where
  -- shard.ShardIndex[val] = bitmap
  pub set_bitmap : Bytes → Value → B → BitmapIndex B → BitmapIndex B
  set_bitmap key value bm idx =
      let (shard, idx') = get_shard key idx in
      put_shard key (Dict.insert value bm shard.shard_index) idx'

module _ {B : Type 0} ⦃floats : Floats⦄ ⦃roaring : Roaring B⦄ where
  -- the loop over shard.ShardIndex
  write_values : Dict Value B → Outcome Bytes
  unfolding write_block
  write_values [] = ok []
  write_values ((value, bm) ∷ m) = do
    v ← write_value value
    rest ← write_values m
    ok (v ++ (write_block (roaring.to_bytes bm) ++ rest))

  -- the loop over idx.Shards
  write_shards : Dict Bytes (IndexShard B) → Outcome Bytes
  unfolding write_values
  write_shards [] = ok []
  write_shards ((key, shard) ∷ shards) = do
    values ← write_values shard.shard_index
    rest ← write_shards shards
    ok (write_block key ++ (le 4 (length shard.shard_index % 2 ^ 32) ++ (values ++ rest)))

  unfoldable pub serialize_binary : BitmapIndex B → Outcome Bytes
  unfolding write_shards
  serialize_binary idx = do
    rest ← write_shards idx.shards
    ok (le 4 (length idx.shards % 2 ^ 32) ++ rest)

  -- one value with its bitmap
  read_entry : Bytes → Outcome (Value × B × Bytes)
  unfolding read_block unmarshalled
  read_entry buf = do
    (value, rest) ← read_value buf
    (block, rest') ← read_block rest
    bm ← unmarshalled (roaring.unmarshal_binary block)
    ok (value, bm, rest')

  read_values : ℕ → Bytes → Bytes → BitmapIndex B → Outcome Bytes × BitmapIndex B
  unfolding read_entry set_bitmap
  read_values zero key buf idx = (ok buf, idx)
  read_values (suc n) key buf idx =
      continue (read_entry buf, idx)
        (λ (value, bm, rest) idx'. read_values n key rest (set_bitmap key value bm idx'))

  read_shards : ℕ → Bytes → BitmapIndex B → Outcome Bytes × BitmapIndex B
  unfolding read_values read_header
  read_shards zero buf idx = (ok buf, idx)
  read_shards (suc n) buf idx =
      continue (read_header buf, idx)
        (λ (key, count, rest) idx'.
          continue (read_values count key rest (get_shard key idx').1)
            (λ rest' idx''. read_shards n rest' idx''))

  -- Bytes after the last shard are left unread.
  unfoldable pub deserialize_binary : Bytes → BitmapIndex B → Outcome (Unit {0}) × BitmapIndex B
  unfolding read_shards
  deserialize_binary buf idx =
      continue (read_le 4 buf, idx)
        (λ (n, rest) idx'. continue (read_shards n rest idx') (λ _ idx''. (ok tt, idx'')))
