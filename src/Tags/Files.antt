-- ===== src/Tags/Files.antt =====
-- pkg/index/save_index.go: the file of an index, as its bytes. Creating and opening it are not
-- modelled; a write to it does not fail. A length that does not fit in 32 bits is cut.
pub mod RoundTrip
use coltt.Prelude.{ℕ, zero, suc, ◌%◌, ◌^◌, List, [], ◌∷◌, ◌++◌, length}
use coltt.Prelude.Bytes.{Bytes}
use coltt.Prelude.Dict
use coltt.Prelude.Dict.{Dict, bytes_key}
use coltt.Prelude.Binary.{le, read_le}
use coltt.Prelude.Outcome.{Outcome, ok, err, panic, ◌>>=◌, continue}
use coltt.Inverted.Roaring.{Roaring}
use coltt.Inverted.Codec.{write_block, read_block, read_header, unmarshalled}
use coltt.Tags.{TagIndex, get_tags, put_tags}

module _ {B : Type 0} where
  -- shard.ShardIndex[value] = bitmap
  unfoldable pub set_tag : Bytes → Bytes → B → TagIndex B → TagIndex B
  set_tag key value bm idx =
      let (m, idx') = get_tags key idx in put_tags key (Dict.insert value bm m) idx'

module _ {B : Type 0} ⦃roaring : Roaring B⦄ where
  -- the loop over shard.ShardIndex
  unfoldable pub write_tag_values : Dict Bytes B → Bytes
  write_tag_values [] = []
  write_tag_values ((value, bm) ∷ m) =
      write_block value ++ (write_block (roaring.to_bytes bm) ++ write_tag_values m)

  -- the loop over idx.Shards
  unfoldable pub write_tag_shards : Dict Bytes (Dict Bytes B) → Bytes
  write_tag_shards [] = []
  write_tag_shards ((key, m) ∷ shards) =
      write_block key
      ++ (le 4 (length m % 2 ^ 32) ++ (write_tag_values m ++ write_tag_shards shards))

  unfoldable pub serialize_tags : TagIndex B → Bytes
  serialize_tags idx = le 4 (length idx.shards % 2 ^ 32) ++ write_tag_shards idx.shards

  unfoldable pub read_tag_entry : Bytes → Outcome (Bytes × B × Bytes)
  read_tag_entry buf = do
    (value, rest) ← read_block buf
    (block, rest') ← read_block rest
    bm ← unmarshalled (roaring.unmarshal_binary block)
    ok (value, bm, rest')

  unfoldable pub read_tag_values : ℕ → Bytes → Bytes → TagIndex B → Outcome Bytes × TagIndex B
  read_tag_values zero key buf idx = (ok buf, idx)
  read_tag_values (suc n) key buf idx =
      continue (read_tag_entry buf, idx)
        (λ (value, bm, rest) idx'. read_tag_values n key rest (set_tag key value bm idx'))

  unfoldable pub read_tag_shards : ℕ → Bytes → TagIndex B → Outcome Bytes × TagIndex B
  read_tag_shards zero buf idx = (ok buf, idx)
  read_tag_shards (suc n) buf idx =
      continue (read_header buf, idx)
        (λ (key, count, rest) idx'.
          continue (read_tag_values count key rest (get_tags key idx').1)
            (λ rest' idx''. read_tag_shards n rest' idx''))

  unfoldable pub deserialize_tags : Bytes → TagIndex B → Outcome (Unit {0}) × TagIndex B
  deserialize_tags buf idx =
      continue (read_le 4 buf, idx)
        (λ (n, rest) idx'. continue (read_tag_shards n rest idx') (λ _ idx''. (ok tt, idx'')))
