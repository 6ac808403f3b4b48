-- ===== src/Edge/Space/Save.antt =====
-- SaveVertex and LoadVertex, and the other two files of a space: its metadata, as JSON, and its
-- index. A write to the buffer does not fail, so a writer returns the bytes that it appends. An
-- element of a vector is its bit pattern, of as many bytes as the space stores.
pub mod Nodes
pub mod RoundTrip
use coltt.Prelude.{
  ℕ, zero, suc, ◌%◌, ◌^◌, Bool, true, false, not, List, [], ◌∷◌, ◌++◌, length, ltb, ◌==◌,
  if◌then◌else◌,
}
use coltt.Prelude.Bytes.{Bytes}
use coltt.Prelude.Dict
use coltt.Prelude.Dict.{Dict, bytes_key, nat_key}
use coltt.Prelude.Binary.{be, read_full, read_be, read_byte, int64_bits, bits_int64}
use coltt.Prelude.Float.{Floats}
use coltt.Prelude.Outcome.{
  Outcome, ok, err, panic, ◌>>=◌, continue, value_too_long, unsupported_metadata, unsupported_tag,
}
use coltt.Inverted.Value.{Value, int64, float32, float64, string, bool, bit}
use coltt.Inverted.Roaring.{Roaring}
use coltt.Inverted.Index.{BitmapIndex, Metadata, new_bitmap_index}
use coltt.Inverted.Codec.{serialize_binary, deserialize_binary}
use coltt.Edge.Space.{
  Vector, ENode, NoneVecSpace, Quantization, SpaceMetadata, edge_map_shard_count, shard_map,
  distancer, with_index,
}

-- a length of two bytes and the text
unfoldable pub write_text : Bytes → Outcome Bytes
write_text s = if ltb 65535 (length s) then err value_too_long else ok (be 2 (length s) ++ s)

unfoldable pub read_text : Bytes → Outcome (Bytes × Bytes)
read_text buf = do (n, rest) ← read_be 2 buf; read_full n rest

module _ ⦃floats : Floats⦄ where
  -- the switch on the type of a metadata value; an int has no case
  unfoldable pub save_value : Value → Outcome Bytes
  save_value (int64 z) = ok (0 ∷ be 8 (int64_bits z))
  save_value (string s) = do text ← write_text s; ok (1 ∷ text)
  save_value (float32 x) = ok (2 ∷ be 8 (floats.float64_of_float32 x))
  save_value (float64 x) = ok (2 ∷ be 8 x)
  save_value (bool b) = ok (3 ∷ bit b ∷ [])
  save_value v = err unsupported_metadata

  -- the loop over node.Metadata
  unfoldable pub save_metadata : Metadata → Outcome Bytes
  save_metadata [] = ok []
  save_metadata ((key, value) ∷ metadata) = do
    k ← write_text key
    v ← save_value value
    rest ← save_metadata metadata
    ok (k ++ (v ++ rest))

-- the switch on the tag
unfoldable pub load_tagged : ℕ → Bytes → Outcome (Value × Bytes)
load_tagged tag buf =
    if tag == 0
    then (do (n, rest) ← read_be 8 buf; ok (int64 (bits_int64 n), rest))
    else if tag == 1
    then (do (s, rest) ← read_text buf; ok (string s, rest))
    else if tag == 2
    then (do (x, rest) ← read_be 8 buf; ok (float64 x, rest))
    else if tag == 3
    then (do (b, rest) ← read_byte buf; ok (bool (not (b == 0)), rest))
    else err unsupported_tag

-- one entry of the metadata
unfoldable pub load_entry : Bytes → Outcome (Bytes × Value × Bytes)
load_entry buf = do
  (key, rest) ← read_text buf
  (tag, rest') ← read_byte rest
  (value, rest'') ← load_tagged tag rest'
  ok (key, value, rest'')

unfoldable pub load_metadata : ℕ → Bytes → Metadata → Outcome (Metadata × Bytes)
load_metadata zero buf metadata = ok (metadata, buf)
load_metadata (suc n) buf metadata = do
  (key, value, rest) ← load_entry buf
  load_metadata n rest (Dict.insert key value metadata)

-- A length that does not fit in 32 bits is cut, as uint32(len(m)) is.
abbrev pub count32 : ℕ → ℕ
count32 n = n % 2 ^ 32

module _ ⦃quantization : Quantization⦄ where
  -- the loop over node.Vector
  unfoldable pub save_vector : Vector → Bytes
  save_vector [] = []
  save_vector (x ∷ v) = be quantization.element_width x ++ save_vector v

  unfoldable pub load_vector : ℕ → Bytes → Outcome (Vector × Bytes)
  load_vector zero buf = ok ([], buf)
  load_vector (suc n) buf = do
    (x, rest) ← read_be quantization.element_width buf
    (v, rest') ← load_vector n rest
    ok (x ∷ v, rest')

  unfoldable pub load_node : Bytes → Outcome (ENode × Bytes)
  load_node buf = do
    (vec_len, rest) ← read_be 4 buf
    (vector, rest1) ← load_vector vec_len rest
    (meta_count, rest2) ← read_be 4 rest1
    (metadata, rest3) ← load_metadata meta_count rest2 []
    ok (record { vector = vector; metadata = metadata }, rest3)

  unfoldable pub load_nodes : ℕ → Bytes → Dict ℕ ENode → Outcome (Dict ℕ ENode × Bytes)
  load_nodes zero buf m = ok (m, buf)
  load_nodes (suc n) buf m = do
    (key, rest) ← read_be 8 buf
    (node, rest') ← load_node rest
    load_nodes n rest' (Dict.insert key node m)

  -- the loop over the shards, with `n` to go
  unfoldable pub load_shards : ℕ → Bytes → Outcome (List (Dict ℕ ENode))
  load_shards zero buf = ok []
  load_shards (suc n) buf = do
    (count, rest) ← read_be 8 buf
    (m, rest') ← load_nodes count rest []
    shards ← load_shards n rest'
    ok (m ∷ shards)

module _ ⦃floats : Floats⦄ ⦃quantization : Quantization⦄ where
  unfoldable pub save_node : ENode → Outcome Bytes
  save_node node = do
    metadata ← save_metadata node.metadata
    ok (
        be 4 (count32 (length node.vector))
        ++ (save_vector node.vector ++ (be 4 (count32 (length node.metadata)) ++ metadata)))

  -- the loop over the entries of a shard
  unfoldable pub save_nodes : Dict ℕ ENode → Outcome Bytes
  save_nodes [] = ok []
  save_nodes ((key, node) ∷ entries) = do
    s ← save_node node
    rest ← save_nodes entries
    ok (be 8 key ++ (s ++ rest))

module _ {B : Type 0} ⦃floats : Floats⦄ ⦃quantization : Quantization⦄ where
  -- the loop over the shards, from `shard` on, with `n` to go
  unfoldable pub save_shards : ℕ → ℕ → NoneVecSpace B → Outcome Bytes
  save_shards zero shard vertex = ok []
  save_shards (suc n) shard vertex = do
    let entries = shard_map vertex shard
    s ← save_nodes entries
    rest ← save_shards n (suc shard) vertex
    ok (be 8 (length entries) ++ (s ++ rest))

  unfoldable pub save_vertex : NoneVecSpace B → Outcome Bytes
  save_vertex vertex = save_shards edge_map_shard_count 0 vertex

  put_shards : NoneVecSpace B → Outcome (List (Dict ℕ ENode)) → Outcome (Unit {0}) × NoneVecSpace B
  put_shards vertex (ok shards) = (ok tt, record vertex { vertices = shards })
  put_shards vertex (err e) = (err e, vertex)
  put_shards vertex panic = (panic, vertex)

  -- The shards are replaced only when all of them are read.
  unfoldable pub load_vertex : Bytes → NoneVecSpace B → Outcome (Unit {0}) × NoneVecSpace B
  unfolding put_shards
  load_vertex buf vertex = put_shards vertex (load_shards edge_map_shard_count buf)
