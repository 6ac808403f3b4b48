-- ===== src/Edge/Space/Save/Nodes.antt =====
-- The writers and readers of a vertex, one after the other.
use coltt.Prelude.{ℕ, ◌%◌, ◌<◌, ◌≤◌, ◌^◌, ◌≡◌, refl, true, false, [], ◌∷◌, ◌++◌, length, arith, All}
use mathlib.Core.List.{append_assoc}
use coltt.Prelude.Bytes.{Bytes}
use coltt.Prelude.Dict
use coltt.Prelude.Dict.{Dict, bytes_key, nat_key}
use coltt.Prelude.Dict.Keys.{Distinct, insert_all, insert_all_nil}
use coltt.Prelude.Binary.{be, read_byte, read_be-be, read_full-append, int64_bits}
use coltt.Prelude.Float.{Floats}
use coltt.Prelude.Outcome.{ok}
use coltt.Inverted.Value.{Value, null, int, int64, float32, float64, string, bool, composite}
use coltt.Inverted.Codec.Values.{Storable, int64_bits_lt}
use coltt.Inverted.Index.{Metadata}
use coltt.Edge.Space.{Vector, ENode, Quantization}
use coltt.Edge.Space.Save.{
  write_text, read_text, save_value, load_tagged, save_metadata, load_entry, load_metadata,
  save_vector, load_vector, save_node, load_node,
}

read_text-write_text :
    (t : Bytes)
    → length t ≤ 65535
    → (s : Bytes) × (write_text t ≡ ok s) × ((rest : Bytes) → read_text (s ++ rest) ≡ ok (t, rest))
unfolding write_text read_text
read_text-write_text t h = (
  be 2 (length t) ++ t,
  ground arith,
  λ rest. rw (
    append_assoc (be 2 (length t)) t rest,
    read_be-be 2 (length t) (t ++ rest) (omega arith),
    read_full-append t rest,
  ),
)

module _ ⦃floats : Floats⦄ where
  -- a value is a tag and what load_tagged reads
  save_value_lem :
      (v : Value)
      → Storable v
      → (tag : ℕ) × (s : Bytes) × (save_value v ≡ ok (tag ∷ s))
        × ((rest : Bytes) → load_tagged tag (s ++ rest) ≡ ok (v, rest))
  unfolding save_value load_tagged read_byte
  save_value_lem (int64 z) h = (
    0,
    be 8 (int64_bits z),
    refl,
    λ rest. rw (read_be-be 8 (int64_bits z) rest (int64_bits_lt z h).0, (int64_bits_lt z h).1),
  )
  save_value_lem (string t) h =
      let (s, e, r) = read_text-write_text t h in (1, s, rw e refl, λ rest. rw (r rest))
  save_value_lem (float64 x) h = (2, be 8 x, refl, λ rest. rw (read_be-be 8 x rest (omega arith)))
  save_value_lem (bool true) h = (3, 1 ∷ [], refl, λ rest. refl)
  save_value_lem (bool false) h = (3, 0 ∷ [], refl, λ rest. refl)
  save_value_lem null h = absurd h
  save_value_lem (int z) h = absurd h
  save_value_lem (float32 x) h = absurd h
  save_value_lem composite h = absurd h

  -- Every key fits in two bytes of length, and every value comes back as it was.
  abbrev pub StorableMetadata : Metadata → Type 0
  StorableMetadata metadata = All (λ e. (length e.0 ≤ 65535) × Storable e.1) metadata

  load_metadata-save_metadata :
      (metadata : Metadata)
      → StorableMetadata metadata
      → (s : Bytes) × (save_metadata metadata ≡ ok s)
        × ((rest : Bytes) (into : Metadata)
            → load_metadata (length metadata) (s ++ rest) into
              ≡ ok (insert_all metadata into, rest))
  unfolding save_metadata load_metadata load_entry insert_all read_byte
  load_metadata-save_metadata [] h = ([], refl, λ rest into. refl)
  load_metadata-save_metadata ((key, v) ∷ metadata) (hd, tl) =
      let (k, e, r) = read_text-write_text key hd.0 in
      let (tag, s, e', r') = save_value_lem v hd.1 in
      let (t, e'', r'') = load_metadata-save_metadata metadata tl in
      (
        k ++ (tag ∷ (s ++ t)),
        rw (e, e', e''),
        λ rest into.
            rw
              (
                append_assoc k (tag ∷ (s ++ t)) rest,
                append_assoc s t rest,
                r (tag ∷ (s ++ (t ++ rest))),
                r' (t ++ rest),
              )
              (r'' rest (Dict.insert key v into)),
      )

module _ ⦃quantization : Quantization⦄ where
  -- Every element fits in the bytes that it is stored in.
  abbrev pub StorableVector : Vector → Type 0
  StorableVector v = All (λ x. x < 256 ^ quantization.element_width) v

  load_vector-save_vector :
      (v : Vector) (rest : Bytes)
      → StorableVector v
      → load_vector (length v) (save_vector v ++ rest) ≡ ok (v, rest)
  unfolding save_vector load_vector
  load_vector-save_vector [] rest h = refl
  load_vector-save_vector (x ∷ v) rest h =
      let w = quantization.element_width in
      rw (
        append_assoc (be w x) (save_vector v) rest,
        read_be-be w x (save_vector v ++ rest) h.0,
        load_vector-save_vector v rest h.1,
      )

module _ ⦃floats : Floats⦄ ⦃quantization : Quantization⦄ where
  abbrev pub StorableNode : ENode → Type 0
  StorableNode node =
      (length node.vector < 2 ^ 32)
      × StorableVector node.vector
      × (length node.metadata < 2 ^ 32)
      × StorableMetadata node.metadata
      × Distinct node.metadata

  pub load_node-save_node :
      (node : ENode)
      → StorableNode node
      → (s : Bytes) × (save_node node ≡ ok s)
        × ((rest : Bytes) → load_node (s ++ rest) ≡ ok (node, rest))
  unfolding save_node load_node
  load_node-save_node node (fits, vec, few, meta, distinct) =
      let (t, e, r) = load_metadata-save_metadata node.metadata meta in
      let n = length node.vector in
      let k = length node.metadata in
      let small : n % 2 ^ 32 ≡ n = omega arith in
      let small' : k % 2 ^ 32 ≡ k = omega arith in
      let v = save_vector node.vector in
      (
        be 4 n ++ (v ++ (be 4 k ++ t)),
        rw (e, small, small') refl,
        λ rest.
            rw
              (
                append_assoc (be 4 n) (v ++ (be 4 k ++ t)) rest,
                append_assoc v (be 4 k ++ t) rest,
                append_assoc (be 4 k) t rest,
                read_be-be 4 n (v ++ (be 4 k ++ (t ++ rest))) (omega arith),
                load_vector-save_vector node.vector (be 4 k ++ (t ++ rest)) vec,
                read_be-be 4 k (t ++ rest) (omega arith),
                r rest [],
                insert_all_nil node.metadata distinct,
              )
              refl,
      )
