-- ===== src/Tags/Files/RoundTrip.antt =====
-- SerializeBinary and DeserializeBinary of pkg/index, one after the other.
use coltt.Prelude.{
  ℕ, ◌%◌, ◌<◌, ◌^◌, ◌≡◌, refl, ◌∙◌, ap, Option, none, [], ◌∷◌, ◌++◌, length, arith, if◌then◌else◌,
}
use mathlib.Core.List.{append_assoc, append-nil}
use coltt.Prelude.Bytes.{Bytes, bytes_eq}
use coltt.Prelude.Dict
use coltt.Prelude.Dict.{Dict, bytes_key}
use coltt.Prelude.Dict.Keys.{Distinct, first_of_two, insert_all, lookup-insert_all}
use coltt.Prelude.Binary.{le, read_le-le}
use coltt.Prelude.Outcome.{ok}
use coltt.Inverted.Roaring.{Roaring}
use coltt.Inverted.Codec.{write_block, unmarshalled}
use coltt.Inverted.Codec.RoundTrip.{read_block-write_block, read_header_lem, first_of_two-none}
use coltt.Inverted.Index.Postings.{bitmap_has}
use coltt.Tags.{TagIndex, get_tags, new_tag_index}
use coltt.Tags.Held.{
  held, tags_at, tags_or_none, tags_at-put_tags, tags-get_tags, tags_at-get_tags, tags_at-beq,
}
use coltt.Tags.Files.{
  set_tag, write_tag_values, write_tag_shards, serialize_tags, read_tag_entry, read_tag_values,
  read_tag_shards, deserialize_tags,
}

module _ {B : Type 0} where
  tags_at-set_tag :
      (key k v : Bytes) (bm : B) (idx : TagIndex B)
      → tags_at k (set_tag key v bm idx)
        ≡ (if bytes_eq key k then Dict.insert v bm (tags_at key idx) else tags_at k idx)
  unfolding set_tag
  tags_at-set_tag key k v bm idx =
      let (m, idx') = get_tags key idx in
      ground (
        arith,
        tags_at-put_tags key k (Dict.insert v bm m) idx',
        tags-get_tags key idx,
        tags_at-get_tags key k idx,
      )

  -- the entries of one shard, read one after the other
  set_tags : Bytes → Dict Bytes B → TagIndex B → TagIndex B
  set_tags key [] idx = idx
  set_tags key ((v, bm) ∷ m) idx = set_tags key m (set_tag key v bm idx)

  tags_at-set_tags :
      (key k : Bytes) (m : Dict Bytes B) (idx : TagIndex B)
      → tags_at k (set_tags key m idx)
        ≡ (if bytes_eq key k then insert_all m (tags_at k idx) else tags_at k idx)
  unfolding set_tags insert_all
  tags_at-set_tags key k [] idx = ground arith
  tags_at-set_tags key k ((v, bm) ∷ m) idx = ground (
    arith,
    tags_at-set_tags key k m (set_tag key v bm idx),
    tags_at-set_tag key k v bm idx,
    tags_at-beq key k idx,
  )

  -- the shards, read one after the other
  load_tags : Dict Bytes (Dict Bytes B) → TagIndex B → TagIndex B
  unfolding set_tags
  load_tags [] idx = idx
  load_tags ((key, m) ∷ shards) idx = load_tags shards (set_tags key m (get_tags key idx).1)

  -- No key of the index stands twice, and no value under a key.
  abbrev pub DistinctTags : Dict Bytes (Dict Bytes B) → Type 0
  DistinctTags [] = Unit
  DistinctTags ((key, m) ∷ shards) =
      (Dict.lookup key shards ≡ none) × Distinct m × DistinctTags shards

  lookup-set_tags :
      (key k v : Bytes) (m : Dict Bytes B) (idx : TagIndex B)
      → Distinct m
      → Dict.lookup v (tags_at k (set_tags key m (get_tags key idx).1)) ≡ (
          if bytes_eq key k
          then first_of_two (Dict.lookup v m) (Dict.lookup v (tags_at k idx))
          else Dict.lookup v (tags_at k idx))
  lookup-set_tags key k v m idx d = ground (
    arith,
    tags_at-set_tags key k m (get_tags key idx).1,
    tags_at-get_tags key k idx,
    lookup-insert_all v m (tags_at k idx) d,
  )

  lookup-load_tags :
      (k v : Bytes) (shards : Dict Bytes (Dict Bytes B)) (idx : TagIndex B)
      → DistinctTags shards
      → Dict.lookup v (tags_at k (load_tags shards idx))
        ≡ first_of_two
            (Dict.lookup v (tags_or_none (Dict.lookup k shards)))
            (Dict.lookup v (tags_at k idx))
  unfolding load_tags Dict.lookup
  lookup-load_tags k v [] idx d = refl
  lookup-load_tags k v ((key, m) ∷ shards) idx d =
      lookup-load_tags k v shards (set_tags key m (get_tags key idx).1) d.2
      ∙ (rw (lookup-set_tags key k v m idx d.1) (ground (arith, Dict.lookup-beq key k shards, d.0)))

module _ {B : Type 0} ⦃roaring : Roaring B⦄ where
  -- No block of bytes passes the 32 bits of its length.
  abbrev pub ShortValues : Dict Bytes B → Type 0
  ShortValues [] = Unit
  ShortValues ((v, bm) ∷ m) =
      (length v < 2 ^ 32) × (length (roaring.to_bytes bm) < 2 ^ 32) × ShortValues m

  abbrev pub ShortShards : Dict Bytes (Dict Bytes B) → Type 0
  ShortShards [] = Unit
  ShortShards ((key, m) ∷ shards) =
      (length key < 2 ^ 32) × (length m < 2 ^ 32) × ShortValues m × ShortShards shards

  read_tag_values-write_tag_values :
      (key : Bytes) (m : Dict Bytes B) (rest : Bytes) (idx : TagIndex B)
      → ShortValues m
      → read_tag_values (length m) key (write_tag_values m ++ rest) idx
        ≡ (ok rest, set_tags key m idx)
  unfolding write_tag_values read_tag_values read_tag_entry unmarshalled set_tags
  read_tag_values-write_tag_values key [] rest idx h = refl
  read_tag_values-write_tag_values key ((v, bm) ∷ m) rest idx (hv, hb, hm) =
      let b = write_block (roaring.to_bytes bm) in
      let t = write_tag_values m in
      rw
        (
          append_assoc (write_block v) (b ++ t) rest,
          append_assoc b t rest,
          read_block-write_block v (b ++ (t ++ rest)) hv,
          read_block-write_block (roaring.to_bytes bm) (t ++ rest) hb,
          roaring.unmarshal_binary-to_bytes bm,
        )
        (read_tag_values-write_tag_values key m rest (set_tag key v bm idx) hm)

  read_tag_shards-write_tag_shards :
      (shards : Dict Bytes (Dict Bytes B)) (rest : Bytes) (idx : TagIndex B)
      → ShortShards shards
      → read_tag_shards (length shards) (write_tag_shards shards ++ rest) idx
        ≡ (ok rest, load_tags shards idx)
  unfolding write_tag_shards read_tag_shards load_tags
  read_tag_shards-write_tag_shards [] rest idx h = refl
  read_tag_shards-write_tag_shards ((key, m) ∷ shards) rest idx (hk, hm, hv, hs) =
      let n = length m in
      let small : n % 2 ^ 32 ≡ n = omega arith in
      let s = write_tag_values m in
      let t = write_tag_shards shards in
      rw
        (
          small,
          append_assoc (write_block key) (le 4 n ++ (s ++ t)) rest,
          append_assoc (le 4 n) (s ++ t) rest,
          append_assoc s t rest,
          read_header_lem key (s ++ (t ++ rest)) n hk hm,
          read_tag_values-write_tag_values key m (t ++ rest) (get_tags key idx).1 hv,
        )
        (read_tag_shards-write_tag_shards shards rest (set_tags key m (get_tags key idx).1) hs)

  lookup-tags_at :
      (k v : Bytes) (idx : TagIndex B)
      → Dict.lookup v (tags_or_none (Dict.lookup k idx.shards)) ≡ Dict.lookup v (tags_at k idx)
  unfolding tags_at
  lookup-tags_at k v idx = refl

  lookup-new : (k v : Bytes) → Dict.lookup {V = B} v (tags_at k new_tag_index) ≡ none
  unfolding tags_at Dict.lookup
  lookup-new k v = refl

  -- An index whose lengths fit in 32 bits, with no key or value standing twice, is read back from
  -- its file by a new index with the same ids under each key and value.
  pub deserialize_tags-serialize_tags :
      (idx : TagIndex B)
      → ShortShards idx.shards
      → DistinctTags idx.shards
      → length idx.shards < 2 ^ 32
      → (idx' : TagIndex B) × (deserialize_tags (serialize_tags idx) new_tag_index ≡ (ok tt, idx'))
        × ((k v : Bytes) (j : ℕ) → held idx' k v j ≡ held idx k v j)
  unfolding serialize_tags deserialize_tags held
  deserialize_tags-serialize_tags idx h d n =
      let count = length idx.shards in
      let s = write_tag_shards idx.shards in
      let small : count % 2 ^ 32 ≡ count = omega arith in
      let loaded : read_tag_shards count s new_tag_index
          ≡ (ok [], load_tags idx.shards new_tag_index) =
        rw (append-nil s) at (read_tag_shards-write_tag_shards idx.shards [] new_tag_index h) in
      (
        load_tags idx.shards new_tag_index,
        rw (small, read_le-le 4 count s (omega arith), loaded),
        λ k v j. rw (lookup-load_tags k v idx.shards new_tag_index d) (
            ap (λ (o : Option B). bitmap_has o j)
              (rw (lookup-new k v, first_of_two-none) (lookup-tags_at k v idx))),
      )
