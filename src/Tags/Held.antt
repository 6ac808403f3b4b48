-- ===== src/Tags/Held.antt =====
-- What the index of pkg/index holds, and how Add and Remove change it.
use coltt.Prelude.{
  ℕ, ◌≡◌, refl, ◌∙◌, Bool, true, not, ◌&&◌, ◌||◌, Option, none, some, [], ◌∷◌, any, arith, ◌==◌,
  if◌then◌else◌, Option-cases, inl, inr,
}
use coltt.Prelude.Bytes.{Bytes, bytes_eq, eq_of_bytes_eq}
use coltt.Prelude.Dict
use coltt.Prelude.Dict.{Dict, bytes_key}
use coltt.Inverted.Roaring.{Roaring}
use coltt.Inverted.Index.{Metadata}
use coltt.Inverted.Index.Postings.{bitmap_has}
use coltt.Tags.{
  TagIndex, Formats, forced_string_type_changer, put_tags, get_tags, keep_tags, add_to_value,
  add_tag, add_node, remove_from_value, remove_tag, remove_node,
}

abbrev pub tags_or_none : {B : Type 0} → Option (Dict Bytes B) → Dict Bytes B
tags_or_none none = []
tags_or_none (some m) = m

-- The bitmaps under a key; a missing shard has none.
unfoldable pub tags_at : {B : Type 0} → Bytes → TagIndex B → Dict Bytes B
tags_at key idx = tags_or_none (Dict.lookup key idx.shards)

-- The id is in the bitmap of the value under the key.
unfoldable pub held : {B : Type 0} → ⦃roaring : Roaring B⦄ → TagIndex B → Bytes → Bytes → ℕ → Bool
held idx key value id = bitmap_has (Dict.lookup value (tags_at key idx)) id

-- The metadata has a value under the key that is written like this.
unfoldable pub written_as : ⦃formats : Formats⦄ → Metadata → Bytes → Bytes → Bool
written_as metadata k v =
    any (λ e. bytes_eq e.0 k && bytes_eq (forced_string_type_changer e.1) v) metadata

module _ {B : Type 0} where
  pub tags_at-put_tags :
      (key k : Bytes) (m : Dict Bytes B) (idx : TagIndex B)
      → tags_at k (put_tags key m idx) ≡ (if bytes_eq key k then m else tags_at k idx)
  unfolding tags_at put_tags
  tags_at-put_tags key k m idx = ground (arith, Dict.lookup-insert key k m idx.shards)

  pub tags-get_tags : (key : Bytes) (idx : TagIndex B) → (get_tags key idx).0 ≡ tags_at key idx
  unfolding tags_at get_tags
  tags-get_tags key idx = ground arith

  pub tags_at-beq :
      (key k : Bytes) (idx : TagIndex B) → bytes_eq key k ≡ true → tags_at key idx ≡ tags_at k idx
  tags_at-beq key k idx h = rw (eq_of_bytes_eq key k h)

  pub tags_at-get_tags :
      (key k : Bytes) (idx : TagIndex B) → tags_at k (get_tags key idx).1 ≡ tags_at k idx
  unfolding tags_at get_tags
  tags_at-get_tags key k idx = elim (Option-cases (Dict.lookup key idx.shards)) [
    | inl e ↦
        rw (e, get_tags)
          (tags_at-put_tags key k [] idx ∙ ground (arith, e, Dict.lookup-beq key k idx.shards))
    | inr (m, e) ↦ rw (e, get_tags)
  ]

  tags_at-keep_tags :
      (key k : Bytes) (m : Dict Bytes B) (idx : TagIndex B)
      → tags_at k (keep_tags key m idx) ≡ (if bytes_eq key k then m else tags_at k idx)
  unfolding keep_tags
  tags_at-keep_tags key k (e ∷ m) idx = tags_at-put_tags key k (e ∷ m) idx
  tags_at-keep_tags key k [] idx =
      unfold tags_at in ground (arith, Dict.lookup-remove key k idx.shards)

module _ {B : Type 0} ⦃roaring : Roaring B⦄ where
  has-add_to_value :
      (id : ℕ) (val v : Bytes) (m : Dict Bytes B) (j : ℕ)
      → bitmap_has (Dict.lookup v (add_to_value id val (Dict.lookup val m) m)) j
        ≡ ((bytes_eq val v && id == j) || bitmap_has (Dict.lookup v m) j)
  unfolding add_to_value
  has-add_to_value id val v m j = elim (Option-cases (Dict.lookup val m)) [
    | inl e ↦
        rw (e, add_to_value)
          (ground (
            arith,
            e,
            Dict.lookup-beq val v m,
            Dict.lookup-insert val v (roaring.add id roaring.new) m,
            roaring.contains-add id j roaring.new,
            roaring.contains-new j,
          ))
    | inr (bm, e) ↦
        rw (e, add_to_value)
          (ground (
            arith,
            e,
            Dict.lookup-beq val v m,
            Dict.lookup-modify val v (roaring.add id bm) m bm e,
            roaring.contains-add id j bm,
          ))
  ]

  has-remove_from_value :
      (id : ℕ) (val v : Bytes) (m : Dict Bytes B) (j : ℕ)
      → bitmap_has (Dict.lookup v (remove_from_value id val (Dict.lookup val m) m)) j
        ≡ (not (bytes_eq val v && id == j) && bitmap_has (Dict.lookup v m) j)
  unfolding remove_from_value
  has-remove_from_value id val v m j = elim (Option-cases (Dict.lookup val m)) [
    | inl e ↦ rw (e, remove_from_value) (ground (arith, e, Dict.lookup-beq val v m))
    | inr (bm, e) ↦
        rw (e, remove_from_value)
          (ground (
            arith,
            e,
            Dict.lookup-beq val v m,
            Dict.lookup-remove val v m,
            Dict.lookup-modify val v (roaring.remove id bm) m bm e,
            roaring.contains-remove id j bm,
            roaring.contains_empty j (roaring.remove id bm),
          ))
  ]

  module _ (id : ℕ) (key val : Bytes) (idx : TagIndex B) (k v : Bytes) (j : ℕ) where
    held-add_tag :
        held (add_tag id key val idx) k v j
        ≡ ((bytes_eq key k && bytes_eq val v && id == j) || held idx k v j)
    unfolding held add_tag
    held-add_tag =
        let (m, idx') = get_tags key idx in
        ground (
          arith,
          tags_at-put_tags key k (add_to_value id val (Dict.lookup val m) m) idx',
          has-add_to_value id val v m j,
          tags-get_tags key idx,
          tags_at-get_tags key k idx,
          tags_at-beq key k idx,
        )

    held-remove_tag :
        held (remove_tag id key val idx) k v j
        ≡ (not (bytes_eq key k && bytes_eq val v && id == j) && held idx k v j)
    unfolding held remove_tag
    held-remove_tag =
        let (m, idx') = get_tags key idx in
        ground (
          arith,
          tags_at-keep_tags key k (remove_from_value id val (Dict.lookup val m) m) idx',
          has-remove_from_value id val v m j,
          tags-get_tags key idx,
          tags_at-get_tags key k idx,
          tags_at-beq key k idx,
        )

  module _ ⦃formats : Formats⦄ (id : ℕ) where
    -- Add of pkg/index puts exactly the id under each value of the metadata, written as a string.
    pub held-add_node :
        (metadata : Metadata) (idx : TagIndex B) (k v : Bytes) (j : ℕ)
        → held (add_node id metadata idx) k v j
          ≡ ((written_as metadata k v && id == j) || held idx k v j)
    unfolding add_node written_as
    held-add_node [] idx k v j = refl
    held-add_node ((key, val) ∷ metadata) idx k v j =
        let s = forced_string_type_changer val in
        ground (
          arith,
          held-add_node metadata (add_tag id key s idx) k v j,
          held-add_tag id key s idx k v j,
        )

    -- Remove of pkg/index takes exactly the id from each value of the metadata, written as a
    -- string.
    pub held-remove_node :
        (metadata : Metadata) (idx : TagIndex B) (k v : Bytes) (j : ℕ)
        → held (remove_node id metadata idx) k v j
          ≡ (not (written_as metadata k v && id == j) && held idx k v j)
    unfolding remove_node written_as
    held-remove_node [] idx k v j = refl
    held-remove_node ((key, val) ∷ metadata) idx k v j =
        let s = forced_string_type_changer val in
        ground (
          arith,
          held-remove_node metadata (remove_tag id key s idx) k v j,
          held-remove_tag id key s idx k v j,
        )
