-- ===== src/Inverted/Index/Postings.antt =====
-- What the index holds: the ids posted under a value of a key, and how Add and Remove change them.
use coltt.Prelude.{
  ℕ, ◌≡◌, refl, ◌∙◌, Bool, true, false, ◌&&◌, ◌||◌, Option, none, some, [], ◌∷◌, any, all, arith,
  ◌==◌, if◌then◌else◌, Option-cases, inl, inr,
}
use coltt.Prelude.Bytes.{Bytes, bytes_eq, eq_of_bytes_eq}
use coltt.Prelude.Dict
use coltt.Prelude.Dict.{Dict, bytes_key}
use coltt.Prelude.Outcome.{ok}
use coltt.Inverted.Value.{Value, value_key, value_eq, value_eq_refl, hashable, reflexive}
use coltt.Inverted.Roaring.{Roaring}
use coltt.Inverted.Index.{
  BitmapIndex, IndexShard, Metadata, put_shard, get_shard, ensure_bitmap, add_to_bitmap,
  add_to_shard, add_entry, add,
}

abbrev pub shard_bitmaps : {B : Type 0} → Option (IndexShard B) → Dict Value B
shard_bitmaps none = []
shard_bitmaps (some shard) = shard.shard_index

-- The bitmaps under a key; a missing shard has none.
unfoldable pub bitmaps : {B : Type 0} → Bytes → BitmapIndex B → Dict Value B
bitmaps key idx = shard_bitmaps (Dict.lookup key idx.shards)

-- The metadata has the value under the key.
unfoldable pub tags : Metadata → Bytes → Value → Bool
tags metadata k v = any (λ e. bytes_eq e.0 k && value_eq e.1 v) metadata

module _ {B : Type 0} ⦃roaring : Roaring B⦄ where
  abbrev pub bitmap_has : Option B → ℕ → Bool
  bitmap_has none id = false
  bitmap_has (some bm) id = roaring.contains bm id

  -- The id is in the bitmap of the value under the key.
  unfoldable pub posted : BitmapIndex B → Bytes → Value → ℕ → Bool
  posted idx key val id = bitmap_has (Dict.lookup val (bitmaps key idx)) id

module _ {B : Type 0} where
  pub bitmaps-put_shard :
      (key k : Bytes) (m : Dict Value B) (idx : BitmapIndex B)
      → bitmaps k (put_shard key m idx) ≡ (if bytes_eq key k then m else bitmaps k idx)
  unfolding bitmaps put_shard
  bitmaps-put_shard key k m idx =
      ground (arith, Dict.lookup-insert key k (record { shard_index = m }) idx.shards)

  pub shard-get_shard :
      (key : Bytes) (idx : BitmapIndex B) → (get_shard key idx).0.shard_index ≡ bitmaps key idx
  unfolding bitmaps get_shard
  shard-get_shard key idx = ground arith

  pub bitmaps-beq :
      (key k : Bytes) (idx : BitmapIndex B)
      → bytes_eq key k ≡ true
      → bitmaps key idx ≡ bitmaps k idx
  bitmaps-beq key k idx h = rw (eq_of_bytes_eq key k h)

  -- Looking a shard up changes no bitmap.
  pub bitmaps-get_shard :
      (key k : Bytes) (idx : BitmapIndex B) → bitmaps k (get_shard key idx).1 ≡ bitmaps k idx
  unfolding bitmaps get_shard
  bitmaps-get_shard key k idx = elim (Option-cases (Dict.lookup key idx.shards)) [
    | inl e ↦
        rw (e, get_shard)
          (bitmaps-put_shard key k [] idx ∙ ground (arith, e, Dict.lookup-beq key k idx.shards))
    | inr (sh, e) ↦ rw (e, get_shard)
  ]

hashable_of_reflexive : (val : Value) → reflexive val ≡ true → hashable val ≡ true
hashable_of_reflexive val h = ground arith

module _ {B : Type 0} ⦃roaring : Roaring B⦄ where
  has-ensure_bitmap :
      (val v : Value) (m : Dict Value B) (j : ℕ)
      → bitmap_has (Dict.lookup v (ensure_bitmap val m)) j ≡ bitmap_has (Dict.lookup v m) j
  unfolding ensure_bitmap
  has-ensure_bitmap val v m j = ground (
    arith,
    Dict.lookup-insert val v roaring.new m,
    Dict.lookup-beq val v m,
    roaring.contains-new j,
  )

  lookup-ensure_bitmap :
      (val : Value) (m : Dict Value B)
      → reflexive val ≡ true
      → (bm : B) × (Dict.lookup val (ensure_bitmap val m) ≡ some bm)
  unfolding ensure_bitmap
  lookup-ensure_bitmap val m h = elim (Option-cases (Dict.lookup val m)) [
    | inl e ↦ (
      roaring.new,
      rw (e, ensure_bitmap) (Dict.lookup-insert val val roaring.new m ∙ rw (value_eq_refl val h)),
    )
    | inr (bm, e) ↦ (bm, rw (e, ensure_bitmap) e)
  ]

  has-add_to_bitmap :
      (id : ℕ) (val v : Value) (m : Dict Value B) (bm : B) (j : ℕ)
      → Dict.lookup val m ≡ some bm
      → bitmap_has (Dict.lookup v (Dict.modify val (roaring.add id bm) m)) j
        ≡ ((value_eq val v && id == j) || bitmap_has (Dict.lookup v m) j)
  has-add_to_bitmap id val v m bm j h = ground (
    arith,
    Dict.lookup-modify val v (roaring.add id bm) m bm,
    Dict.lookup-beq val v m,
    roaring.contains-add id j bm,
  )

  bitmaps-add_to_shard :
      (id : ℕ) (key : Bytes) (val : Value) (m : Dict Value B) (idx : BitmapIndex B) (bm : B)
      → reflexive val ≡ true
      → Dict.lookup val (ensure_bitmap val m) ≡ some bm
      → (k : Bytes)
      → bitmaps k (add_to_shard id key val m idx).1 ≡ (
          if bytes_eq key k
          then Dict.modify val (roaring.add id bm) (ensure_bitmap val m)
          else bitmaps k idx)
  unfolding add_to_shard
  bitmaps-add_to_shard id key val m idx bm h e k =
      let m' = ensure_bitmap val m in
      let made = put_shard key m' idx in
      rw (hashable_of_reflexive val h, e, add_to_bitmap)
        (ground (
          arith,
          bitmaps-put_shard key k (Dict.modify val (roaring.add id bm) m') made,
          bitmaps-put_shard key k m' idx,
        ))

  module _ (id : ℕ) (key : Bytes) (val : Value) (idx : BitmapIndex B)
      (h : reflexive val ≡ true) where
    add_entry-ok : (add_entry id key val idx).0 ≡ ok tt
    unfolding add_entry
    add_entry-ok = ground (
      arith,
      hashable_of_reflexive val h,
      lookup-ensure_bitmap val ((get_shard key idx).0.shard_index) h,
    )

    posted-add_entry :
        (k : Bytes) (v : Value) (j : ℕ)
        → posted (add_entry id key val idx).1 k v j
          ≡ ((bytes_eq key k && value_eq val v && id == j) || posted idx k v j)
    unfolding posted add_entry
    posted-add_entry k v j =
        let m = (get_shard key idx).0.shard_index in
        let (bm, e) = lookup-ensure_bitmap val m h in
        ground (
          arith,
          bitmaps-add_to_shard id key val m (get_shard key idx).1 bm h e k,
          has-add_to_bitmap id val v (ensure_bitmap val m) bm j e,
          has-ensure_bitmap val v m j,
          shard-get_shard key idx,
          bitmaps-get_shard key k idx,
          bitmaps-beq key k idx,
        )

  -- Add never fails on values that can be keys, and posts exactly the id under each of them.
  pub posted-add :
      (id : ℕ) (metadata : Metadata) (idx : BitmapIndex B)
      → all (λ e. reflexive e.1) metadata ≡ true
      → ((add id metadata idx).0 ≡ ok tt)
        × ((k : Bytes) (v : Value) (j : ℕ)
            → posted (add id metadata idx).1 k v j
              ≡ ((tags metadata k v && id == j) || posted idx k v j))
  unfolding add tags
  posted-add id [] idx h = (refl, λ k v j. refl)
  posted-add id ((key, val) ∷ metadata) idx h =
      let r : reflexive val ≡ true = ground arith in
      let (done, rest) = posted-add id metadata (add_entry id key val idx).1 (ground arith) in
      (
        ground (arith, add_entry-ok id key val idx r),
        λ k v j. ground (
          arith,
          add_entry-ok id key val idx r,
          rest k v j,
          posted-add_entry id key val idx r k v j,
        ),
      )
