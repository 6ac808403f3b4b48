-- ===== src/Inverted/Index/Removal.antt =====
-- Remove of pkg/inverted/bitmap_index.go: what is left, also after an Add.
use coltt.Prelude.{
  ℕ, ◌≡◌, refl, true, false, not, ◌&&◌, [], ◌∷◌, all, arith, ◌==◌, if◌then◌else◌, Option-cases, inl,
  inr,
}
use coltt.Prelude.Bytes.{Bytes, bytes_eq}
use coltt.Prelude.Dict
use coltt.Prelude.Dict.{Dict, bytes_key}
use coltt.Prelude.Outcome.{ok}
use coltt.Inverted.Value.{Value, value_key, value_eq, hashable, reflexive}
use coltt.Inverted.Roaring.{Roaring}
use coltt.Inverted.Index.{
  BitmapIndex, Metadata, get_shard, add, remove_from_bitmap, keep_or_delete, remove_entry, remove,
}
use coltt.Inverted.Index.Postings.{
  bitmap_has, bitmaps, tags, posted, bitmaps-put_shard, bitmaps-beq, shard-get_shard,
  bitmaps-get_shard, posted-add,
}

pub all-hashable :
    (metadata : Metadata)
    → all (λ e. reflexive e.1) metadata ≡ true
    → all (λ e. hashable e.1) metadata ≡ true
all-hashable [] h = refl
all-hashable ((key, val) ∷ metadata) h = ground (arith, all-hashable metadata)

module _ {B : Type 0} where
  bitmaps-keep_or_delete :
      (key k : Bytes) (m : Dict Value B) (idx : BitmapIndex B)
      → bitmaps k (keep_or_delete key m idx) ≡ (if bytes_eq key k then m else bitmaps k idx)
  unfolding keep_or_delete
  bitmaps-keep_or_delete key k (e ∷ m) idx = bitmaps-put_shard key k (e ∷ m) idx
  bitmaps-keep_or_delete key k [] idx =
      unfold bitmaps in ground (arith, Dict.lookup-remove key k idx.shards)

module _ {B : Type 0} ⦃roaring : Roaring B⦄ where
  has-remove_from_bitmap :
      (id : ℕ) (val v : Value) (m : Dict Value B) (j : ℕ)
      → bitmap_has (Dict.lookup v (remove_from_bitmap id val (Dict.lookup val m) m)) j
        ≡ (not (value_eq val v && id == j) && bitmap_has (Dict.lookup v m) j)
  unfolding remove_from_bitmap
  has-remove_from_bitmap id val v m j = elim (Option-cases (Dict.lookup val m)) [
    | inl e ↦ rw (e, remove_from_bitmap) (ground (arith, e, Dict.lookup-beq val v m))
    | inr (bm, e) ↦
        rw (e, remove_from_bitmap)
          (ground (
            arith,
            e,
            Dict.lookup-beq val v m,
            Dict.lookup-remove val v m,
            Dict.lookup-modify val v (roaring.remove id bm) m bm e,
            roaring.contains-remove id j bm,
            roaring.contains_empty j (roaring.remove id bm),
          ))
  ]

  module _ (id : ℕ) (key : Bytes) (val : Value) (idx : BitmapIndex B)
      (h : hashable val ≡ true) where
    remove_entry-ok : (remove_entry id key val idx).0 ≡ ok tt
    unfolding remove_entry
    remove_entry-ok = rw h

    posted-remove_entry :
        (k : Bytes) (v : Value) (j : ℕ)
        → posted (remove_entry id key val idx).1 k v j
          ≡ (not (bytes_eq key k && value_eq val v && id == j) && posted idx k v j)
    unfolding posted remove_entry
    posted-remove_entry k v j =
        let (sh, idx') = get_shard key idx in
        let m = sh.shard_index in
        ground (
          arith,
          h,
          bitmaps-keep_or_delete key k (remove_from_bitmap id val (Dict.lookup val m) m) idx',
          has-remove_from_bitmap id val v m j,
          shard-get_shard key idx,
          bitmaps-get_shard key k idx,
          bitmaps-beq key k idx,
        )

  -- Remove never fails on values that can be keys, and takes exactly the id from each of them.
  pub posted-remove :
      (id : ℕ) (metadata : Metadata) (idx : BitmapIndex B)
      → all (λ e. hashable e.1) metadata ≡ true
      → ((remove id metadata idx).0 ≡ ok tt)
        × ((k : Bytes) (v : Value) (j : ℕ)
            → posted (remove id metadata idx).1 k v j
              ≡ (not (tags metadata k v && id == j) && posted idx k v j))
  unfolding remove tags
  posted-remove id [] idx h = (refl, λ k v j. refl)
  posted-remove id ((key, val) ∷ metadata) idx h =
      let r : hashable val ≡ true = ground arith in
      let (done, rest) = posted-remove id metadata (remove_entry id key val idx).1 (ground arith) in
      (
        ground (arith, remove_entry-ok id key val idx r),
        λ k v j. ground (
          arith,
          remove_entry-ok id key val idx r,
          rest k v j,
          posted-remove_entry id key val idx r k v j,
        ),
      )

  -- To remove what was just added restores every posting of an index that did not have the id
  -- under any of the metadata's values.
  pub remove-add :
      (id : ℕ) (metadata : Metadata) (idx : BitmapIndex B)
      → all (λ e. reflexive e.1) metadata ≡ true
      → ((k : Bytes) (v : Value) → tags metadata k v ≡ true → posted idx k v id ≡ false)
      → (k : Bytes) (v : Value) (j : ℕ)
      → posted (remove id metadata (add id metadata idx).1).1 k v j ≡ posted idx k v j
  remove-add id metadata idx h fresh k v j = ground (
    arith,
    (posted-remove id metadata (add id metadata idx).1 (all-hashable metadata h)).1 k v j,
    (posted-add id metadata idx h).1 k v j,
    fresh k v,
  )
