-- ===== src/Inverted/Index.antt =====
-- pkg/inverted/bitmap_index.go: the index itself. A call runs alone (its locks are not modelled);
-- a pointer to a shard is the entry of the map that holds it.
pub mod Postings
pub mod Removal
use coltt.Prelude.{
  ℕ, Bool, true, false, Option, none, some, List, [], ◌∷◌, length, ◌==◌, if◌then◌else◌,
}
use coltt.Prelude.Bytes.{Bytes}
use coltt.Prelude.Dict
use coltt.Prelude.Dict.{Dict, bytes_key}
use coltt.Prelude.Outcome.{Outcome, ok, panic, continue}
use coltt.Inverted.Value.{Value, value_key, hashable}
use coltt.Inverted.Roaring.{Roaring}

pub record IndexShard (B : Type 0) : Type 0 where
  pub shard_index : Dict Value B

pub record BitmapIndex (B : Type 0) : Type 0 where
  pub shards : Dict Bytes (IndexShard B)

-- map[string]interface{}
abbrev pub Metadata : Type 0
Metadata = Dict Bytes Value

module _ {B : Type 0} where
  abbrev pub new_bitmap_index : BitmapIndex B
  new_bitmap_index = record { shards = [] }

  -- idx.Shards[key], written
  unfoldable pub put_shard : Bytes → Dict Value B → BitmapIndex B → BitmapIndex B
  put_shard key m idx = record { shards = Dict.insert key (record { shard_index = m }) idx.shards }

  get_shard_or_new : Bytes → Option (IndexShard B) → BitmapIndex B → IndexShard B × BitmapIndex B
  get_shard_or_new key (some shard) idx = (shard, idx)
  get_shard_or_new key none idx = (record { shard_index = [] }, put_shard key [] idx)

  -- the shard of a key, made where it is missing
  unfoldable pub get_shard : Bytes → BitmapIndex B → IndexShard B × BitmapIndex B
  unfolding get_shard_or_new put_shard
  get_shard key idx = get_shard_or_new key (Dict.lookup key idx.shards) idx

  -- a shard with no entry left is deleted
  keep_or_delete : Bytes → Dict Value B → BitmapIndex B → BitmapIndex B
  keep_or_delete key [] idx = record { shards = Dict.remove key idx.shards }
  keep_or_delete key (e ∷ m) idx = put_shard key (e ∷ m) idx

module _ {B : Type 0} ⦃roaring : Roaring B⦄ where
  -- if _, exists := shard.ShardIndex[val]; !exists { shard.ShardIndex[val] = roaring.New() }
  ensure_bitmap : Value → Dict Value B → Dict Value B
  ensure_bitmap val m = elim (Dict.lookup val m) [
    | none ↦ Dict.insert val roaring.new m
    | some bm ↦ m
  ]

  -- shard.ShardIndex[val].Add(nodeId): a nil pointer where the key is not found
  add_to_bitmap : ℕ → Value → Dict Value B → Outcome (Dict Value B)
  add_to_bitmap id val m = elim (Dict.lookup val m) [
    | none ↦ panic
    | some bm ↦ ok (Dict.modify val (roaring.add id bm) m)
  ]

  store_bitmap : Bytes → Outcome (Dict Value B) → BitmapIndex B → Outcome (Unit {0}) × BitmapIndex B
  store_bitmap key (ok m) idx = (ok tt, put_shard key m idx)
  store_bitmap key _ idx = (panic, idx)

  add_to_shard :
      ℕ → Bytes → Value → Dict Value B → BitmapIndex B → Outcome (Unit {0}) × BitmapIndex B
  unfolding ensure_bitmap add_to_bitmap store_bitmap
  add_to_shard id key val m idx =
      if hashable val
      then store_bitmap key (add_to_bitmap id val (ensure_bitmap val m))
          (put_shard key (ensure_bitmap val m) idx)
      else (panic, idx)

  -- one round of the loop of Add
  unfoldable pub add_entry : ℕ → Bytes → Value → BitmapIndex B → Outcome (Unit {0}) × BitmapIndex B
  unfolding add_to_shard
  add_entry id key val idx =
      let (shard, idx') = get_shard key idx in add_to_shard id key val shard.shard_index idx'

  unfoldable pub add : ℕ → Metadata → BitmapIndex B → Outcome (Unit {0}) × BitmapIndex B
  add id [] idx = (ok tt, idx)
  add id ((key, val) ∷ metadata) idx =
      continue (add_entry id key val idx) (λ _ idx'. add id metadata idx')

  -- bm.Remove(nodeId), and the entry goes if nothing is left
  remove_from_bitmap : ℕ → Value → Option B → Dict Value B → Dict Value B
  remove_from_bitmap id val none m = m
  remove_from_bitmap id val (some bm) m =
      if roaring.is_empty (roaring.remove id bm)
      then Dict.remove val m
      else Dict.modify val (roaring.remove id bm) m

  remove_from_shard :
      ℕ → Bytes → Value → Dict Value B → BitmapIndex B → Outcome (Unit {0}) × BitmapIndex B
  unfolding remove_from_bitmap keep_or_delete
  remove_from_shard id key val m idx =
      if hashable val
      then (ok tt, keep_or_delete key (remove_from_bitmap id val (Dict.lookup val m) m) idx)
      else (panic, idx)

  -- one round of the loop of Remove
  unfoldable pub remove_entry :
      ℕ → Bytes → Value → BitmapIndex B → Outcome (Unit {0}) × BitmapIndex B
  unfolding remove_from_shard
  remove_entry id key val idx =
      let (shard, idx') = get_shard key idx in remove_from_shard id key val shard.shard_index idx'

  unfoldable pub remove : ℕ → Metadata → BitmapIndex B → Outcome (Unit {0}) × BitmapIndex B
  remove id [] idx = (ok tt, idx)
  remove id ((key, val) ∷ metadata) idx =
      continue (remove_entry id key val idx) (λ _ idx'. remove id metadata idx')
