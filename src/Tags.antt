-- ===== src/Tags.antt =====
-- pkg/index: the bitmap index that package core filters by. Every value is a string here. A call
-- runs alone (its locks are not modelled).
pub mod Held
pub mod Found
pub mod Files
use coltt.Prelude.{ℕ, Bool, Option, none, some, List, [], ◌∷◌, if◌then◌else◌}
use coltt.Prelude.Bytes.{Bytes}
use coltt.Prelude.Dict
use coltt.Prelude.Dict.{Dict, bytes_key}
use coltt.Prelude.Int.{ℤ}
use coltt.Inverted.Value.{Value, null, int, int64, float32, float64, string, bool, composite}
use coltt.Inverted.Roaring.{Roaring}
use coltt.Inverted.Index.{Metadata}

-- strconv.Itoa, FormatInt, FormatFloat and FormatBool, and fmt.Sprintf("%v", _)
pub record Formats : Type 0 where
  pub itoa : ℤ → Bytes
  pub format_int : ℤ → Bytes
  pub format_float : ℕ → Bytes
  pub format_bool : Bool → Bytes
  pub sprintf : Value → Bytes

module _ ⦃formats : Formats⦄ where
  unfoldable pub forced_string_type_changer : Value → Bytes
  forced_string_type_changer (string s) = s
  forced_string_type_changer (int z) = formats.itoa z
  forced_string_type_changer (int64 z) = formats.format_int z
  forced_string_type_changer (float64 x) = formats.format_float x
  forced_string_type_changer (bool b) = formats.format_bool b
  forced_string_type_changer x = formats.sprintf x

-- the bitmaps of the values of each key
pub record TagIndex (B : Type 0) : Type 0 where
  pub shards : Dict Bytes (Dict Bytes B)

module _ {B : Type 0} where
  abbrev pub new_tag_index : TagIndex B
  new_tag_index = record { shards = [] }

  unfoldable pub put_tags : Bytes → Dict Bytes B → TagIndex B → TagIndex B
  put_tags key m idx = record { shards = Dict.insert key m idx.shards }

  get_tags_or_new : Bytes → Option (Dict Bytes B) → TagIndex B → Dict Bytes B × TagIndex B
  get_tags_or_new key (some m) idx = (m, idx)
  get_tags_or_new key none idx = ([], put_tags key [] idx)

  -- getShard: made where it is missing
  unfoldable pub get_tags : Bytes → TagIndex B → Dict Bytes B × TagIndex B
  unfolding get_tags_or_new put_tags
  get_tags key idx = get_tags_or_new key (Dict.lookup key idx.shards) idx

  -- a shard with no value left is deleted
  keep_tags : Bytes → Dict Bytes B → TagIndex B → TagIndex B
  keep_tags key [] idx = record { shards = Dict.remove key idx.shards }
  keep_tags key (e ∷ m) idx = put_tags key (e ∷ m) idx

module _ {B : Type 0} ⦃roaring : Roaring B⦄ where
  -- a new bitmap where there is none, and the id into it
  add_to_value : ℕ → Bytes → Option B → Dict Bytes B → Dict Bytes B
  add_to_value id val none m = Dict.insert val (roaring.add id roaring.new) m
  add_to_value id val (some bm) m = Dict.modify val (roaring.add id bm) m

  unfoldable pub add_tag : ℕ → Bytes → Bytes → TagIndex B → TagIndex B
  unfolding add_to_value
  add_tag id key val idx =
      let (m, idx') = get_tags key idx in
      put_tags key (add_to_value id val (Dict.lookup val m) m) idx'

  remove_from_value : ℕ → Bytes → Option B → Dict Bytes B → Dict Bytes B
  remove_from_value id val none m = m
  remove_from_value id val (some bm) m =
      if roaring.is_empty (roaring.remove id bm)
      then Dict.remove val m
      else Dict.modify val (roaring.remove id bm) m

  unfoldable pub remove_tag : ℕ → Bytes → Bytes → TagIndex B → TagIndex B
  unfolding remove_from_value keep_tags
  remove_tag id key val idx =
      let (m, idx') = get_tags key idx in
      keep_tags key (remove_from_value id val (Dict.lookup val m) m) idx'

  module _ ⦃formats : Formats⦄ where
    unfoldable pub add_node : ℕ → Metadata → TagIndex B → TagIndex B
    add_node id [] idx = idx
    add_node id ((key, val) ∷ metadata) idx =
        add_node id metadata (add_tag id key (forced_string_type_changer val) idx)

    unfoldable pub remove_node : ℕ → Metadata → TagIndex B → TagIndex B
    remove_node id [] idx = idx
    remove_node id ((key, val) ∷ metadata) idx =
        remove_node id metadata (remove_tag id key (forced_string_type_changer val) idx)

  -- the loop over the filter, from a bitmap on; nothing where a value has no bitmap
  unfoldable pub and_tags : Dict Bytes Bytes → B → TagIndex B → Option B × TagIndex B
  and_tags [] r idx = (some r, idx)
  and_tags ((key, value) ∷ filter) r idx =
      let (m, idx') = get_tags key idx in
      elim (Dict.lookup value m) [
        | none ↦ (none, idx')
        | some bm ↦ and_tags filter (roaring.and r bm) idx'
      ]

  abbrev pub ids_of : Option B × TagIndex B → List ℕ × TagIndex B
  ids_of (none, idx) = ([], idx)
  ids_of (some bm, idx) = (roaring.to_array bm, idx)

  -- AddMany
  add_many : List ℕ → B → B
  add_many [] b = b
  add_many (id ∷ ids) b = add_many ids (roaring.add id b)

  unfoldable pub search_wit_candidates :
      List ℕ → Dict Bytes Bytes → TagIndex B → List ℕ × TagIndex B
  unfolding add_many
  search_wit_candidates ids [] idx = (ids, idx)
  search_wit_candidates ids (e ∷ filter) idx =
      ids_of (and_tags (e ∷ filter) (add_many ids roaring.new) idx)

  -- the first round clones the bitmap
  unfoldable pub pure_search : Dict Bytes Bytes → TagIndex B → List ℕ × TagIndex B
  pure_search [] idx = ([], idx)
  pure_search ((key, value) ∷ filter) idx =
      let (m, idx') = get_tags key idx in
      elim (Dict.lookup value m) [ none ↦ ([], idx') | some bm ↦ ids_of (and_tags filter bm idx') ]
