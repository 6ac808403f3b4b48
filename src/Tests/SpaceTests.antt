-- ===== src/Tests/SpaceTests.antt =====
-- The theorems on the package edge at concrete inputs.
use coltt.Prelude.{
  Option, ap, sym, ◌∙◌, Bool-cases, inl, inr, length, ◌≤◌, some, ℕ, ◌≡◌, refl, true, false, any,
  List, [], ◌∷◌, All, if◌then◌else◌, ◌==◌, none,
}
use coltt.Prelude.Bytes.{Bytes, bytes_eq}
use coltt.Prelude.Dict
use coltt.Prelude.Dict.{Dict, bytes_key, nat_key}
use coltt.Prelude.Count.{count}
use coltt.Prelude.Int.{pos}
use coltt.Prelude.Outcome.{ok}
use coltt.Prelude.Binary.{le}
use coltt.Inverted.Value.{value_eq, identity, int64}
use coltt.Inverted.Filter.{op_equal, FilterExpression, single}
use coltt.Inverted.Index
use coltt.Inverted.Index.{BitmapIndex, Metadata}
use coltt.Inverted.Index.Postings.{bitmaps, posted, tags}
use coltt.Inverted.Search.Meaning.{meets, answers}
use coltt.Edge.Analyzer.{
  IndexFeature, standard_analyzer, drop_key_analyzer, analyze_column, column_value, check_value,
  check_type, check_integer, check_drop_value,
}
use coltt.Edge.Analyzer.Typed.{conforms, ok_inj, standard_analyzer-conforms}
use coltt.Edge.Queue.{SearchResultItem, Ascending}
use coltt.Edge.Queue.Selection.{Selects}
use coltt.Edge.Sharding.{shard_vertex}
use coltt.Edge.Space.{
  changed_vertex, ENode, NoneVecSpace, SpaceMetadata, new_none_vectorstore, node_at, store_node,
  commit_vertex, remove_vertex, stored_vector, normalized,
}
use coltt.Edge.Space.Sync.{
  node_at-commit_vertex, InSync, commit_vertex-InSync, commit_vertex-stale,
  new_none_vectorstore-InSync, node_at-new,
}
use coltt.Edge.Space.Changed.{changed_vertex-InSync}
use coltt.Edge.Space.Reachable.{CanBeKeys, created, inserted, removed, Reachable-InSync}
use coltt.Edge.Space.Drop.{has_all, remove_vertex-exact}
use coltt.Edge.Space.Search.{Similarity, vertex_search, filterable_vertex_search}
use coltt.Edge.Space.Search.Highest.{vertex_hits, vertex_search-highest}
use coltt.Edge.Space.Search.Filtered.{found_items, filterable_vertex_search-highest}
use coltt.Tests.Instances.{list_roaring, test_floats, insertion_sort, plain_vectors}

abbrev key : Bytes
key = b'k' ∷ []

abbrev one : Metadata
one = (key, int64 (pos 1)) ∷ []

abbrev column : IndexFeature
column = record { index_name = key; index_type = 1; enable_null = false; primary_key = false }

abbrev columns : Dict Bytes IndexFeature
columns = (key, column) ∷ []

standard_analyzer-conforms_example :
    All (λ e. conforms e.1 (Dict.lookup e.1.index_name one) ≡ true) columns
unfolding standard_analyzer analyze_column column_value check_value check_type check_integer
    Dict.lookup bytes_eq
standard_analyzer-conforms_example = standard_analyzer-conforms columns one one (tt, tt) refl

abbrev design : SpaceMetadata
design = record {
  dim = 1;
  distance = 1;
  quantization = 0;
  index_type = columns;
  versioning = false;
}

abbrev empty_space : NoneVecSpace (List ℕ)
empty_space = new_none_vectorstore key design

abbrev empty_space-InSync : InSync empty_space
empty_space-InSync = new_none_vectorstore-InSync key design

abbrev with_seven : NoneVecSpace (List ℕ)
with_seven = (commit_vertex 7 (0 ∷ []) one empty_space).1

abbrev fresh : node_at empty_space 7 ≡ none
fresh = node_at-new (List ℕ) key design 7

abbrev with_seven-InSync : InSync with_seven
with_seven-InSync =
    (commit_vertex-InSync 7 (0 ∷ []) one empty_space refl empty_space-InSync fresh).1

-- Stored anew under another value, the vertex is still posted under the first.
abbrev two : Metadata
two = (key, int64 (pos 2)) ∷ []

commit_vertex-stale_example :
    ((commit_vertex 7 (0 ∷ []) two with_seven).0 ≡ ok tt)
    × (node_at (commit_vertex 7 (0 ∷ []) two with_seven).1 7
        ≡ some (record { vector = stored_vector with_seven.distance (0 ∷ []); metadata = two }))
    × (posted (commit_vertex 7 (0 ∷ []) two with_seven).1.inverted_index key (int64 (pos 1)) 7
        ≡ true)
    × ¬ InSync (commit_vertex 7 (0 ∷ []) two with_seven).1
unfolding node_at Dict.lookup commit_vertex Index.add Index.add_entry Index.get_shard
    new_none_vectorstore Dict.insert value_eq bytes_eq identity store_node shard_vertex le
    stored_vector normalized tags
commit_vertex-stale_example =
    commit_vertex-stale 7 (0 ∷ []) two with_seven refl with_seven-InSync
      (record { vector = 0 ∷ []; metadata = one }) key (int64 (pos 1)) refl refl refl

remove_vertex-exact_example :
    (vertex' : NoneVecSpace (List ℕ)) × (remove_vertex one with_seven ≡ (ok tt, vertex'))
    × InSync vertex'
    × ((id : ℕ)
        → node_at vertex' id ≡ (if has_all with_seven one id then none else node_at with_seven id))
unfolding drop_key_analyzer check_drop_value Dict.lookup commit_vertex Index.add Index.add_entry
    Index.get_shard new_none_vectorstore Dict.insert value_eq bytes_eq identity store_node
remove_vertex-exact_example =
    remove_vertex-exact key (int64 (pos 1)) [] with_seven with_seven-InSync refl refl

-- Vectors of one length can be compared, and every similarity is 0.
abbrev same_score : Similarity
same_score = record { comparable = λ x y. length x == length y; score = λ x y kind. 0 }

vertex_search-highest_example :
    (kept : List SearchResultItem) × (vertex_search same_score (0 ∷ []) (pos 3) true with_seven
      ≡ ok kept)
    × Selects 3 (vertex_hits same_score (0 ∷ []) with_seven) kept
    × Ascending kept
unfolding commit_vertex Index.add Index.add_entry Dict.lookup Index.get_shard new_none_vectorstore
    Dict.insert value_eq bytes_eq identity store_node shard_vertex le stored_vector normalized
vertex_search-highest_example =
    vertex_search-highest same_score (0 ∷ []) 3 true with_seven refl refl refl

abbrev is_one : FilterExpression
is_one = single (record { index_name = key; op = op_equal; value = int64 (pos 1) })

abbrev elements_of : Option ENode → ℕ
elements_of none = 1
elements_of (some node) = length node.vector

one_element : (uid : ℕ) → elements_of (node_at with_seven uid) ≡ 1
unfolding stored_vector normalized new_none_vectorstore
one_element uid =
    let at = node_at-commit_vertex 7 (0 ∷ []) one empty_space refl empty_space-InSync uid in
    elim (Bool-cases (7 == uid)) [
      | inl seventh ↦ ap elements_of at ∙ rw seventh refl
      | inr other ↦ ap elements_of at ∙ rw (other, node_at-new (List ℕ) key design uid) refl
    ]

target_elements : length (stored_vector with_seven.distance (0 ∷ [])) ≡ 1
unfolding stored_vector normalized commit_vertex Index.add Index.add_entry Dict.lookup
    Index.get_shard new_none_vectorstore Dict.insert store_node value_eq bytes_eq identity
target_elements = refl

with_seven_fits :
    (uid : ℕ) (node : ENode)
    → node_at with_seven uid ≡ some node
    → same_score.comparable (stored_vector with_seven.distance (0 ∷ [])) node.vector ≡ true
with_seven_fits uid node e =
    ap (λ n. n == length node.vector) target_elements
    ∙ ap (λ n. 1 == n) (ap elements_of (sym e) ∙ one_element uid)

filterable_vertex_search-highest_example :
    (ids : List ℕ) × (kept : List SearchResultItem) × (idx : BitmapIndex (List ℕ))
    × (filterable_vertex_search same_score is_one (0 ∷ []) (pos 3) true with_seven
        ≡ (ok kept, record with_seven { inverted_index = idx }))
    × ((k : Bytes) → bitmaps k idx ≡ bitmaps k with_seven.inverted_index)
    × ((id : ℕ)
        → any (λ i. i == id) ids ≡ meets (λ k. bitmaps k with_seven.inverted_index) is_one id)
    × ((id : ℕ) → count (λ i. i == id) ids ≤ 1)
    × Selects 3
        (found_items same_score (stored_vector with_seven.distance (0 ∷ [])) with_seven ids)
        kept
    × Ascending kept
unfolding answers
filterable_vertex_search-highest_example =
    filterable_vertex_search-highest same_score is_one (0 ∷ []) 3 true with_seven refl
      (λ uid node e. with_seven_fits uid node e) (λ uid node e. refl)

abbrev seven : ENode
seven = record { vector = 0 ∷ []; metadata = one }

changed_vertex-InSync_example :
    (vertex' : NoneVecSpace (List ℕ)) × (changed_vertex [] 7 seven empty_space ≡ (ok tt, vertex'))
    × InSync vertex'
    × ((j : ℕ)
        → node_at vertex' j ≡ (
            if 7 == j
            then some (record {
              vector = stored_vector empty_space.distance seven.vector;
              metadata = one;
            })
            else node_at empty_space j))
unfolding standard_analyzer analyze_column column_value check_value check_type check_integer
    Dict.lookup bytes_eq new_none_vectorstore
changed_vertex-InSync_example =
    changed_vertex-InSync 7 seven one empty_space empty_space-InSync refl refl refl fresh

seven_keys : CanBeKeys seven empty_space
unfolding standard_analyzer analyze_column column_value check_value check_type check_integer
    Dict.lookup bytes_eq new_none_vectorstore
seven_keys metadata e = rw (ok_inj e)

-- Inserted and removed again.
Reachable-InSync_example : InSync (remove_vertex one (changed_vertex [] 7 seven empty_space).1).1
Reachable-InSync_example =
    Reachable-InSync (remove_vertex one (changed_vertex [] 7 seven empty_space).1).1 (
      removed key (int64 (pos 1)) [] (changed_vertex [] 7 seven empty_space).1
        (inserted 7 seven empty_space (created key design) fresh seven_keys) refl)
