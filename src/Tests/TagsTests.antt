-- ===== src/Tests/TagsTests.antt =====
-- The theorems on pkg/index, over an index of two nodes.
use coltt.Prelude.{refl, ℕ, arith, ◌≡◌, not, ◌&&◌, ◌||◌, List, [], ◌∷◌, any, ◌==◌}
use coltt.Prelude.Bytes.{Bytes, bytes_eq}
use coltt.Prelude.Dict.{Dict, bytes_key}
use coltt.Prelude.Int.{pos}
use coltt.Inverted.Value.{string, int}
use coltt.Inverted.Index.{Metadata}
use coltt.Tags.{
  TagIndex, Formats, new_tag_index, add_tag, get_tags, put_tags, forced_string_type_changer,
  add_node, remove_node, search_wit_candidates, pure_search,
}
use coltt.Tags.Held.{held, written_as, held-add_node, held-remove_node}
use coltt.Prelude.Dict
use coltt.Prelude.Outcome.{ok}
use coltt.Tags.Files.{serialize_tags, deserialize_tags}
use coltt.Tags.Files.RoundTrip.{deserialize_tags-serialize_tags}
use coltt.Tags.Found.{meets_all, SameTags, search_wit_candidates-exact, pure_search-exact}
use coltt.Tests.Instances.{list_roaring}

-- Every number is written as 1.
instance abbrev one_number : Formats
one_number = record {
  itoa = λ z. b'1' ∷ [];
  format_int = λ z. b'1' ∷ [];
  format_float = λ x. b'1' ∷ [];
  format_bool = λ b. b'1' ∷ [];
  sprintf = λ v. b'1' ∷ [];
}

abbrev colour : Bytes
colour = b'c' ∷ []

abbrev red : Bytes
red = b'r' ∷ []

abbrev node : Metadata
node = (colour, string red) ∷ (b'n' ∷ [], int (pos 1)) ∷ []

abbrev two_nodes : TagIndex (List ℕ)
two_nodes = add_node 4 node (add_node 3 node new_tag_index)

abbrev wanted : Dict Bytes Bytes
wanted = (b'n' ∷ [], b'1' ∷ []) ∷ []

held-add_node_example :
    held (add_node 5 node two_nodes) colour red 5
    ≡ ((written_as node colour red && 5 == 5) || held two_nodes colour red 5)
held-add_node_example = held-add_node 5 node two_nodes colour red 5

held-remove_node_example :
    held (remove_node 3 node two_nodes) colour red 4
    ≡ (not (written_as node colour red && 3 == 4) && held two_nodes colour red 4)
held-remove_node_example = held-remove_node 3 node two_nodes colour red 4

search_wit_candidates-exact_example :
    ((id : ℕ)
      → any (λ i. i == id) (search_wit_candidates (4 ∷ 9 ∷ []) wanted two_nodes).0
        ≡ (any (λ i. i == id) (4 ∷ 9 ∷ []) && meets_all two_nodes wanted id))
    × SameTags two_nodes (search_wit_candidates (4 ∷ 9 ∷ []) wanted two_nodes).1
search_wit_candidates-exact_example = search_wit_candidates-exact (4 ∷ 9 ∷ []) wanted two_nodes

pure_search-exact_example :
    ((id : ℕ)
      → any (λ i. i == id) (pure_search ((colour, red) ∷ wanted) two_nodes).0
        ≡ meets_all two_nodes ((colour, red) ∷ wanted) id)
    × SameTags two_nodes (pure_search ((colour, red) ∷ wanted) two_nodes).1
pure_search-exact_example = pure_search-exact colour red wanted two_nodes

deserialize_tags-serialize_tags_example :
    (idx' : TagIndex (List ℕ)) × (deserialize_tags (serialize_tags two_nodes) new_tag_index
      ≡ (ok tt, idx'))
    × ((k v : Bytes) (j : ℕ) → held idx' k v j ≡ held two_nodes k v j)
unfolding add_node add_tag get_tags put_tags forced_string_type_changer Dict.lookup Dict.insert
    Dict.modify bytes_eq
deserialize_tags-serialize_tags_example =
    deserialize_tags-serialize_tags two_nodes
      (
        omega arith,
        omega arith,
        (omega arith, omega arith, tt),
        (omega arith, omega arith, (omega arith, omega arith, tt), tt),
      )
      (refl, (refl, tt), (refl, (refl, tt), tt)) (omega arith)
