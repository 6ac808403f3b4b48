-- ===== src/Tests/CollectionsTests.antt =====
-- The theorems on collections, over a storage that is a map from buckets and objects to bytes.
use coltt.Prelude.{
  ◌==◌, arith, length, min, ℕ, ◌≡◌, refl, ◌≢◌, true, false, ◌&&◌, some, none, List, [], ◌∷◌, All,
  if◌then◌else◌, ◌⊎◌, Bool-cases, inl, inr,
}
use coltt.Prelude.Bytes.{Bytes, bytes_eq, bytes_eq_refl, eq_of_bytes_eq}
use coltt.Prelude.Dict
use coltt.Prelude.Dict.{Dict, bytes_key, nat_key}
use coltt.Prelude.Int.{pos}
use coltt.Prelude.Outcome.{Outcome, ok, err, panic, unsupported_quantization}
use coltt.Inverted.Value.{value_eq, identity, int}
use coltt.Inverted.Index
use coltt.Inverted.Index.{Metadata}
use coltt.Prelude.Binary.{le}
use coltt.Edge.Sharding.{shard_vertex}
use coltt.Edge.Query.{unset}
use coltt.Edge.Space.{stored_vector, normalized, new_none_vectorstore, commit_vertex, store_node}
use coltt.Edge.Space.Files.Restored.{Restores}
use coltt.Edge.Space.Files.{save_vertex_metadata, save_vertex_inverted}
use coltt.Edge.Space.Save.{
  save_vertex, save_shards, save_nodes, save_node, save_metadata, save_value, write_text,
}
use coltt.Inverted.Codec.{serialize_binary}
use coltt.Edge.Storage.{Storage, Durable}
use coltt.Edge.Vectorstore.{create_space}
use coltt.Edge.Collections.{
  EdgeState, has_collection, already_load_collection, ◌>>=◌, modifies, on_storage, on_spaces, reads,
  pure,
}
use coltt.Edge.Collections.Handlers.{
  Collection, create_collection, release_collection, load_collection, get_collection, flush,
  after_creation, creation_steps, set_versioning,
}
use coltt.Edge.Collections.Vertices.{IndexChange, SearchIndex, index, search}
use coltt.Edge.Collections.Loaded.{Loaded}
use coltt.Edge.Collections.Requests.{
  Request, creates, changes, releases, loads, searches, all_handled, all_handled-Loaded, handled,
  get_collection-all_handled,
}
use coltt.Edge.Collections.Phases.{phase, Allowed}
use coltt.Edge.Collections.Refines.Moves.{handled-Allowed}
use coltt.Edge.Collections.Replies.{Gone, refusal, create_collection-undone, refused-unloaded}
use coltt.Edge.Collections.Stored.{Objects}
use coltt.Edge.Collections.Close.{close}
use coltt.Edge.Collections.Close.Kept.{Stores, SavesAnyway, close-Stores}
use coltt.Edge.Spaces.{quantization_for, Quantizers, AnySpace, any_space, quantization_for}
use coltt.Edge.Collections.Candidates.{Candidate}
use coltt.Edge.Spaces.Page.{vertices_of, length-search}
use coltt.Edge.Spaces.Durability.{Whole, load_collection-Restores}
use coltt.Edge.Spaces.Unindexed.{create_collection-bf16}
use coltt.Tests.Instances.{
  list_roaring, test_floats, insertion_sort, plain_vectors, one_design, design,
}
use coltt.Tests.SaveTests.{key, one, with_seven, with_seven-Storable}

abbrev Buckets : Type 0
Buckets = Bytes → Bytes → Bytes

abbrev written : Bytes → Bytes → Bytes → Buckets → Buckets
written bucket object bytes s away other =
    if bytes_eq bucket away && bytes_eq object other then bytes else s away other

instance abbrev buckets : Storage Buckets
buckets = record {
  load_bucket_list = λ s. ok [];
  create_bucket = λ name s. (ok tt, s);
  versioning = λ name s. (ok tt, s);
  remove_bucket = λ name s. (ok tt, s);
  is_version_bucket = λ name s. ok false;
  version_clean_up = λ name s. (ok tt, s);
  put_object = λ bucket object bytes s. (ok tt, written bucket object bytes s);
  get_object = λ bucket object s. ok (s bucket object);
}

differs : (s t : Bytes) → s ≢ t → bytes_eq s t ≡ false
differs s t h = elim (Bool-cases (bytes_eq s t)) [
  | inl e ↦ absurd (h (eq_of_bytes_eq s t e))
  | inr e ↦ e
]

abbrev kept : Durable buckets
kept = record {
  Available = λ s. Unit;
  put-ok = λ b o x s h. refl;
  put-Available = λ b o x s h. tt;
  get-put = λ b o x s h. rw (bytes_eq_refl b, bytes_eq_refl o) refl;
  get-put_other = λ b o other x s h d. rw (bytes_eq_refl b, differs o other d) refl;
  get-put_away = λ b o x away other s h d. rw (differs b away d) refl;
}

instance abbrev same_bits : Quantizers
same_bits = record {
  f8_fromfloat32 = λ x. x;
  fromfloat32 = λ x. x;
  bf16_fromfloat32 = λ x. x;
  similarity = λ q. record { comparable = λ x y. length x == length y; score = λ x y kind. 0 };
}

abbrev State : Type 0
State = EdgeState (AnySpace (List ℕ)) Buckets

abbrev blank : State
blank = record { exists = []; load = []; spaces = []; storage = λ bucket object. [] }

abbrev asked : ℕ → Collection
asked q = record {
  collection_name = key;
  index =
      record { index_name = key; index_type = 1; enable_null = false; primary_key = false } ∷ [];
  distance = 1;
  quantization = q;
  dim = 1;
  versioning = false;
}

abbrev change : IndexChange
change = record {
  collection_name = key;
  primary_key = [];
  metadata = one;
  vectors = 0 ∷ [];
  changed = 0;
  commit_id = 7;
}

abbrev query : SearchIndex
query = record {
  collection_name = key;
  vector = 0 ∷ [];
  offset = 0;
  limit = 3;
  filter_expression = unset;
  high_resource_avaliable = false;
}

abbrev requests : List Request
requests = creates (asked 0) ∷ changes change ∷ releases key ∷ loads key ∷ searches query ∷ []

all_handled-Loaded_example : Loaded (all_handled ok requests blank)
all_handled-Loaded_example = all_handled-Loaded ok requests blank refl

get_collection-all_handled_example :
    ¬ ((get_collection key (all_handled ok requests blank)).0 ≡ panic)
get_collection-all_handled_example = get_collection-all_handled ok requests blank key refl

create_collection-bf16_example : ¬ ((create_collection (asked 3) blank).0 ≡ ok (asked 3))
create_collection-bf16_example = create_collection-bf16 (asked 3) (asked 3) blank refl

refused-unloaded_example :
    (index change blank ≡ (err (refusal key blank), blank))
    × (search ok query blank ≡ (err (refusal key blank), blank))
    × (flush key blank ≡ (err (refusal key blank), blank))
unfolding has_collection already_load_collection Dict.lookup
refused-unloaded_example = refused-unloaded ok change query key blank refl refl refl

create_collection-undone_example :
    ((has_collection key blank ≡ true) × ((create_collection (asked 9) blank).1 ≡ blank))
    ⊎ Gone key (create_collection (asked 9) blank).1
unfolding create_collection has_collection already_load_collection Dict.lookup after_creation
    creation_steps set_versioning create_space ◌>>=◌ modifies on_storage on_spaces reads pure
create_collection-undone_example =
    create_collection-undone (asked 9) blank unsupported_quantization refl

abbrev whole : AnySpace (List ℕ)
whole = record { quantization = 0; has_index = true; has_locks = true; space = with_seven }

abbrev loaded_state : AnySpace (List ℕ) → State
loaded_state any = record {
  exists = (key, true) ∷ [];
  load = (key, true) ∷ [];
  spaces = (key, any) ∷ [];
  storage = λ bucket object. [];
}

whole-Whole : Whole whole
unfolding commit_vertex Index.add Index.add_entry Dict.lookup Index.get_shard new_none_vectorstore
    Dict.insert value_eq bytes_eq identity store_node quantization_for
whole-Whole = record {
  has_index = refl;
  has_locks = refl;
  same = refl;
  known = refl;
  storable = with_seven-Storable;
}

load_collection-Restores_example :
    (released : State) × (any' : AnySpace (List ℕ)) × (release_collection key (loaded_state whole)
      ≡ (ok tt, released))
    × (Dict.lookup key released.spaces ≡ none)
    × (already_load_collection key (load_collection key released).1 ≡ true)
    × (Dict.lookup key (load_collection key released).1.spaces ≡ some any')
    × (any'.quantization ≡ 0)
    × Restores key with_seven any'.space
unfolding has_collection already_load_collection Dict.lookup bytes_eq
load_collection-Restores_example =
    load_collection-Restores kept key whole (loaded_state whole) refl refl refl whole-Whole tt

-- A space with a metadata value of the type int, which SaveVertex refuses.
abbrev refused : AnySpace (List ℕ)
refused = record {
  quantization = 0;
  has_index = true;
  has_locks = true;
  space = record (new_none_vectorstore key design) {
    vertices = ((7, record { vector = 0 ∷ []; metadata = (key, int (pos 1)) ∷ [] }) ∷ []) ∷ [];
  };
}

abbrev bytes_in : Outcome Bytes → Bytes
bytes_in (ok bytes) = bytes
bytes_in r = []

abbrev closed : Bytes → Objects
closed name = record {
  metadata = b'{' ∷ b'}' ∷ [];
  vertices = [];
  inverted = bytes_in (any_space.save_vertex_inverted refused);
}

refused_made : SavesAnyway refused (closed key)
unfolding new_none_vectorstore save_vertex_metadata save_vertex save_shards save_nodes save_node
    save_metadata save_value write_text save_vertex_inverted serialize_binary
refused_made = record { metadata_made = refl; vertices_made = refl; inverted_made = refl }

close-Stores_example :
    (x : Buckets) × (close (loaded_state refused)
      ≡ (ok tt, record (loaded_state refused) { storage = x }))
    × All (Stores closed x) ((key, true) ∷ [])
unfolding Dict.lookup bytes_eq
close-Stores_example =
    close-Stores kept closed (loaded_state refused) tt ((λ e. (refused, refl, refused_made)), tt)

handled-Allowed_example :
    Allowed (creates (asked 0)) (phase key blank) (phase key (handled ok (creates (asked 0)) blank))
    × (phase [] (handled ok (creates (asked 0)) blank) ≡ phase [] blank)
unfolding bytes_eq
handled-Allowed_example = handled-Allowed ok (creates (asked 0)) [] blank refl

abbrev second_page : SearchIndex
second_page = record query { offset = 2 }

length-search_example :
    (cs : List Candidate) × ((search ok second_page (loaded_state whole)).0 ≡ ok cs)
    × (length cs ≡ min 5 (length (vertices_of whole)))
unfolding has_collection already_load_collection Dict.lookup bytes_eq commit_vertex Index.add
    Index.add_entry Index.get_shard new_none_vectorstore Dict.insert value_eq identity store_node
    shard_vertex le stored_vector normalized quantization_for
length-search_example =
    length-search ok second_page whole (loaded_state whole) refl refl refl refl refl refl
      (omega arith) refl refl refl
