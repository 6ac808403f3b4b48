-- ===== src/Edge/Spaces.antt =====
-- The four spaces of package edge behind the interface of edge/vectorstore.go:
-- edge/none_vectorstore.go, edge/f8_vectorstore.go, edge/f16_vectorstore.go and
-- edge/bf16_vectorstore.go. They differ in the quantization of the stored vectors, in the mode with
-- goroutines of FilterableVertexSearch, and in one constructor. A space that FillEmpty makes has no
-- index and no locks until the files are loaded; a call that needs what is missing panics. A
-- target of a search has the length of the stored vectors.
pub mod Unindexed
pub mod Durability
pub mod Page
use coltt.Prelude.{ℕ, Bool, true, false, not, ◌&&◌, List, [], map, replicate, ◌==◌, if◌then◌else◌}
use coltt.Prelude.Bytes.{Bytes}
use coltt.Prelude.Int.{ℤ}
use coltt.Prelude.Float.{Floats}
use coltt.Prelude.Outcome.{Outcome, ok, err, panic}
use coltt.Inverted.Filter.{FilterExpression}
use coltt.Inverted.Roaring.{Roaring}
use coltt.Inverted.Index.{Metadata, new_bitmap_index}
use coltt.Edge.Queue.{SearchResultItem, Sorter}
use coltt.Edge.Space.{
  Vector, ENode, DistanceSpace, cosine, Quantization, no_quantization, NoneVecSpace, SpaceMetadata,
  new_none_vectorstore, changed_vertex, remove_vertex, edge_map_shard_count,
}
use coltt.Edge.Space.Search.{Similarity, vertex_search, filterable_vertex_search}
use coltt.Edge.Space.Save.{save_vertex, load_vertex}
use coltt.Edge.Space.Files.{
  save_vertex_metadata, load_vertex_metadata, save_vertex_inverted, load_vertex_inverted,
}
use coltt.Edge.Storage.{Json}
use coltt.Edge.Vectorstore.{Vectorspace}

-- The conversions of pkg/compresshelper, on bit patterns, and the Similarity of each quantization
-- by its number in edgepb.Quantization.
pub record Quantizers : Type 0 where
  pub f8_fromfloat32 : ℕ → ℕ
  pub fromfloat32 : ℕ → ℕ
  pub bf16_fromfloat32 : ℕ → ℕ
  pub similarity : ℕ → Similarity

module _ ⦃quantizers : Quantizers⦄ where
  abbrev pub float8_quantization : Quantization
  float8_quantization = record { lower = map quantizers.f8_fromfloat32; element_width = 1 }

  abbrev pub float16_quantization : Quantization
  float16_quantization = record { lower = map quantizers.fromfloat32; element_width = 2 }

  abbrev pub bfloat16_quantization : Quantization
  bfloat16_quantization = record { lower = map quantizers.bf16_fromfloat32; element_width = 2 }

  -- F16 is 1, F8 is 2 and BF16 is 3
  unfoldable pub quantization_for : ℕ → Quantization
  quantization_for q =
      if q == 1
      then float16_quantization
      else if q == 2
      then float8_quantization
      else if q == 3
      then bfloat16_quantization
      else no_quantization

pub record AnySpace (B : Type 0) : Type 0 where
  pub quantization : ℕ
  pub has_index : Bool
  pub has_locks : Bool
  pub space : NoneVecSpace B

abbrev nothing : SpaceMetadata
nothing = record { dim = 0; distance = 0; quantization = 0; index_type = []; versioning = false }

module _ {B : Type 0} where
  -- newBF16Vectorstore makes no index
  unfoldable pub new_vectorstore : ℕ → Bytes → SpaceMetadata → AnySpace B
  new_vectorstore q collection_name metadata = record {
    quantization = q;
    has_index = not (q == 3);
    has_locks = true;
    space = new_none_vectorstore collection_name metadata;
  }

  -- &noneVecSpace{} and the like; a nil map is read as an empty one
  unfoldable pub empty_space : ℕ → AnySpace B
  empty_space q = record {
    quantization = q;
    has_index = false;
    has_locks = false;
    space = record {
      vertex_metadata = nothing;
      collection_name = [];
      size = 0;
      vertices = replicate edge_map_shard_count [];
      distance = cosine;
      inverted_index = new_bitmap_index;
    };
  }

  module _ {A : Type 0} where
    -- a call of the space itself
    unfoldable pub within :
        (NoneVecSpace B → Outcome A × NoneVecSpace B) → AnySpace B → Outcome A × AnySpace B
    within call any = let (r, space) = call any.space in (r, record any { space = space })

    -- a call that needs the index and the locks
    unfoldable pub when_made :
        (NoneVecSpace B → Outcome A × NoneVecSpace B) → AnySpace B → Outcome A × AnySpace B
    when_made call any = if any.has_index && any.has_locks then within call any else (panic, any)

    abbrev locked : (AnySpace B → Outcome A) → AnySpace B → Outcome A
    locked call any = if any.has_locks then call any else panic

  abbrev loaded_locks : Outcome (Unit {0}) × AnySpace B → Outcome (Unit {0}) × AnySpace B
  loaded_locks (ok u, any) = (ok u, record any { has_locks = true })
  loaded_locks (err e, any) = (err e, any)
  loaded_locks (panic, any) = (panic, any)

  module _ ⦃floats : Floats⦄ ⦃roaring : Roaring B⦄ ⦃sorter : Sorter⦄ ⦃quantizers : Quantizers⦄
      ⦃json : Json⦄ where
    abbrev any_changed : Bytes → ℕ → ENode → AnySpace B → Outcome (Unit {0}) × AnySpace B
    any_changed update_id commit_id node any =
        when_made
          (changed_vertex ⦃quantization = quantization_for any.quantization⦄ update_id commit_id
            node)
          any

    abbrev any_removed : Metadata → AnySpace B → Outcome (Unit {0}) × AnySpace B
    any_removed drop_filter any =
        when_made (remove_vertex ⦃quantization = quantization_for any.quantization⦄ drop_filter) any

    abbrev any_searched :
        Vector → ℤ → Bool → AnySpace B → Outcome (List SearchResultItem) × AnySpace B
    any_searched target top_k high_cpu any = (
      locked
          (λ a.
            vertex_search (quantizers.similarity a.quantization)
              ⦃quantization = quantization_for a.quantization⦄ target top_k high_cpu a.space)
          any,
      any,
    )

    -- Where vectors are quantized, the goroutines add straight to the queue of the search, and the
    -- queues of the shards stay empty; the goroutines run here one after another.
    abbrev any_filtered :
        FilterExpression
        → Vector
        → ℤ
        → Bool
        → AnySpace B
        → Outcome (List SearchResultItem) × AnySpace B
    any_filtered filter target top_k high_cpu any =
        when_made
          (filterable_vertex_search (quantizers.similarity any.quantization)
            ⦃quantization = quantization_for any.quantization⦄ filter target top_k
            (if any.quantization == 0 then high_cpu else false))
          any

    abbrev any_saved_inverted : AnySpace B → Outcome Bytes
    any_saved_inverted any = if any.has_index then save_vertex_inverted any.space else panic

    -- The index is new before the bytes are read.
    abbrev any_loaded_inverted : Bytes → AnySpace B → Outcome (Unit {0}) × AnySpace B
    any_loaded_inverted bytes any =
        within (load_vertex_inverted bytes) (record any { has_index = true })

    abbrev any_saved : AnySpace B → Outcome Bytes
    any_saved = locked (λ a. save_vertex ⦃quantization = quantization_for a.quantization⦄ a.space)

    abbrev any_loaded : Bytes → AnySpace B → Outcome (Unit {0}) × AnySpace B
    any_loaded bytes any =
        loaded_locks
          (within (load_vertex ⦃quantization = quantization_for any.quantization⦄ bytes) any)

    instance abbrev pub any_space : Vectorspace (AnySpace B)
    any_space = record {
      changed_vertex = any_changed;
      remove_vertex = any_removed;
      vertex_search = any_searched;
      filterable_vertex_search = any_filtered;
      save_vertex_metadata = λ any. save_vertex_metadata any.space;
      load_vertex_metadata = λ name bytes. within (load_vertex_metadata name bytes);
      save_vertex_inverted = any_saved_inverted;
      load_vertex_inverted = any_loaded_inverted;
      save_vertex = any_saved;
      load_vertex = any_loaded;
      vertex_metadata = λ any. any.space.vertex_metadata;
      load_size = λ any. any.space.size;
      new_vectorstore = new_vectorstore;
      empty_space = empty_space;
    }
