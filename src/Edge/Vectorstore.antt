-- ===== src/Edge/Vectorstore.antt =====
-- edge/vectorstore.go: the interface of a vector space, and the registry of spaces by the names of
-- their collections. A method of a name that is not registered is a call on a nil interface.
use coltt.Prelude.{ℕ, Bool, Option, none, some, List, if◌then◌else◌, ◌==◌, ◌||◌}
use coltt.Prelude.Bytes.{Bytes}
use coltt.Prelude.Dict
use coltt.Prelude.Dict.{Dict, bytes_key}
use coltt.Prelude.Int.{ℤ}
use coltt.Prelude.Outcome.{Outcome, ok, err, panic, collection_exists, unsupported_quantization}
use coltt.Inverted.Filter.{FilterExpression}
use coltt.Inverted.Index.{Metadata}
use coltt.Edge.Queue.{SearchResultItem}
use coltt.Edge.Space.{Vector, ENode, SpaceMetadata}

-- vectorspace: what the registry calls of a space, and how it makes one. Quantization, Distance,
-- Dim, Indexer and Versional read the metadata.
pub record Vectorspace (V : Type 0) : Type 0 where
  pub changed_vertex : Bytes → ℕ → ENode → V → Outcome (Unit {0}) × V
  pub remove_vertex : Metadata → V → Outcome (Unit {0}) × V
  pub vertex_search : Vector → ℤ → Bool → V → Outcome (List SearchResultItem) × V
  pub filterable_vertex_search :
      FilterExpression → Vector → ℤ → Bool → V → Outcome (List SearchResultItem) × V
  pub save_vertex_metadata : V → Outcome Bytes
  pub load_vertex_metadata : Bytes → Bytes → V → Outcome (Unit {0}) × V
  pub save_vertex_inverted : V → Outcome Bytes
  pub load_vertex_inverted : Bytes → V → Outcome (Unit {0}) × V
  pub save_vertex : V → Outcome Bytes
  pub load_vertex : Bytes → V → Outcome (Unit {0}) × V
  pub vertex_metadata : V → SpaceMetadata
  pub load_size : V → ℕ
  -- newF8Vectorstore and the like, and the empty structs of FillEmpty, by edgepb.Quantization
  pub new_vectorstore : ℕ → Bytes → SpaceMetadata → V
  pub empty_space : ℕ → V

-- F8, F16, BF16 and None
abbrev pub known_quantization : ℕ → Bool
known_quantization q = q == 0 || q == 1 || q == 2 || q == 3

module _ {V : Type 0} where
  -- vs.Space[collectionName].Method(...), which may change the space
  unfoldable pub on_entry :
      {A : Type 0}
      → Bytes
      → (V → Outcome A × V)
      → Option V
      → Dict Bytes V
      → Outcome A × Dict Bytes V
  on_entry collection_name method none spaces = (panic, spaces)
  on_entry collection_name method (some space) spaces =
      let (r, space') = method space in (r, Dict.modify collection_name space' spaces)

  unfoldable pub on_space :
      {A : Type 0} → Bytes → (V → Outcome A × V) → Dict Bytes V → Outcome A × Dict Bytes V
  unfolding on_entry
  on_space collection_name method spaces =
      on_entry collection_name method (Dict.lookup collection_name spaces) spaces

  -- the same for a method that reads
  unfoldable pub read_space : {A : Type 0} → Bytes → (V → Outcome A) → Dict Bytes V → Outcome A
  read_space collection_name method spaces = elim (Dict.lookup collection_name spaces) [
    | none ↦ panic
    | some space ↦ method space
  ]

  unfoldable pub destroy_space : Bytes → Dict Bytes V → Dict Bytes V
  destroy_space collection_name spaces = Dict.remove collection_name spaces

module _ {V : Type 0} ⦃vectorspace : Vectorspace V⦄ where
  unfoldable pub create_space :
      Bytes → SpaceMetadata → Dict Bytes V → Outcome (Unit {0}) × Dict Bytes V
  create_space collection_name metadata spaces = elim (Dict.lookup collection_name spaces) [
    | some space ↦ (err collection_exists, spaces)
    | none ↦
        if known_quantization metadata.quantization
        then (
          ok tt,
          Dict.insert collection_name
              (vectorspace.new_vectorstore metadata.quantization collection_name metadata) spaces,
        )
        else (err unsupported_quantization, spaces)
  ]

  -- A quantization that is not known leaves the registry.
  unfoldable pub fill_empty : Bytes → ℕ → Dict Bytes V → Dict Bytes V
  fill_empty collection_name quantization spaces =
      if known_quantization quantization
      then Dict.insert collection_name (vectorspace.empty_space quantization) spaces
      else spaces

  abbrev pub saved_metadata : Bytes → Dict Bytes V → Outcome Bytes
  saved_metadata collection_name = read_space collection_name vectorspace.save_vertex_metadata

  abbrev pub saved_vertex : Bytes → Dict Bytes V → Outcome Bytes
  saved_vertex collection_name = read_space collection_name vectorspace.save_vertex

  abbrev pub saved_inverted : Bytes → Dict Bytes V → Outcome Bytes
  saved_inverted collection_name = read_space collection_name vectorspace.save_vertex_inverted

  abbrev pub loaded_metadata : Bytes → Bytes → Dict Bytes V → Outcome (Unit {0}) × Dict Bytes V
  loaded_metadata collection_name bytes =
      on_space collection_name (vectorspace.load_vertex_metadata collection_name bytes)

  abbrev pub loaded_vertex : Bytes → Bytes → Dict Bytes V → Outcome (Unit {0}) × Dict Bytes V
  loaded_vertex collection_name bytes = on_space collection_name (vectorspace.load_vertex bytes)

  abbrev pub loaded_inverted : Bytes → Bytes → Dict Bytes V → Outcome (Unit {0}) × Dict Bytes V
  loaded_inverted collection_name bytes =
      on_space collection_name (vectorspace.load_vertex_inverted bytes)
