-- ===== src/Edge/Collections.antt =====
-- edge/edge_state_manager.go and edge/edge_helper.go: which collections exist and which are loaded,
-- and the steps that the handlers of edge/edge.go are made of. A handler runs alone; a panic that
-- it recovers from is the outcome `panic`, and the state stays as the panic found it.
pub mod Handlers
pub mod Candidates
pub mod Vertices
pub mod Triple
pub mod Loaded
pub mod Rules
pub mod Kept
pub mod Handled
pub mod Requests
pub mod Replies
pub mod Stored
pub mod Restored
pub mod Close
pub mod Phases
pub mod Quiet
pub mod Refines
use coltt.Prelude.{
  ℕ, Bool, true, false, not, ◌&&◌, Option, none, some, List, [], ◌∷◌, ◌++◌, if◌then◌else◌, ◌==◌,
}
use coltt.Prelude.Bytes.{Bytes}
use coltt.Prelude.Dict
use coltt.Prelude.Dict.{Dict, bytes_key}
use coltt.Prelude.Outcome.{
  Outcome, ok, err, panic, continue, collection_not_found, collection_not_load,
}
use coltt.Edge.Analyzer.{IndexFeature}
use coltt.Edge.Space.{SpaceMetadata}
use coltt.Edge.Storage.{Storage, Json}
use coltt.Edge.Vectorstore.{
  Vectorspace, on_space, read_space, destroy_space, saved_metadata, saved_vertex, saved_inverted,
}

-- a call that may change the state
abbrev pub Action : Type 0 → Type 0 → Type 0
Action E A = E → Outcome A × E

module _ {E A B : Type 0} where
  infixl 5 ◌>>=◌ ◌>>◌
  unfoldable pub ◌>>=◌ : Action E A → (A → Action E B) → Action E B
  m >>= f = λ s. continue (m s) f

  abbrev pub ◌>>◌ : Action E A → Action E B → Action E B
  m >> k = m >>= λ _. k

module _ {E A : Type 0} where
  unfoldable pub pure : A → Action E A
  pure a s = (ok a, s)

  -- a call that reads the state
  unfoldable pub reads : (E → Outcome A) → Action E A
  reads f s = (f s, s)

module _ {E : Type 0} where
  unfoldable pub modifies : (E → E) → Action E (Unit {0})
  modifies f s = (ok tt, f s)

-- the state manager, the registry of spaces and the storage
pub record EdgeState (V S : Type 0) : Type 0 where
  pub exists : Dict Bytes Bool
  pub load : Dict Bytes Bool
  pub spaces : Dict Bytes V
  pub storage : S

-- collections[name]: false where the key is missing
abbrev pub flag : Option Bool → Bool
flag none = false
flag (some b) = b

module _ {V S : Type 0} where
  unfoldable pub has_collection : Bytes → EdgeState V S → Bool
  has_collection name s = flag (Dict.lookup name s.exists)

  unfoldable pub already_load_collection : Bytes → EdgeState V S → Bool
  already_load_collection name s = flag (Dict.lookup name s.load)

  unfoldable pub new_authorization_bucket : Bytes → EdgeState V S → EdgeState V S
  new_authorization_bucket name s = record s {
    exists = Dict.insert name true s.exists;
    load = Dict.insert name true s.load;
  }

  unfoldable pub eliminate_bucket_memory : Bytes → EdgeState V S → EdgeState V S
  eliminate_bucket_memory name s = record s { load = Dict.remove name s.load }

  unfoldable pub destroy_bucket : Bytes → EdgeState V S → EdgeState V S
  destroy_bucket name s = record s {
    exists = Dict.remove name s.exists;
    load = Dict.remove name s.load;
  }

  unfoldable pub authorization : Bytes → EdgeState V S → Outcome (Unit {0})
  authorization name s =
      if not (has_collection name s)
      then err collection_not_found
      else if not (already_load_collection name s)
      then err collection_not_load
      else ok tt

  -- a call of the registry, and of the storage
  unfoldable pub on_spaces : {A : Type 0} → Action (Dict Bytes V) A → Action (EdgeState V S) A
  on_spaces call s = let (r, spaces) = call s.spaces in (r, record s { spaces = spaces })

  unfoldable pub on_storage : {A : Type 0} → Action S A → Action (EdgeState V S) A
  on_storage call s = let (r, storage) = call s.storage in (r, record s { storage = storage })

  abbrev pub destroys_space : Bytes → EdgeState V S → EdgeState V S
  destroys_space name s = record s { spaces = destroy_space name s.spaces }

-- "%s.meta.json", "%s.vertex" and "%s.inverted.raw"
abbrev pub metadata_object : Bytes → Bytes
metadata_object name =
    name ++ (b'.' ∷ b'm' ∷ b'e' ∷ b't' ∷ b'a' ∷ b'.' ∷ b'j' ∷ b's' ∷ b'o' ∷ b'n' ∷ [])

abbrev pub vertex_object : Bytes → Bytes
vertex_object name = name ++ (b'.' ∷ b'v' ∷ b'e' ∷ b'r' ∷ b't' ∷ b'e' ∷ b'x' ∷ [])

abbrev pub inverted_object : Bytes → Bytes
inverted_object name =
    name
    ++ (b'.' ∷ b'i' ∷ b'n' ∷ b'v' ∷ b'e' ∷ b'r' ∷ b't' ∷ b'e' ∷ b'd' ∷ b'.' ∷ b'r' ∷ b'a' ∷ b'w'
        ∷ [])

-- edgepb.Index
pub record ProtoIndex : Type 0 where
  pub index_name : Bytes
  pub index_type : ℕ
  pub enable_null : Bool
  pub primary_key : Bool

-- A column's PrimaryKey is not taken over.
abbrev pub column_feature : ProtoIndex → IndexFeature
column_feature column = record {
  index_name = column.index_name;
  index_type = column.index_type;
  enable_null = column.enable_null;
  primary_key = false;
}

index_design_loop : List ProtoIndex → Dict Bytes IndexFeature → Dict Bytes IndexFeature
index_design_loop [] features = features
index_design_loop (column ∷ index_design) features =
    index_design_loop index_design (Dict.insert column.index_name (column_feature column) features)

unfoldable pub index_design_analyze : List ProtoIndex → Dict Bytes IndexFeature
unfolding index_design_loop
index_design_analyze index_design = index_design_loop index_design []

unfoldable pub reverse_index_design : Dict Bytes IndexFeature → List ProtoIndex
reverse_index_design [] = []
reverse_index_design ((name, column) ∷ features) =
    record {
      index_name = column.index_name;
      index_type = column.index_type;
      enable_null = column.enable_null;
      primary_key = false;
    }
    ∷ reverse_index_design features

-- the loop of LoadAuthorizationBuckets
mark_all : List Bytes → Dict Bytes Bool → Dict Bytes Bool
mark_all [] collections = collections
mark_all (bucket ∷ buckets) collections = mark_all buckets (Dict.insert bucket true collections)

module _ {V S : Type 0} ⦃storage : Storage S⦄ where
  unfoldable pub load_authorization_buckets : Action (EdgeState V S) (Unit {0})
  unfolding mark_all
  load_authorization_buckets = do
    buckets ← reads (λ s. storage.load_bucket_list s.storage)
    modifies (λ s. record s { exists = mark_all buckets s.exists })

  abbrev pub put_file : Bytes → Bytes → Bytes → Action (EdgeState V S) (Unit {0})
  put_file name object bytes = on_storage (storage.put_object name object bytes)

  abbrev pub get_file : Bytes → Bytes → Action (EdgeState V S) Bytes
  get_file name object = reads (λ s. storage.get_object name object s.storage)

  module _ ⦃vectorspace : Vectorspace V⦄ where
    -- the six calls that write a space to its three objects
    unfoldable pub save_collection : Bytes → Action (EdgeState V S) (Unit {0})
    save_collection name = do
      meta_bytes ← reads (λ s. saved_metadata name s.spaces)
      put_file name (metadata_object name) meta_bytes
      vertex_bytes ← reads (λ s. saved_vertex name s.spaces)
      put_file name (vertex_object name) vertex_bytes
      index_bytes ← reads (λ s. saved_inverted name s.spaces)
      put_file name (inverted_object name) index_bytes
