-- ===== src/Hnsw/Calls.antt =====
-- Any calls of Insert and Remove, one after another, and the map that the index is to its callers.
pub mod Each
pub mod Kept
pub mod Reached
use coltt.Prelude.{
  Bool, true, ℕ, ◌≡◌, refl, ap, ◌∙◌, sym, inl, inr, Option, none, some, List, [], ◌∷◌, map,
  get_or-replicate, arith, ◌==◌, ==_iff, Bool-cases, Option-cases, if◌then◌else◌,
}
use coltt.Prelude.Dict
use coltt.Prelude.Dict.{Dict, nat_key}
use coltt.Prelude.Float.{Floats}
use coltt.Prelude.Outcome.{Outcome, ok, err, panic, ◌>>=◌}
use coltt.Edge.Space.{Vector, DistanceSpace, normalized}
use coltt.Inverted.Index.{Metadata}
use coltt.Hnsw.{
  Distances, Hnsw, HnswOption, HnswVertex, Ref, vertex_at, get_vertex, new_hnsw, shard_of,
}
use coltt.Hnsw.Shape.{IsWell}
use coltt.Hnsw.Shape.Shards.{new_hnsw-IsWell}
use coltt.Hnsw.Queue.{PriorityQueue}
use coltt.Hnsw.Search.{search, result_of}
use coltt.Hnsw.Search.Answers.{Answer, search-Answer}
use coltt.Hnsw.Change.{insert, remove}
use coltt.Hnsw.Change.Insert.{Inserted, insert-exists, insert-Inserted}
use coltt.Hnsw.Change.Remove.{Removed, remove-missing, remove-Removed}

pub data Call : Type 0 where
  insertion : ℕ → Vector → Metadata → ℕ → Call
  removal : ℕ → Call

pub record Stored : Type 0 where
  pub vector : Vector
  pub metadata : Metadata

abbrev pub stored_of : HnswVertex → Stored
stored_of v = record { vector = v.vector; metadata = v.metadata }

abbrev pub stored_at : Hnsw → Option Ref → Option Stored
stored_at h none = none
stored_at h (some r) = some (stored_of (vertex_at h r))

-- what Get and GetVertex give of the id
unfoldable pub get : ℕ → Hnsw → Option Stored
get id h = stored_at h (get_vertex id h)

-- A call that returns an error has changed nothing.
abbrev pub carry_on : Hnsw → Outcome Hnsw → Outcome Hnsw
carry_on h (ok g) = ok g
carry_on h (err e) = ok h
carry_on h panic = panic

abbrev pub unless : Option Stored → Dict ℕ Stored → Dict ℕ Stored → Dict ℕ Stored
unless none m added = added
unless (some old) m added = m

module _ ⦃floats : Floats⦄ where
  -- The contract: a map from ids, in which an insertion does not overwrite.
  unfoldable pub expected : DistanceSpace → Call → Dict ℕ Stored → Dict ℕ Stored
  expected kind (insertion id value metadata level) m =
      unless (Dict.lookup id m) m
        (Dict.insert id (record { vector = normalized kind value; metadata = metadata }) m)
  expected kind (removal id) m = Dict.remove id m

  unfoldable pub expected_all : DistanceSpace → List Call → Dict ℕ Stored → Dict ℕ Stored
  expected_all kind [] m = m
  expected_all kind (c ∷ calls) m = expected_all kind calls (expected kind c m)

  -- The vector that is inserted is one of a given set.
  abbrev pub takes : DistanceSpace → (Vector → Bool) → Call → Bool
  takes kind fit (insertion id value metadata level) = fit (normalized kind value)
  takes kind fit (removal id) = true

  module _ ⦃space : Distances⦄ where
    -- a set of vectors of which any two can be compared, as those of one length that is not 0
    abbrev pub AnyTwo : (Vector → Bool) → Type 0
    AnyTwo fit = (a b : Vector) → fit a ≡ true → fit b ≡ true → space.comparable a b ≡ true

    unfoldable pub call : Call → Hnsw → Outcome Hnsw
    call (insertion id value metadata level) h = insert id value metadata level h
    call (removal id) h = remove id h

    unfoldable pub call_all : List Call → Hnsw → Outcome Hnsw
    call_all [] h = ok h
    call_all (c ∷ calls) h = carry_on h (call c h) >>= call_all calls

-- In the shape, and the map is the one given.
pub record Refines (kind : DistanceSpace) (m : Dict ℕ Stored) (h : Hnsw) : Type 0 where
  pub well : IsWell h
  pub kind_same : h.distancer ≡ kind
  pub same : (id : ℕ) → get id h ≡ Dict.lookup id m
