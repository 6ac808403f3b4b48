-- ===== src/Edge/Collections/Phases.antt =====
-- The life cycle of a collection, whatever its space and the storage hold.
use coltt.Prelude.{◌≡◌, ◌⊎◌, Bool, true, false}
use coltt.Prelude.Bytes.{Bytes}
use coltt.Edge.Collections.{EdgeState, has_collection, already_load_collection}
use coltt.Edge.Collections.Requests.{
  Request, creates, deletes, gets, loads, releases, flushes, changes, searches,
}

-- A collection does not exist, or is in the storage alone, or is loaded.
pub data Phase : Type 0 where
  absent stored loaded : Phase

abbrev pub phase_of : Bool → Bool → Phase
phase_of false l = absent
phase_of true false = stored
phase_of true true = loaded

module _ {V S : Type 0} where
  unfoldable pub phase : Bytes → EdgeState V S → Phase
  phase name s = phase_of (has_collection name s) (already_load_collection name s)

-- the collection that a request names
abbrev pub name_of : Request → Bytes
name_of (creates req) = req.collection_name
name_of (deletes name) = name
name_of (gets name) = name
name_of (loads name) = name
name_of (releases name) = name
name_of (flushes name) = name
name_of (changes req) = req.collection_name
name_of (searches req) = req.collection_name

-- What a request may make of the collection that it names. A creation and a load may fail; a
-- deletion and a release take place whatever the storage answers.
abbrev pub Allowed : Request → Phase → Phase → Type 0
Allowed (creates req) absent q = (q ≡ absent) ⊎ (q ≡ loaded)
Allowed (creates req) p q = q ≡ p
Allowed (deletes name) p q = q ≡ absent
Allowed (loads name) stored q = (q ≡ stored) ⊎ (q ≡ loaded)
Allowed (loads name) p q = q ≡ p
Allowed (releases name) loaded q = q ≡ stored
Allowed (releases name) p q = q ≡ p
Allowed r p q = q ≡ p
