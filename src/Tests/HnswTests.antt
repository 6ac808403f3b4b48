-- ===== src/Tests/HnswTests.antt =====
-- The theorems on core/vectorindex at concrete inputs.
use coltt.Prelude.{Bool, ◌==◌, length, ◌+◌, ◌-◌, List, [], ◌∷◌, get_or}
use coltt.Edge.Space.{Vector}
use coltt.Hnsw.{Distances, Hnsw, HnswOption, with_m, with_ef}
use coltt.Hnsw.Calls.{Call, insertion, removal}
use coltt.Tests.Instances.{test_floats}

-- On vectors of one element, how far apart the elements are.
instance abbrev gaps : Distances
gaps = record {
  comparable = λ a b. length a == length b;
  distance = λ kind a b. (get_or a 0 0 - get_or b 0 0) + (get_or b 0 0 - get_or a 0 0);
}

abbrev options : List HnswOption
options = with_m 2 ∷ with_ef 3 ∷ []

-- The entrypoint is removed, one insertion is refused, and so is one removal.
abbrev calls : List Call
calls =
    insertion 1 (10 ∷ []) [] 0
    ∷ insertion 2 (20 ∷ []) [] 1
    ∷ insertion 3 (30 ∷ []) [] 2
    ∷ insertion 2 (25 ∷ []) [] 0
    ∷ removal 3
    ∷ removal 3
    ∷ insertion 4 (40 ∷ []) [] 0
    ∷ []

abbrev one_element : Vector → Bool
one_element v = length v == 1
