-- ===== src/Hnsw/Calls/Kept.antt =====
-- Any calls on a new index keep the contract.
use coltt.Prelude.{Bool, true, all, ℕ, ◌≡◌, refl, List, [], ◌∷◌, length, ◌+◌, ◌≤◌, arith}
use coltt.Prelude.Dict.{Dict, nat_key}
use coltt.Prelude.Float.{Floats}
use coltt.Prelude.Outcome.{ok}
use coltt.Edge.Space.{Vector, DistanceSpace}
use coltt.Hnsw.{Distances, Hnsw, HnswOption, new_hnsw}
use coltt.Hnsw.Calls.{takes, AnyTwo, Call, Stored, expected, expected_all, call_all, Refines}
use coltt.Hnsw.Calls.Each.{new-Refines, Fits, call-Does}

module _ ⦃floats : Floats⦄ ⦃space : Distances⦄ (fit : Vector → Bool) (two : AnyTwo fit) where
  -- Each call stores at most one vertex.
  pub call_all-Does :
      (calls : List Call) (h : Hnsw) (kind : DistanceSpace) (m : Dict ℕ Stored)
      → Refines kind m h
      → Fits fit h
      → all (takes kind fit) calls ≡ true
      → (g : Hnsw) × (call_all calls h ≡ ok g)
        × (length g.store ≤ length h.store + length calls)
        × Fits fit g
        × Refines kind (expected_all kind calls m) g
  unfolding call_all expected_all
  call_all-Does [] h kind m v fits good = (h, refl, omega arith, fits, v)
  call_all-Does (c ∷ calls) h kind m v fits good =
      let (h1, e1, s1, f1, v1) = call-Does fit two c h kind m v fits (ground arith) in
      let (g, e, s2, f2, v2) =
        call_all-Does calls h1 kind (expected kind c m) v1 f1 (ground arith) in
      (g, rw e1 e, omega arith, f2, v2)

module _ ⦃floats : Floats⦄ ⦃space : Distances⦄ where
  new-Fits :
      (fit : Vector → Bool) (dim : ℕ) (kind : DistanceSpace) (options : List HnswOption)
      → Fits fit (new_hnsw dim kind options)
  unfolding new_hnsw
  new-Fits fit dim kind options r inside = absurd (omega arith)

  -- the calls on a new index
  pub calls-Does :
      (fit : Vector → Bool) (dim : ℕ) (kind : DistanceSpace) (options : List HnswOption)
      (calls : List Call)
      → AnyTwo fit
      → all (takes kind fit) calls ≡ true
      → (h : Hnsw) × (call_all calls (new_hnsw dim kind options) ≡ ok h)
        × (length h.store ≤ length calls)
        × Fits fit h
        × Refines kind (expected_all kind calls []) h
  unfolding new_hnsw
  calls-Does fit dim kind options calls two good =
      let (h, e, s, f, v) =
        call_all-Does fit two calls (new_hnsw dim kind options) kind []
          (new-Refines dim kind options) (new-Fits fit dim kind options) good in
      (h, e, omega arith, f, v)
