-- ===== src/Edge/Collections/Quiet.antt =====
-- The calls that leave it as it was which collections exist and which are loaded.
use coltt.Prelude.{◌≡◌, refl, ◌∙◌, Bool}
use coltt.Prelude.Bytes.{Bytes}
use coltt.Prelude.Dict.{Dict, bytes_key}
use coltt.Prelude.Outcome.{Outcome, ok, err, panic, continue}
use coltt.Edge.Storage.{Storage}
use coltt.Edge.Vectorstore.{Vectorspace}
use coltt.Edge.Collections.Triple.{Ends, Triple, bind_lem}
use coltt.Edge.Collections.{
  ◌>>=◌, Action, reads, modifies, EdgeState, on_spaces, on_storage, save_collection,
}

module _ {V S : Type 0} where
  -- The state has these collections.
  abbrev pub Marks : Dict Bytes Bool → Dict Bytes Bool → EdgeState V S → Type 0
  Marks exists load s = (s.exists ≡ exists) × (s.load ≡ load)

  pub record Quiet {A : Type 0} (m : Action (EdgeState V S) A) : Type 0 where
    pub same : (s : EdgeState V S) → Marks s.exists s.load (m s).1

  module _ {A : Type 0} where
    pub reads-Quiet : (f : EdgeState V S → Outcome A) → Quiet (reads f)
    unfolding reads
    reads-Quiet f = record { same = λ s. (refl, refl) }

    pub on_storage-Quiet : (call : Action S A) → Quiet {A = A} (on_storage call)
    unfolding on_storage
    on_storage-Quiet call = record { same = λ s. (refl, refl) }

    pub on_spaces-Quiet : (call : Action (Dict Bytes V) A) → Quiet {A = A} (on_spaces call)
    unfolding on_spaces
    on_spaces-Quiet call = record { same = λ s. (refl, refl) }

  pub modifies-Quiet :
      (f : EdgeState V S → EdgeState V S)
      → ((s : EdgeState V S) → Marks s.exists s.load (f s))
      → Quiet (modifies f)
  unfolding modifies
  modifies-Quiet f h = record { same = h }

  pub continue-Marks :
      {A B : Type 0} (exists load : Dict Bytes Bool) (x : Outcome A × EdgeState V S)
      (f : A → Action (EdgeState V S) B)
      → Marks exists load x.1
      → ((a : A) → Quiet (f a))
      → Marks exists load (continue x f).1
  continue-Marks exists load (ok a, s) f h q = let k = (q a).same s in (k.0 ∙ h.0, k.1 ∙ h.1)
  continue-Marks exists load (err e, s) f h q = h
  continue-Marks exists load (panic, s) f h q = h

  pub bind-Quiet :
      {A B : Type 0} (m : Action (EdgeState V S) A) (f : A → Action (EdgeState V S) B)
      → Quiet m
      → ((a : A) → Quiet (f a))
      → Quiet (m >>= f)
  unfolding ◌>>=◌
  bind-Quiet m f q k = record { same = λ s. continue-Marks s.exists s.load (m s) f (q.same s) k }

  Ends-Marks :
      {A : Type 0} (exists load : Dict Bytes Bool) (x : Outcome A × EdgeState V S)
      → Marks exists load x.1
      → Ends (Marks exists load) (Marks exists load) x
  Ends-Marks exists load (ok a, s) h = h
  Ends-Marks exists load (err e, s) h = h
  Ends-Marks exists load (panic, s) h = h

  pub quiet_lem :
      {A : Type 0} {m : Action (EdgeState V S) A} (exists load : Dict Bytes Bool)
      → Quiet m
      → Triple (Marks exists load) (Marks exists load) (Marks exists load) m
  quiet_lem {m = m} exists load q = record {
    run = λ s h. Ends-Marks exists load (m s) ((q.same s).0 ∙ h.0, (q.same s).1 ∙ h.1);
  }

  -- A quiet call before another.
  pub after_lem :
      {A B : Type 0} {m : Action (EdgeState V S) A} {f : A → Action (EdgeState V S) B}
      {exists load : Dict Bytes Bool} {Q : EdgeState V S → Type 0}
      → Quiet m
      → ((a : A) → Triple (Marks exists load) (Marks exists load) Q (f a))
      → Triple (Marks exists load) (Marks exists load) Q (m >>= f)
  after_lem {exists = exists} {load = load} q k =
      bind_lem (Marks exists load) (Marks exists load) (Marks exists load) _ _ _
        (quiet_lem exists load q) k

  module _ ⦃vectorspace : Vectorspace V⦄ ⦃storage : Storage S⦄ where
    pub save_collection-Quiet : (name : Bytes) → Quiet (save_collection name)
    unfolding save_collection
    save_collection-Quiet name = bind-Quiet _ _ (reads-Quiet _) λ meta_bytes.
        bind-Quiet _ _ (on_storage-Quiet _) λ _. bind-Quiet _ _ (reads-Quiet _) λ vertex_bytes.
          bind-Quiet _ _ (on_storage-Quiet _)
            λ _. bind-Quiet _ _ (reads-Quiet _) λ index_bytes. on_storage-Quiet _
