-- ===== src/Edge/Spaces/Unindexed.antt =====
-- Creating a collection of bf16 vectors: newBF16Vectorstore leaves the index nil, and the first
-- call that needs it is SavedInverted, within CreateCollection.
use coltt.Prelude.{◌≡◌, refl, false, none, some, arith, Bool-cases, Option-cases, inl, inr}
use coltt.Prelude.Bytes.{Bytes, bytes_eq_refl}
use coltt.Prelude.Dict
use coltt.Prelude.Dict.{Dict, bytes_key}
use coltt.Prelude.Float.{Floats}
use coltt.Prelude.Outcome.{Outcome, ok, err, panic, collection_exists}
use coltt.Inverted.Roaring.{Roaring}
use coltt.Edge.Queue.{Sorter}
use coltt.Edge.Space.{SpaceMetadata}
use coltt.Edge.Storage.{Storage, Json}
use coltt.Edge.Vectorstore.{Vectorspace, create_space, saved_inverted}
use coltt.Edge.Collections.{
  Action, reads, EdgeState, on_spaces, on_storage, has_collection, save_collection,
}
use coltt.Edge.Collections.Handlers.{
  Collection, metadata_of, create_collection, after_creation, creation_steps,
}
use coltt.Edge.Collections.Stored.{read_space-some}
use coltt.Edge.Collections.Triple.{Ends, Triple, bind_lem, reads_lem}
use coltt.Edge.Spaces.{Quantizers, AnySpace, any_space, new_vectorstore}

abbrev Always : {E : Type 0} → E → Type 0
Always s = Unit

abbrev Never : {E : Type 0} → E → Type 0
Never s = ⊥

module _ {E A : Type 0} where
  any_end : (x : Outcome A × E) → Ends Always Always x
  any_end (ok a, s) = tt
  any_end (err e, s) = tt
  any_end (panic, s) = tt

  any_call : (P : E → Type 0) (m : Action E A) → Triple Always P Always m
  any_call P m = record { run = λ s p. any_end (m s) }

module _ {V : Type 0} ⦃vectorspace : Vectorspace V⦄ where
  create_space-made :
      (name : Bytes) (metadata : SpaceMetadata) (spaces : Dict Bytes V)
      → Dict.lookup name spaces ≡ none
      → metadata.quantization ≡ 3
      → create_space name metadata spaces
        ≡ (ok tt, Dict.insert name (vectorspace.new_vectorstore 3 name metadata) spaces)
  unfolding create_space
  create_space-made name metadata spaces e q = rw (e, create_space) (rw q refl)

  create_space-there :
      (name : Bytes) (metadata : SpaceMetadata) (spaces : Dict Bytes V) (v : V)
      → Dict.lookup name spaces ≡ some v
      → create_space name metadata spaces ≡ (err collection_exists, spaces)
  unfolding create_space
  create_space-there name metadata spaces v e = rw (e, create_space) refl

module _ {B S : Type 0} ⦃floats : Floats⦄ ⦃roaring : Roaring B⦄ ⦃sorter : Sorter⦄
    ⦃quantizers : Quantizers⦄ ⦃json : Json⦄ ⦃storage : Storage S⦄ where
  -- The collection has a space, and that space has no index.
  abbrev Unindexed : Bytes → EdgeState (AnySpace B) S → Type 0
  Unindexed name s = (v : AnySpace B) × (Dict.lookup name s.spaces ≡ some v) × (v.has_index ≡ false)

  Ends-Unindexed :
      {A : Type 0} (name : Bytes) (s : EdgeState (AnySpace B) S) (x : Outcome A × S)
      → Unindexed name s
      → Ends Always (Unindexed name) (x.0, record s { storage = x.1 })
  Ends-Unindexed name s (ok a, x) h = h
  Ends-Unindexed name s (err e, x) h = tt
  Ends-Unindexed name s (panic, x) h = tt

  stored_lem :
      {A : Type 0} (name : Bytes) (call : Action S A)
      → Triple {E = EdgeState (AnySpace B) S} Always
          (Unindexed name)
          (Unindexed name)
          (on_storage call)
  unfolding on_storage
  stored_lem name call = record { run = λ s h. Ends-Unindexed name s (call s.storage) h }

  read_lem :
      {A : Type 0} (name : Bytes) (f : EdgeState (AnySpace B) S → Outcome A)
      → Triple {E = EdgeState (AnySpace B) S} Always (Unindexed name) (Unindexed name) (reads f)
  read_lem name f = reads_lem Always (Unindexed name) f (λ s h. tt)

  inverted_fails :
      (name : Bytes)
      → Triple {E = EdgeState (AnySpace B) S} Always
          (Unindexed name)
          Never
          (reads (λ s. saved_inverted name s.spaces))
  unfolding reads
  inverted_fails name = record {
    run = λ s (v, there, bare).
        rw (read_space-some name any_space.save_vertex_inverted s.spaces v there, bare) tt;
  }

  save_collection-fails :
      (name : Bytes)
      → Triple {E = EdgeState (AnySpace B) S} Always (Unindexed name) Never (save_collection name)
  unfolding save_collection
  save_collection-fails name =
      bind_lem Always (Unindexed name) (Unindexed name) Never _ _ (read_lem name _) λ meta_bytes.
        bind_lem Always (Unindexed name) (Unindexed name) Never _ _ (stored_lem name _) λ _.
          bind_lem Always (Unindexed name) (Unindexed name) Never _ _ (read_lem name _)
            λ vertex_bytes.
              bind_lem Always (Unindexed name) (Unindexed name) Never _ _ (stored_lem name _) λ _.
                bind_lem Always (Unindexed name) Never Never _ _ (inverted_fails name)
                  λ index_bytes. record { run = λ s h. absurd h }

  create_space-Unindexed :
      (req : Collection)
      → req.quantization ≡ 3
      → Triple {E = EdgeState (AnySpace B) S} Always Always
          (Unindexed req.collection_name)
          (on_spaces (create_space req.collection_name (metadata_of req)))
  unfolding on_spaces new_vectorstore
  create_space-Unindexed req q =
      let name = req.collection_name in
      let metadata = metadata_of req in
      let made : AnySpace B = new_vectorstore 3 name metadata in
      record {
        run = λ s h. elim (Option-cases (Dict.lookup name s.spaces)) [
          | inl e ↦ rw (create_space-made name metadata s.spaces e q) (
            made,
            ground (arith, Dict.lookup-insert name name made s.spaces, bytes_eq_refl name),
            refl,
          )
          | inr (v, e) ↦ rw (create_space-there name metadata s.spaces v e) tt
        ];
      }

  creation_steps-fails :
      (req : Collection)
      → req.quantization ≡ 3
      → Triple {E = EdgeState (AnySpace B) S} Always Always Never (creation_steps req)
  unfolding creation_steps
  creation_steps-fails req q =
      let name = req.collection_name in
      bind_lem Always Always Always Never _ _ (any_call Always _) λ _.
        bind_lem Always Always Always Never _ _ (any_call Always _) λ _.
          bind_lem Always Always (Unindexed name) Never _ _ (create_space-Unindexed req q) λ _.
            bind_lem Always (Unindexed name) Never Never _ _ (save_collection-fails name)
              λ _. record { run = λ s h. absurd h }

  after_creation-Never :
      (req c : Collection) (x : Outcome (Unit {0}) × EdgeState (AnySpace B) S)
      → Ends Always Never x
      → ¬ ((after_creation req x).0 ≡ ok c)
  unfolding after_creation
  after_creation-Never req c (ok u, s) h e = h
  after_creation-Never req c (err e', s) h e = cc
  after_creation-Never req c (panic, s) h e = cc

  -- CreateCollection of a collection with the quantization BF16 never succeeds.
  pub create_collection-bf16 :
      (req c : Collection) (s : EdgeState (AnySpace B) S)
      → req.quantization ≡ 3
      → ¬ ((create_collection req s).0 ≡ ok c)
  unfolding create_collection
  create_collection-bf16 req c s q = elim (Bool-cases (has_collection req.collection_name s)) [
    | inl there ↦ rw there (λ e. cc)
    | inr away ↦
        rw away (
          after_creation-Never req c (creation_steps req s) ((creation_steps-fails req q).run s tt))
  ]
