-- ===== src/Edge/Collections/Rules.antt =====
-- The calls that the handlers are made of, and the loaded collections.
use coltt.Prelude.{ℕ, ◌≡◌, refl, ◌∙◌, true, arith}
use coltt.Prelude.Bytes.{Bytes, bytes_eq_refl}
use coltt.Prelude.Dict
use coltt.Prelude.Dict.{Dict, bytes_key}
use coltt.Prelude.Outcome.{Outcome, ok, err, panic}
use coltt.Edge.Space.{SpaceMetadata}
use coltt.Edge.Storage.{Storage}
use coltt.Edge.Vectorstore.{Vectorspace, on_space, create_space, fill_empty}
use coltt.Edge.Collections.{
  Action, EdgeState, already_load_collection, on_spaces, on_storage, save_collection,
}
use coltt.Edge.Collections.Triple.{Ends, Ends-weaken, Triple, bind_lem, reads_lem}
use coltt.Edge.Collections.Loaded.{
  Loaded, LoadedWith, LoadedWithout, is_some, on_space-names, on_space-some, spaces-Loaded,
  storage-Loaded,
}

module _ {V : Type 0} where
  -- A call of the registry that drops no name, and returns a value only where it leaves this one.
  pub record Registers {A : Type 0} (name : Bytes) (call : Action (Dict Bytes V) A) : Type 0 where
    pub kept :
        (j : Bytes) (spaces : Dict Bytes V)
        → is_some (Dict.lookup j spaces) ≡ true
        → is_some (Dict.lookup j (call spaces).1) ≡ true
    pub present :
        (spaces : Dict Bytes V) (a : A)
        → (call spaces).0 ≡ ok a
        → is_some (Dict.lookup name (call spaces).1) ≡ true

  pub on_space-Registers :
      {A : Type 0} (name : Bytes) (method : V → Outcome A × V)
      → Registers name (on_space name method)
  on_space-Registers name method = record {
    kept = λ j spaces h. on_space-names name j method spaces ∙ h;
    present =
        λ spaces a e. on_space-names name name method spaces ∙ on_space-some name method spaces a e;
  }

  module _ ⦃vectorspace : Vectorspace V⦄ where
    pub create_space-Registers :
        (name : Bytes) (metadata : SpaceMetadata) → Registers name (create_space name metadata)
    unfolding create_space
    create_space-Registers name metadata = record {
      kept = λ j spaces h. ground (
        arith,
        h,
        Dict.lookup-insert name j (vectorspace.new_vectorstore metadata.quantization name metadata)
            spaces,
      );
      present = λ spaces a e. ground (
        arith,
        e,
        bytes_eq_refl name,
        Dict.lookup-insert name name
            (vectorspace.new_vectorstore metadata.quantization name metadata) spaces,
      );
    }

module _ {V S : Type 0} where
  -- A predicate that says more than Loaded, and nothing of the storage.
  pub record Stable (P : EdgeState V S → Type 0) : Type 0 where
    weak : (s : EdgeState V S) → P s → Loaded s
    moved : (x : S) (s : EdgeState V S) → P s → P (record s { storage = x })

  pub Loaded-Stable : Stable Loaded
  Loaded-Stable = record { weak = λ s h. h; moved = storage-Loaded }

  pub LoadedWith-Stable : (name : Bytes) → Stable (LoadedWith name)
  LoadedWith-Stable name = record {
    weak = λ s h. h.0;
    moved = λ x s h. (storage-Loaded x s h.0, h.1);
  }

  pub LoadedWithout-Stable : (name : Bytes) → Stable (LoadedWithout name)
  unfolding already_load_collection
  LoadedWithout-Stable name = record {
    weak = λ s h. h.0;
    moved = λ x s h. (storage-Loaded x s h.0, h.1);
  }

  module _ (P : EdgeState V S → Type 0) (stable : Stable P) where
    Ends-moved :
        {A : Type 0} (x : Outcome A × S) (s : EdgeState V S)
        → P s
        → Ends Loaded P (x.0, record s { storage = x.1 })
    Ends-moved (ok a, x) s p = stable.moved x s p
    Ends-moved (err e, x) s p = stable.weak (record s { storage = x }) (stable.moved x s p)
    Ends-moved (panic, x) s p = stable.weak (record s { storage = x }) (stable.moved x s p)

    pub on_storage_lem : {A : Type 0} (call : Action S A) → Triple Loaded P P (on_storage call)
    unfolding on_storage
    on_storage_lem call = record { run = λ s p. Ends-moved (call s.storage) s p }

    module _ ⦃storage : Storage S⦄ ⦃vectorspace : Vectorspace V⦄ where
      pub save_collection_lem : (name : Bytes) → Triple Loaded P P (save_collection name)
      unfolding save_collection
      save_collection_lem name =
          bind_lem Loaded P P P _ _ (reads_lem Loaded P _ stable.weak) λ meta_bytes.
            bind_lem Loaded P P P _ _ (on_storage_lem _) λ _.
              bind_lem Loaded P P P _ _ (reads_lem Loaded P _ stable.weak) λ vertex_bytes.
                bind_lem Loaded P P P _ _ (on_storage_lem _) λ _.
                  bind_lem Loaded P P P _ _ (reads_lem Loaded P _ stable.weak)
                    λ index_bytes. on_storage_lem _

  pub strengthen :
      {A : Type 0} (R P Q Q' : EdgeState V S → Type 0) (m : Action (EdgeState V S) A)
      → ((s : EdgeState V S) → Q s → Q' s)
      → Triple R P Q m
      → Triple R P Q' m
  strengthen R P Q Q' m w h = record { run = λ s p. Ends-weaken R Q Q' (m s) w (h.run s p) }

  pub weaken :
      {A : Type 0} (R P P' Q : EdgeState V S → Type 0) (m : Action (EdgeState V S) A)
      → ((s : EdgeState V S) → P' s → P s)
      → Triple R P Q m
      → Triple R P' Q m
  weaken R P P' Q m w h = record { run = λ s p. h.run s (w s p) }

  Ends-registered :
      {A : Type 0} (name : Bytes) (x : Outcome A × Dict Bytes V) (s : EdgeState V S)
      → Loaded (record s { spaces = x.1 })
      → ((a : A) → x.0 ≡ ok a → is_some (Dict.lookup name x.1) ≡ true)
      → Ends Loaded (LoadedWith name) (x.0, record s { spaces = x.1 })
  Ends-registered name (ok a, x) s l p = (l, p a refl)
  Ends-registered name (err e, x) s l p = l
  Ends-registered name (panic, x) s l p = l

  pub on_spaces_lem :
      {A : Type 0} (name : Bytes) (call : Action (Dict Bytes V) A)
      → Registers name call
      → Triple {E = EdgeState V S} Loaded Loaded (LoadedWith name) (on_spaces call)
  unfolding on_spaces
  on_spaces_lem name call r = record {
    run = λ s l.
        Ends-registered name (call s.spaces) s
          (spaces-Loaded (call s.spaces).1 s l (λ j. r.kept j s.spaces)) (r.present s.spaces);
  }

  module _ ⦃vectorspace : Vectorspace V⦄ where
    pub fill_empty-Loaded :
        (name : Bytes) (q : ℕ) (s : EdgeState V S)
        → Loaded s
        → Loaded (record s { spaces = fill_empty name q s.spaces })
    unfolding fill_empty
    fill_empty-Loaded name q s l =
        spaces-Loaded (fill_empty name q s.spaces) s l
          (λ j h. ground (arith, h, Dict.lookup-insert name j (vectorspace.empty_space q) s.spaces))
