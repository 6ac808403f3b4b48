-- ===== src/Edge/Collections/Close/Kept.antt =====
-- What Close stores.
use coltt.Prelude.{
  ◌≡◌, ◌≢◌, refl, ◌∙◌, ap, sym, subst, Bool, true, false, some, [], ◌∷◌, All, Bool-cases, inl, inr,
}
use coltt.Prelude.Bytes.{Bytes, bytes_eq, eq_of_bytes_eq, bytes_eq_refl}
use coltt.Prelude.Dict
use coltt.Prelude.Dict.{Dict, bytes_key}
use coltt.Prelude.Outcome.{Outcome, ok, err, panic}
use coltt.Edge.Storage.{Storage, Durable}
use coltt.Edge.Vectorstore.{Vectorspace}
use coltt.Edge.Collections.{
  ◌>>=◌, pure, reads, EdgeState, on_storage, metadata_object, vertex_object, inverted_object,
}
use coltt.Edge.Collections.Stored.{
  Objects, Holds, put_objects, put_objects-Holds, put_objects-Available, read_space-some,
}
use coltt.Edge.Collections.Close.{bytes_or_nil, log_error, save_anyway, close_loop, close}

-- A collection that is marked as loaded has these objects in the storage.
abbrev pub Stores :
    {S : Type 0} ⦃storage : Storage S⦄ → (Bytes → Objects) → S → Bytes × Bool → Type 0
Stores objects x (name, status) = status ≡ true → Holds name (objects name) x

module _ {S : Type 0} ⦃storage : Storage S⦄ (durable : Durable storage) where
  -- A write to another bucket leaves the objects of this one.
  put_objects-away :
      (name away : Bytes) (o p : Objects) (s : S)
      → durable.Available s
      → name ≢ away
      → Holds away p s
      → Holds away p (put_objects name o s)
  put_objects-away name away o p s h apart held =
      let s1 = (storage.put_object name (metadata_object name) o.metadata s).1 in
      let s2 = (storage.put_object name (vertex_object name) o.vertices s1).1 in
      let h1 : durable.Available s1 = durable.put-Available _ _ _ s h in
      let h2 : durable.Available s2 = durable.put-Available _ _ _ s1 h1 in
      let kept : (object : Bytes)
          → storage.get_object away object (put_objects name o s)
            ≡ storage.get_object away object s =
        λ object.
          durable.get-put_away _ _ o.inverted away object s2 h2 apart
          ∙ durable.get-put_away _ _ o.vertices away object s1 h1 apart
          ∙ durable.get-put_away _ _ o.metadata away object s h apart in
      record {
        metadata_held = kept _ ∙ held.metadata_held;
        vertices_held = kept _ ∙ held.vertices_held;
        inverted_held = kept _ ∙ held.inverted_held;
      }

  put_objects-again :
      (name other : Bytes) (objects : Bytes → Objects) (s : S)
      → durable.Available s
      → Holds other (objects other) s
      → Holds other (objects other) (put_objects name (objects name) s)
  put_objects-again name other objects s h held = elim (Bool-cases (bytes_eq name other)) [
    | inl e ↦
        let same = eq_of_bytes_eq name other e in
        subst (λ n. Holds n (objects n) (put_objects name (objects name) s)) same
          (put_objects-Holds durable name (objects name) s h)
    | inr e ↦
        put_objects-away name other (objects name) (objects other) s h
          (λ same.
            let own : bytes_eq name other ≡ true =
              ap (bytes_eq name) (sym same) ∙ bytes_eq_refl name in
            cc)
          held
  ]

-- A file has the bytes of a value, and is empty for an error.
abbrev pub Made : Outcome Bytes → Bytes → Type 0
Made (ok bytes) made = made ≡ bytes
Made (err e) made = made ≡ []
Made panic made = ⊥

bytes_or_nil_lem : (r : Outcome Bytes) (made : Bytes) → Made r made → bytes_or_nil r ≡ ok made
unfolding bytes_or_nil
bytes_or_nil_lem (ok bytes) made h = ap ok (sym h)
bytes_or_nil_lem (err e) made h = ap ok (sym h)
bytes_or_nil_lem panic made h = absurd h

module _ {V : Type 0} ⦃vectorspace : Vectorspace V⦄ where
  -- What Close writes for the space.
  pub record SavesAnyway (v : V) (o : Objects) : Type 0 where
    pub metadata_made : Made (vectorspace.save_vertex_metadata v) o.metadata
    pub vertices_made : Made (vectorspace.save_vertex v) o.vertices
    pub inverted_made : Made (vectorspace.save_vertex_inverted v) o.inverted

  module _ {S : Type 0} ⦃storage : Storage S⦄ (durable : Durable storage) where
    save_anyway-put :
        (name : Bytes) (o : Objects) (v : V) (s : EdgeState V S)
        → Dict.lookup name s.spaces ≡ some v
        → SavesAnyway v o
        → durable.Available s.storage
        → save_anyway name s ≡ (ok tt, record s { storage = put_objects name o s.storage })
    unfolding save_anyway ◌>>=◌ reads on_storage log_error
    save_anyway-put name o v s there saves h =
        let s1 = (storage.put_object name (metadata_object name) o.metadata s.storage).1 in
        let s2 = (storage.put_object name (vertex_object name) o.vertices s1).1 in
        let h1 : durable.Available s1 = durable.put-Available _ _ _ s.storage h in
        let h2 : durable.Available s2 = durable.put-Available _ _ _ s1 h1 in
        rw
          (
            read_space-some name vectorspace.save_vertex_metadata s.spaces v there,
            bytes_or_nil_lem _ _ saves.metadata_made,
            durable.put-ok name (metadata_object name) o.metadata s.storage h,
            read_space-some name vectorspace.save_vertex s.spaces v there,
            bytes_or_nil_lem _ _ saves.vertices_made,
            durable.put-ok name (vertex_object name) o.vertices s1 h1,
            read_space-some name vectorspace.save_vertex_inverted s.spaces v there,
            bytes_or_nil_lem _ _ saves.inverted_made,
            durable.put-ok name (inverted_object name) o.inverted s2 h2,
          )
          refl

    -- Each collection that is marked as loaded has a space, and Close makes these objects of it.
    abbrev pub Ready : (Bytes → Objects) → Dict Bytes V → Bytes × Bool → Type 0
    Ready objects spaces (name, status) =
        status ≡ true → (v : V) × (Dict.lookup name spaces ≡ some v) × SavesAnyway v (objects name)

    close_loop-Stores :
        (objects : Bytes → Objects) (collections : Dict Bytes Bool) (s : EdgeState V S)
        → durable.Available s.storage
        → All (Ready objects s.spaces) collections
        → (x : S) × (close_loop collections s ≡ (ok tt, record s { storage = x }))
          × All (Stores objects x) collections
          × ((other : Bytes)
              → Holds other (objects other) s.storage
              → Holds other (objects other) x)
    unfolding close_loop pure ◌>>=◌
    close_loop-Stores objects [] s h ready = (s.storage, refl, tt, λ other held. held)
    close_loop-Stores objects ((name, true) ∷ collections) s h (first, ready) =
        let (v, there, saves) = first refl in
        let o = objects name in
        let x = put_objects name o s.storage in
        let (y, e, stored, kept) =
          close_loop-Stores objects collections (record s { storage = x })
            (put_objects-Available durable name o s.storage h) ready in
        (
          y,
          rw (save_anyway-put name o v s there saves h) e,
          (λ _. kept name (put_objects-Holds durable name o s.storage h), stored),
          λ other held. kept other (put_objects-again durable name other objects s.storage h held),
        )
    close_loop-Stores objects ((name, false) ∷ collections) s h (first, ready) =
        let (y, e, stored, kept) = close_loop-Stores objects collections s h ready in
        (y, e, (λ t. cc, stored), kept)

    -- Let the storage be available, let each collection that is marked as loaded have a space, and let
    -- none of the three saves of that space panic. Then Close succeeds and changes nothing but the
    -- storage, where each loaded collection has its three files afterwards: the bytes that its space is
    -- saved as, or an empty file where the space returned an error.
    pub close-Stores :
        (objects : Bytes → Objects) (s : EdgeState V S)
        → durable.Available s.storage
        → All (Ready objects s.spaces) s.load
        → (x : S) × (close s ≡ (ok tt, record s { storage = x })) × All (Stores objects x) s.load
    unfolding close
    close-Stores objects s h ready =
        let (x, e, stored, kept) = close_loop-Stores objects s.load s h ready in (x, e, stored)
