-- ===== src/Edge/Collections/Loaded.antt =====
-- A loaded collection exists and has its space in the registry: the calls that keep it so.
use coltt.Prelude.{◌≡◌, Bool, true, false, ◌&&◌, Option, none, some, arith, Option-cases, inl, inr}
use coltt.Prelude.Bytes.{Bytes, bytes_eq_refl}
use coltt.Prelude.Dict
use coltt.Prelude.Dict.{Dict, bytes_key}
use coltt.Prelude.Outcome.{Outcome, ok}
use coltt.Edge.Vectorstore.{on_space, on_entry, destroy_space}
use coltt.Edge.Collections.{
  EdgeState, has_collection, already_load_collection, new_authorization_bucket,
  eliminate_bucket_memory, destroy_bucket, destroys_space,
}

abbrev pub is_some : {A : Type 0} → Option A → Bool
is_some none = false
is_some (some a) = true

module _ {V : Type 0} where
  is_some-modify :
      (name j : Bytes) (v : V) (spaces : Dict Bytes V) (w : V)
      → Dict.lookup name spaces ≡ some w
      → is_some (Dict.lookup j (Dict.modify name v spaces)) ≡ is_some (Dict.lookup j spaces)
  is_some-modify name j v spaces w h =
      ground (arith, Dict.lookup-modify name j v spaces w h, Dict.lookup-beq name j spaces, h)

  -- A method leaves the same names in the registry; it returns a value only for one of them.
  pub on_space-names :
      {A : Type 0} (name j : Bytes) (method : V → Outcome A × V) (spaces : Dict Bytes V)
      → is_some (Dict.lookup j (on_space name method spaces).1) ≡ is_some (Dict.lookup j spaces)
  unfolding on_space on_entry
  on_space-names name j method spaces = elim (Option-cases (Dict.lookup name spaces)) [
    | inl e ↦ rw (e, on_entry)
    | inr (v, e) ↦ rw (e, on_entry) (is_some-modify name j (method v).1 spaces v e)
  ]

  pub on_space-some :
      {A : Type 0} (name : Bytes) (method : V → Outcome A × V) (spaces : Dict Bytes V) (a : A)
      → (on_space name method spaces).0 ≡ ok a
      → is_some (Dict.lookup name spaces) ≡ true
  unfolding on_space on_entry
  on_space-some name method spaces a h = elim (Option-cases (Dict.lookup name spaces)) [
    | inl e ↦ let g = rw (e, on_entry) at h in cc
    | inr (v, e) ↦ rw e
  ]

module _ {V S : Type 0} where
  -- Every loaded collection exists, and its space is in the registry.
  abbrev pub Loaded : EdgeState V S → Type 0
  Loaded s =
      (name : Bytes)
      → already_load_collection name s ≡ true
      → (has_collection name s && is_some (Dict.lookup name s.spaces)) ≡ true

  -- and so is the space of this collection
  abbrev pub LoadedWith : Bytes → EdgeState V S → Type 0
  LoadedWith name s = Loaded s × (is_some (Dict.lookup name s.spaces) ≡ true)

  -- and this collection is not loaded
  abbrev pub LoadedWithout : Bytes → EdgeState V S → Type 0
  LoadedWithout name s = Loaded s × (already_load_collection name s ≡ false)

  pub new_authorization_bucket-Loaded :
      (name : Bytes) (s : EdgeState V S)
      → LoadedWith name s
      → Loaded (new_authorization_bucket name s)
  unfolding has_collection already_load_collection new_authorization_bucket
  new_authorization_bucket-Loaded name s (h, present) j l = ground (
    arith,
    h j,
    Dict.lookup-insert name j true s.exists,
    Dict.lookup-insert name j true s.load,
    Dict.lookup-beq name j s.spaces,
  )

  pub eliminate_bucket_memory-Loaded :
      (name : Bytes) (s : EdgeState V S)
      → Loaded s
      → LoadedWithout name (eliminate_bucket_memory name s)
  unfolding has_collection already_load_collection eliminate_bucket_memory
  eliminate_bucket_memory-Loaded name s h = (
    λ j l. ground (arith, h j, Dict.lookup-remove name j s.load),
    ground (arith, Dict.lookup-remove name name s.load, bytes_eq_refl name),
  )

  pub destroy_bucket-Loaded :
      (name : Bytes) (s : EdgeState V S) → Loaded s → LoadedWithout name (destroy_bucket name s)
  unfolding has_collection already_load_collection destroy_bucket
  destroy_bucket-Loaded name s h = (
    λ j l.
        ground (arith, h j, Dict.lookup-remove name j s.load, Dict.lookup-remove name j s.exists),
    ground (arith, Dict.lookup-remove name name s.load, bytes_eq_refl name),
  )

  pub destroys_space-Loaded :
      (name : Bytes) (s : EdgeState V S) → LoadedWithout name s → Loaded (destroys_space name s)
  unfolding has_collection already_load_collection destroy_space
  destroys_space-Loaded name s (h, away) j l =
      ground (arith, h j, Dict.lookup-remove name j s.spaces, Dict.lookup-beq name j s.load)

  -- A change of the registry that drops no name.
  pub spaces-Loaded :
      (spaces : Dict Bytes V) (s : EdgeState V S)
      → Loaded s
      → ((j : Bytes)
          → is_some (Dict.lookup j s.spaces) ≡ true
          → is_some (Dict.lookup j spaces) ≡ true)
      → Loaded (record s { spaces = spaces })
  unfolding has_collection already_load_collection
  spaces-Loaded spaces s h k j l = let a = h j l in let b = k j in ground arith

  pub storage-Loaded : (x : S) (s : EdgeState V S) → Loaded s → Loaded (record s { storage = x })
  unfolding has_collection already_load_collection
  storage-Loaded x s h j l = h j l
