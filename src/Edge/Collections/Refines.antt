-- ===== src/Edge/Collections/Refines.antt =====
-- The handlers, and the marks of the collections that exist and are loaded.
pub mod Shifts
pub mod Allows
pub mod Moves
use coltt.Prelude.{
  ℕ, ◌≡◌, refl, ◌∙◌, ap, Bool, true, false, not, none, some, ◌⊎◌, inl, inr, Bool-cases, arith,
  if◌then◌else◌, ◌==◌,
}
use coltt.Prelude.Bytes.{Bytes, bytes_eq, bytes_eq_refl}
use coltt.Prelude.Dict
use coltt.Prelude.Dict.{Dict, bytes_key}
use coltt.Prelude.Float.{Floats}
use coltt.Prelude.Outcome.{Outcome, ok, err, panic, continue}
use coltt.Inverted.Filter.{FilterExpression, nil_expression, single, composite, empty}
use coltt.Inverted.Index.{Metadata}
use coltt.Edge.Storage.{Storage, Json}
use coltt.Edge.Vectorstore.{Vectorspace, on_space}
use coltt.Edge.Collections.{
  ◌>>=◌, ◌>>◌, Action, pure, reads, modifies, EdgeState, flag, has_collection,
  already_load_collection, new_authorization_bucket, eliminate_bucket_memory, destroy_bucket,
  destroys_space, on_spaces, on_storage, save_collection,
}
use coltt.Edge.Collections.Handlers.{
  Collection, create_collection, after_creation, creation_steps, clear_failed, set_versioning,
  delete_collection, get_collection, collection_detail, load_collection, loading_steps,
  release_collection, release_steps, flush, bucket_life_cycle_job, clean_if,
}
use coltt.Edge.Collections.Vertices.{
  IndexChange, SearchIndex, index, change_vertices, search, search_items, space_distance,
}
use coltt.Edge.Collections.Triple.{Ends, Triple, bind_lem, modifies_lem}
use coltt.Edge.Collections.Quiet.{
  Marks, Quiet, reads-Quiet, on_storage-Quiet, on_spaces-Quiet, modifies-Quiet, bind-Quiet,
  save_collection-Quiet, quiet_lem, after_lem, continue-Marks,
}
use coltt.Edge.Collections.Requests.{
  Request, creates, deletes, gets, loads, releases, flushes, changes, searches, handled,
}
use coltt.Edge.Collections.Phases.{Phase, absent, stored, loaded, phase_of, phase, name_of, Allowed}

module _ {V S : Type 0} where
  -- The collections that are marked after a call that sets, or clears, the marks of this one.
  abbrev pub Marked : Bytes → EdgeState V S → EdgeState V S → Type 0
  Marked name s = Marks (Dict.insert name true s.exists) (Dict.insert name true s.load)

  abbrev pub Cleared : Bytes → EdgeState V S → EdgeState V S → Type 0
  Cleared name s = Marks (Dict.remove name s.exists) (Dict.remove name s.load)

  marking :
      (name : Bytes) (s : EdgeState V S)
      → Triple
          (Marks s.exists s.load)
          (Marks s.exists s.load)
          (Marked name s)
          (modifies (new_authorization_bucket name))
  unfolding new_authorization_bucket
  marking name s =
      modifies_lem _ (Marks s.exists s.load) _ _
        (λ t h. (ap (Dict.insert name true) h.0, ap (Dict.insert name true) h.1))

  module _ ⦃storage : Storage S⦄ where
    set_versioning-Quiet :
        (name : Bytes) (versioning : Bool) → Quiet {V = V} {S = S} (set_versioning name versioning)
    unfolding set_versioning pure
    set_versioning-Quiet name true = on_storage-Quiet _
    set_versioning-Quiet name false = record { same = λ s. (refl, refl) }

    clean_if-Quiet : (name : Bytes) (r : Outcome Bool) → Quiet {V = V} {S = S} (clean_if name r)
    unfolding clean_if pure
    clean_if-Quiet name (ok true) = on_storage-Quiet _
    clean_if-Quiet name (ok false) = record { same = λ s. (refl, refl) }
    clean_if-Quiet name (err e) = record { same = λ s. (refl, refl) }
    clean_if-Quiet name panic = record { same = λ s. (refl, refl) }

    pub bucket_life_cycle_job-Quiet :
        (name : Bytes) → Quiet {V = V} {S = S} (bucket_life_cycle_job name)
    unfolding bucket_life_cycle_job
    bucket_life_cycle_job-Quiet name = record {
      same = λ s. (clean_if-Quiet name (storage.is_version_bucket name s.storage)).same s;
    }

    pub after_creation-Marks :
        (req : Collection) (s : EdgeState V S) (x : Outcome (Unit {0}) × EdgeState V S)
        → Ends (Marks s.exists s.load) (Marked req.collection_name s) x
        → let t = (after_creation req x).1 in
          Marks s.exists s.load t
          ⊎ (Marked req.collection_name s t ⊎ Cleared req.collection_name s t)
    unfolding after_creation clear_failed destroy_bucket
    after_creation-Marks req s (ok u, t) h = inr (inl h)
    after_creation-Marks req s (err e, t) h =
        inr
          (inr (ap (Dict.remove req.collection_name) h.0, ap (Dict.remove req.collection_name) h.1))
    after_creation-Marks req s (panic, t) h = inl h

    module _ ⦃vectorspace : Vectorspace V⦄ where
      pub creation_steps-Marks :
          (req : Collection) (s : EdgeState V S)
          → Triple
              (Marks s.exists s.load)
              (Marks s.exists s.load)
              (Marked req.collection_name s)
              (creation_steps req)
      unfolding creation_steps new_authorization_bucket
      creation_steps-Marks req s =
          let name = req.collection_name in
          after_lem (on_storage-Quiet _) λ _.
            after_lem (set_versioning-Quiet name req.versioning) λ _.
              after_lem (on_spaces-Quiet _)
                λ _. after_lem (save_collection-Quiet name) λ _. marking name s

      module _ ⦃json : Json⦄ where
        pub loading_steps-Marks :
            (name : Bytes) (s : EdgeState V S)
            → Triple
                (Marks s.exists s.load)
                (Marks s.exists s.load)
                (Marked name s)
                (loading_steps name)
        unfolding loading_steps new_authorization_bucket
        loading_steps-Marks name s = after_lem (reads-Quiet _) λ _. after_lem (reads-Quiet _) λ _.
            after_lem (modifies-Quiet _ (λ t. (refl, refl))) λ _. after_lem (on_spaces-Quiet _) λ _.
              after_lem (reads-Quiet _) λ _. after_lem (on_spaces-Quiet _) λ _.
                after_lem (reads-Quiet _) λ _. after_lem (on_spaces-Quiet _) λ _. marking name s
