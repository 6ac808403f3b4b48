-- ===== src/Edge/Collections/Refines/Allows.antt =====
-- The handlers and the life cycle of a collection.
use coltt.Prelude.{◌≡◌, refl, true, false, inl, inr, Bool-cases}
use coltt.Prelude.Bytes.{Bytes, bytes_eq}
use coltt.Prelude.Dict
use coltt.Prelude.Dict.{Dict, bytes_key}
use coltt.Edge.Storage.{Storage, Json}
use coltt.Edge.Vectorstore.{Vectorspace}
use coltt.Edge.Collections.{
  ◌>>=◌, modifies, EdgeState, has_collection, already_load_collection, eliminate_bucket_memory,
  destroy_bucket, destroys_space, on_storage, save_collection,
}
use coltt.Edge.Collections.Handlers.{
  Collection, create_collection, creation_steps, delete_collection, collection_detail,
  load_collection, loading_steps, release_collection, release_steps,
}
use coltt.Edge.Collections.Quiet.{
  reads-Quiet, modifies-Quiet, bind-Quiet, save_collection-Quiet, continue-Marks,
}
use coltt.Edge.Collections.Requests.{creates, deletes, loads, releases}
use coltt.Edge.Collections.Phases.{Phase, absent, stored, loaded, phase, Allowed}
use coltt.Edge.Collections.Refines.{
  after_creation-Marks, creation_steps-Marks, loading_steps-Marks, bucket_life_cycle_job-Quiet,
}
use coltt.Edge.Collections.Refines.Shifts.{
  Goes, phase-Marked, phase-Cleared, phase-released, other-Marked, other-Cleared, absent_lem,
  phase_lem, Goes-Marks, Goes-to, continue-Marked, other_released,
}

creates_Allowed : (req : Collection) (p : Phase) → Allowed (creates req) p p
creates_Allowed req absent = inl refl
creates_Allowed req stored = refl
creates_Allowed req loaded = refl

loads_Allowed : (name : Bytes) (p : Phase) → Allowed (loads name) p p
loads_Allowed name absent = refl
loads_Allowed name stored = inl refl
loads_Allowed name loaded = refl

module _ {V S : Type 0} ⦃storage : Storage S⦄ ⦃vectorspace : Vectorspace V⦄ (other : Bytes)
    (s : EdgeState V S) where
  pub create_collection-Goes :
      (req : Collection)
      → bytes_eq req.collection_name other ≡ false
      → Goes (creates req) other s (create_collection req s).1
  unfolding create_collection
  create_collection-Goes req apart =
      let name = req.collection_name in
      elim (Bool-cases (has_collection name s)) [
        | inl has ↦ rw has (Goes-Marks (creates req) other s s (creates_Allowed req) (refl, refl))
        | inr away ↦ rw away (
            let x = creation_steps req s in
            elim (after_creation-Marks req s x ((creation_steps-Marks req s).run s (refl, refl))) [
              | inl h ↦ Goes-Marks (creates req) other s _ (creates_Allowed req) h
              | inr (inl h) ↦
                  Goes-to (creates req) other s _ absent loaded (absent_lem name s away)
                    (phase-Marked name s _ h) (inr refl) (other-Marked name other apart s _ h)
              | inr (inr h) ↦
                  Goes-to (creates req) other s _ absent absent (absent_lem name s away)
                    (phase-Cleared name s _ h) (inl refl) (other-Cleared name other apart s _ h)
            ])
      ]

  pub delete_collection-Goes :
      (name : Bytes)
      → bytes_eq name other ≡ false
      → Goes (deletes name) other s (delete_collection name s).1
  unfolding delete_collection ◌>>=◌ modifies destroy_bucket on_storage
  delete_collection-Goes name apart = elim (Bool-cases (has_collection name s)) [
    | inl has ↦ rw has (
        Goes-to (deletes name) other s _ (phase name s) absent refl
          (phase-Cleared name s _ (refl, refl)) refl
          (other-Cleared name other apart s _ (refl, refl)))
    | inr away ↦ rw away (
        Goes-to (deletes name) other s s (phase name s) absent refl (absent_lem name s away) refl
          refl)
  ]

  pub release_collection-Goes :
      (name : Bytes)
      → bytes_eq name other ≡ false
      → Goes (releases name) other s (release_collection name s).1
  unfolding release_collection release_steps ◌>>=◌ modifies eliminate_bucket_memory
  release_collection-Goes name apart = elim (Bool-cases (has_collection name s)) [
    | inr away ↦ rw away (
        let e = absent_lem name s away in
        Goes-to (releases name) other s s absent absent e e refl refl)
    | inl has ↦ elim (Bool-cases (already_load_collection name s)) [
      | inr no_load ↦
          rw (has, no_load)
            (let e = phase_lem name s false has no_load in
              Goes-to (releases name) other s s stored stored e e refl refl)
      | inl load ↦
          rw (has, load)
            (let m =
                continue-Marks s.exists (Dict.remove name s.load)
                  (save_collection name (eliminate_bucket_memory name s)) _
                  ((save_collection-Quiet name).same (eliminate_bucket_memory name s))
                  (λ _. modifies-Quiet (destroys_space name) (λ t. (refl, refl))) in
              Goes-to (releases name) other s _ loaded stored (phase_lem name s true has load)
                (phase-released name s _ has m) refl (other_released name other apart s _ m))
    ]
  ]

  module _ ⦃json : Json⦄ where
    pub load_collection-Goes :
        (name : Bytes)
        → bytes_eq name other ≡ false
        → Goes (loads name) other s (load_collection name s).1
    unfolding load_collection ◌>>=◌ collection_detail
    load_collection-Goes name apart = elim (Bool-cases (has_collection name s)) [
      | inr away ↦ rw away (
          let e = absent_lem name s away in
          Goes-to (loads name) other s s absent absent e e refl refl)
      | inl has ↦ elim (Bool-cases (already_load_collection name s)) [
        | inl load ↦
            rw (has, load)
              (let e = phase_lem name s true has load in
                Goes-Marks (loads name) other s _ (loads_Allowed name) ((reads-Quiet _).same s))
        | inr no_load ↦
            rw (has, no_load)
              (elim (continue-Marked name s (loading_steps name s) _
                ((loading_steps-Marks name s).run s (refl, refl))
                (λ _. bind-Quiet _ _ (bucket_life_cycle_job-Quiet name) λ _. reads-Quiet _)) [
                  | inl h ↦ Goes-Marks (loads name) other s _ (loads_Allowed name) h
                  | inr h ↦
                      Goes-to (loads name) other s _ stored loaded
                        (phase_lem name s false has no_load) (phase-Marked name s _ h) (inr refl)
                        (other-Marked name other apart s _ h)
                ])
      ]
    ]
