-- ===== src/Edge/Collections/Refines/Shifts.antt =====
-- What a change of the marks does to the phase of a collection.
use coltt.Prelude.{◌≡◌, refl, sym, subst, Bool, true, false, ◌⊎◌, inl, inr}
use coltt.Prelude.Bytes.{Bytes, bytes_eq, bytes_eq_refl}
use coltt.Prelude.Dict
use coltt.Prelude.Dict.{Dict, bytes_key}
use coltt.Prelude.Outcome.{Outcome, ok, err, panic, continue}
use coltt.Edge.Collections.{Action, EdgeState, has_collection, already_load_collection}
use coltt.Edge.Collections.Triple.{Ends}
use coltt.Edge.Collections.Quiet.{Marks, Quiet, continue-Marks}
use coltt.Edge.Collections.Requests.{Request}
use coltt.Edge.Collections.Phases.{Phase, absent, stored, loaded, phase_of, phase, name_of, Allowed}
use coltt.Edge.Collections.Refines.{Marked, Cleared}

module _ {V S : Type 0} where
  -- From `s` to `t`, the collection of the request moves as allowed, and another stays.
  abbrev pub Goes : Request → Bytes → EdgeState V S → EdgeState V S → Type 0
  Goes r other s t =
      Allowed r (phase (name_of r) s) (phase (name_of r) t) × (phase other t ≡ phase other s)

  pub phase-Marks :
      (j : Bytes) (s t : EdgeState V S) → Marks s.exists s.load t → phase j t ≡ phase j s
  unfolding phase has_collection already_load_collection
  phase-Marks j s t (e, l) = rw (e, l) refl

  pub phase-Marked : (name : Bytes) (s t : EdgeState V S) → Marked name s t → phase name t ≡ loaded
  unfolding phase has_collection already_load_collection
  phase-Marked name s t (e, l) =
      rw
        (
          e,
          l,
          Dict.lookup-insert name name true s.exists,
          Dict.lookup-insert name name true s.load,
          bytes_eq_refl name,
        )
        refl

  pub phase-Cleared :
      (name : Bytes) (s t : EdgeState V S) → Cleared name s t → phase name t ≡ absent
  unfolding phase has_collection already_load_collection
  phase-Cleared name s t (e, l) =
      rw (e, l, Dict.lookup-remove name name s.exists, bytes_eq_refl name) refl

  pub phase-released :
      (name : Bytes) (s t : EdgeState V S)
      → has_collection name s ≡ true
      → Marks s.exists (Dict.remove name s.load) t
      → phase name t ≡ stored
  unfolding phase has_collection already_load_collection
  phase-released name s t has (e, l) =
      rw (e, l, Dict.lookup-remove name name s.load, bytes_eq_refl name, has) refl

  module _ (name other : Bytes) (apart : bytes_eq name other ≡ false) (s t : EdgeState V S) where
    pub other-Marked : Marked name s t → phase other t ≡ phase other s
    unfolding phase has_collection already_load_collection
    other-Marked (e, l) =
        rw
          (
            e,
            l,
            Dict.lookup-insert name other true s.exists,
            Dict.lookup-insert name other true s.load,
            apart,
          )
          refl

    pub other-Cleared : Cleared name s t → phase other t ≡ phase other s
    unfolding phase has_collection already_load_collection
    other-Cleared (e, l) =
        rw
          (
            e,
            l,
            Dict.lookup-remove name other s.exists,
            Dict.lookup-remove name other s.load,
            apart,
          )
          refl

    pub other_released : Marks s.exists (Dict.remove name s.load) t → phase other t ≡ phase other s
    unfolding phase has_collection already_load_collection
    other_released (e, l) = rw (e, l, Dict.lookup-remove name other s.load, apart) refl

  pub absent_lem :
      (name : Bytes) (s : EdgeState V S) → has_collection name s ≡ false → phase name s ≡ absent
  unfolding phase
  absent_lem name s has = rw has refl

  pub phase_lem :
      (name : Bytes) (s : EdgeState V S) (l : Bool)
      → has_collection name s ≡ true
      → already_load_collection name s ≡ l
      → phase name s ≡ phase_of true l
  unfolding phase
  phase_lem name s l has e = rw (has, e) refl

  pub Goes-Marks :
      (r : Request) (other : Bytes) (s t : EdgeState V S)
      → ((p : Phase) → Allowed r p p)
      → Marks s.exists s.load t
      → Goes r other s t
  Goes-Marks r other s t a h = (
    subst (λ q. Allowed r (phase (name_of r) s) q) (sym (phase-Marks (name_of r) s t h))
        (a (phase (name_of r) s)),
    phase-Marks other s t h,
  )

  pub Goes-to :
      (r : Request) (other : Bytes) (s t : EdgeState V S) (p q : Phase)
      → phase (name_of r) s ≡ p
      → phase (name_of r) t ≡ q
      → Allowed r p q
      → phase other t ≡ phase other s
      → Goes r other s t
  Goes-to r other s t p q e f a o = (
    subst (λ p'. Allowed r p' (phase (name_of r) t)) (sym e)
        (subst (λ q'. Allowed r p q') (sym f) a),
    o,
  )

  pub continue-Marked :
      {A B : Type 0} (name : Bytes) (s : EdgeState V S) (x : Outcome A × EdgeState V S)
      (f : A → Action (EdgeState V S) B)
      → Ends (Marks s.exists s.load) (Marked name s) x
      → ((a : A) → Quiet (f a))
      → Marks s.exists s.load (continue x f).1 ⊎ Marked name s (continue x f).1
  continue-Marked name s (ok a, t) f h q = inr (
      continue-Marks (Dict.insert name true s.exists) (Dict.insert name true s.load) (ok a, t) f h
        q)
  continue-Marked name s (err e, t) f h q = inl h
  continue-Marked name s (panic, t) f h q = inl h
