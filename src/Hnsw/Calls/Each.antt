-- ===== src/Hnsw/Calls/Each.antt =====
-- Each call keeps the contract.
use coltt.Prelude.{
  Bool, true, all, ◌<◌, ℕ, ◌≡◌, refl, ap, ◌∙◌, sym, inl, inr, none, some, List, [], length, ◌+◌,
  ◌≤◌, get_or-replicate, arith, ◌==◌, ==_iff, Bool-cases, Option-cases, if◌then◌else◌,
}
use coltt.Prelude.Dict
use coltt.Prelude.Dict.{Dict, nat_key}
use coltt.Prelude.Float.{Floats}
use coltt.Prelude.Outcome.{ok}
use coltt.Edge.Space.{Vector, DistanceSpace, normalized}
use coltt.Inverted.Index.{Metadata}
use coltt.Hnsw.{Distances, Hnsw, HnswOption, Ref, vertex_at, get_vertex, new_hnsw, shard_of}
use coltt.Hnsw.Shape.{IsWell}
use coltt.Hnsw.Shape.Shards.{new_hnsw-IsWell}
use coltt.Hnsw.Change.Link.{Meets}
use coltt.Hnsw.Change.Insert.{Inserted, insert-exists, insert-Inserted}
use coltt.Hnsw.Change.Remove.{Removed, remove-missing, remove-Removed}
use coltt.Hnsw.Calls.{
  takes, AnyTwo, Call, insertion, removal, Stored, stored_of, stored_at, get, carry_on, expected,
  call, Refines,
}

pub new-Refines :
    (dim : ℕ) (kind : DistanceSpace) (options : List HnswOption)
    → Refines kind [] (new_hnsw dim kind options)
unfolding new_hnsw get get_vertex Dict.lookup
new-Refines dim kind options = record {
  well = new_hnsw-IsWell dim kind options;
  kind_same = refl;
  same = λ id.
      ap (λ m. stored_at (new_hnsw dim kind options) (Dict.lookup id m))
        (get_or-replicate {A = Dict ℕ Ref} 16 (shard_of id) []);
}

module _ (h : Hnsw) (w : IsWell h) (id : ℕ) where
  get-Inserted :
      (vector : Vector) (metadata : Metadata) (g : Hnsw)
      → Inserted h id vector metadata g
      → (j : ℕ)
      → get j g
        ≡ (if id == j then some (record { vector = vector; metadata = metadata }) else get j h)
  unfolding get
  get-Inserted vector metadata g v j = elim (Bool-cases (id == j)) [
    | inl same ↦ rw (v.got j, same, v.vector_same, v.metadata_same) refl
    | inr other ↦
        rw (v.got j, other)
          (elim (Option-cases (get_vertex j h)) [
            | inl nothing ↦ rw nothing refl
            | inr (r, here) ↦
                rw here (ap (λ x. some (stored_of x)) (v.others r (w.stored j r here).0))
          ])
  ]

  get-Removed :
      (r : Ref) (g : Hnsw)
      → get_vertex id h ≡ some r
      → Removed h id r g
      → (j : ℕ) → get j g ≡ (if id == j then none else get j h)
  unfolding get
  get-Removed r g old v j = elim (Bool-cases (id == j)) [
    | inl same ↦ rw (v.got j, same) refl
    | inr other ↦
        rw (v.got j, other)
          (elim (Option-cases (get_vertex j h)) [
            | inl nothing ↦ rw nothing refl
            | inr (s, here) ↦ rw here (
                ap (λ x. some (stored_of x))
                  (v.others s (ground (arith, w.stored j s here, w.stored id r old))))
          ])
  ]

-- The vector of every vertex is in the set.
abbrev pub Fits : (Vector → Bool) → Hnsw → Type 0
Fits fit h = (r : Ref) → r < length h.store → fit (vertex_at h r).vector ≡ true

Inserted-Fits :
    (fit : Vector → Bool) (h : Hnsw) (id : ℕ) (vector : Vector) (metadata : Metadata) (g : Hnsw)
    → Inserted h id vector metadata g
    → fit vector ≡ true
    → Fits fit h
    → Fits fit g
Inserted-Fits fit h id vector metadata g v good all r inside =
    let size = v.size in
    elim (Bool-cases (length h.store == r)) [
      | inl new ↦
          let e = (==_iff (length h.store) r).0 new in
          ap (λ x. fit (vertex_at g x).vector) (sym e) ∙ ap fit v.vector_same ∙ good
      | inr old ↦
          let before : r < length h.store = ground arith in
          ap (λ x. fit x.vector) (v.others r before) ∙ all r before
    ]

Removed-Fits :
    (fit : Vector → Bool) (h : Hnsw) (id : ℕ) (x : Ref) (g : Hnsw)
    → Removed h id x g
    → Fits fit h
    → Fits fit g
Removed-Fits fit h id x g v all r inside =
    let size = v.size in ap fit (v.vectors r) ∙ all r (omega arith)

module _ ⦃floats : Floats⦄ ⦃space : Distances⦄ (fit : Vector → Bool) (two : AnyTwo fit) where
  abbrev pub Does : DistanceSpace → Dict ℕ Stored → Hnsw → Call → Type 0
  Does kind m h c =
      (g : Hnsw) × (carry_on h (call c h) ≡ ok g)
      × (length g.store ≤ length h.store + 1)
      × Fits fit g
      × Refines kind (expected kind c m) g

  module _ (h : Hnsw) (kind : DistanceSpace) (m : Dict ℕ Stored) (v : Refines kind m h)
      (fits : Fits fit h) (id : ℕ) where
    absent : get_vertex id h ≡ none → Dict.lookup id m ≡ none
    unfolding get
    absent e = sym (v.same id) ∙ ap (stored_at h) e

    present :
        (r : Ref) → get_vertex id h ≡ some r → Dict.lookup id m ≡ some (stored_of (vertex_at h r))
    unfolding get
    present r e = sym (v.same id) ∙ ap (stored_at h) e

    meets : (vector : Vector) → fit vector ≡ true → Meets h vector
    meets vector good = record {
      near = λ r in_r s in_s. two _ _ (fits r in_r) (fits s in_s);
      ahead = λ r in_r. two _ _ good (fits r in_r);
      back = λ r in_r. two _ _ (fits r in_r) good;
      self = two vector vector good good;
    }

    insertion-Does :
        (value : Vector) (metadata : Metadata) (level : ℕ)
        → fit (normalized kind value) ≡ true
        → Does kind m h (insertion id value metadata level)
    unfolding call expected
    insertion-Does value metadata level good = elim (Option-cases (get_vertex id h)) [
      | inl fresh ↦
          let in_set : fit (normalized h.distancer value) ≡ true =
            ap (λ d. fit (normalized d value)) v.kind_same ∙ good in
          let (g, e, i) = insert-Inserted h v.well id value metadata level (meets _ in_set) fresh in
          let new = λ (d : DistanceSpace).
            let s : Stored = record { vector = normalized d value; metadata = metadata } in s in
          (
            g,
            ap (carry_on h) e,
            i.size,
            Inserted-Fits fit h id _ metadata g i in_set fits,
            record {
              well = i.well;
              kind_same = i.kind ∙ v.kind_same;
              same = λ j.
                  get-Inserted h v.well id _ metadata g i j
                  ∙ (rw (absent fresh, v.same j, ← v.kind_same)
                      (sym (Dict.lookup-insert id j (new h.distancer) m)));
            },
          )
      | inr (r, here) ↦ (
        h,
        ap (carry_on h) (insert-exists h v.well id value metadata level r here),
        omega arith,
        fits,
        rw (present r here) v,
      )
    ]

    removal-Does : Does kind m h (removal id)
    unfolding call expected
    removal-Does = elim (Option-cases (get_vertex id h)) [
      | inl fresh ↦ (
        h,
        ap (carry_on h) (remove-missing h v.well id fresh),
        omega arith,
        fits,
        record {
          well = v.well;
          kind_same = v.kind_same;
          same =
              λ j. ground (arith, Dict.lookup-remove id j m, v.same j, absent fresh, ==_iff id j);
        },
      )
      | inr (r, here) ↦
          let (g, e, i) = remove-Removed h v.well id r here in
          (
            g,
            ap (carry_on h) e,
            (let size = i.size in omega arith),
            Removed-Fits fit h id r g i fits,
            record {
              well = i.well;
              kind_same = i.kind ∙ v.kind_same;
              same = λ j.
                  get-Removed h v.well id r g here i j
                  ∙ (rw (v.same j) (sym (Dict.lookup-remove id j m)));
            },
          )
    ]

  pub call-Does :
      (c : Call) (h : Hnsw) (kind : DistanceSpace) (m : Dict ℕ Stored)
      → Refines kind m h
      → Fits fit h
      → takes kind fit c ≡ true
      → Does kind m h c
  call-Does (insertion id value metadata level) h kind m v fits good =
      insertion-Does h kind m v fits id value metadata level good
  call-Does (removal id) h kind m v fits good = removal-Does h kind m v fits id
