-- ===== src/Hnsw/Shape/Shards.antt =====
-- Storing and removing a vertex keep the shape.
use coltt.Prelude.{
  ℕ, ◌+◌, ◌<◌, ◌≡◌, refl, ap, ◌∙◌, true, false, none, some, List, [], ◌∷◌, length, length-append,
  length-set, length-replicate, get_or, get_or-set, get_or-append, get_or-replicate, arith, ◌==◌,
  ==_iff, Bool-cases, inl, inr, if◌then◌else◌,
}
use coltt.Prelude.Count.{count}
use coltt.Prelude.Dict
use coltt.Prelude.Dict.{Dict, nat_key}
use coltt.Edge.Heap.Order.{AllGood}
use coltt.Edge.Sharding.{shard_vertex-lt}
use coltt.Edge.Space.{Vector, DistanceSpace}
use coltt.Inverted.Index.{Metadata}
use coltt.Hnsw.{
  Hnsw, HnswOption, HnswVertex, HnswEdgeSet, Ref, vertex_at, blank, shard_of, get_vertex,
  new_hnsw_vertex, set_deleted, new_hnsw,
}
use coltt.Hnsw.Shape.{reaches, edges_at, leads, IsWell, AllGood-weaken}
use coltt.Hnsw.Change.{with_vertex, without_vertex}

-- Nothing is stored in a new index.
pub new_hnsw-IsWell :
    (dim : ℕ) (distancer : DistanceSpace) (options : List HnswOption)
    → IsWell (new_hnsw dim distancer options)
unfolding new_hnsw get_vertex Dict.lookup count
new_hnsw-IsWell dim distancer options = record {
  sized = λ r. refl;
  targets = λ r level. rw (get_or-replicate {A = HnswEdgeSet} 1 level []) refl;
  entry = λ r e. cc;
  shards = refl;
  stored =
      λ id r e. cc (ap (Dict.lookup id) (get_or-replicate {A = Dict ℕ Ref} 16 (shard_of id) []));
  live = λ r inside flag. absurd (omega arith);
}

module _ (h : Hnsw) (w : IsWell h) (id : ℕ) (vector : Vector) (metadata : Metadata) (level : ℕ)
    (fresh : get_vertex id h ≡ none) where
  abbrev added : HnswVertex
  added = new_hnsw_vertex id vector metadata level

  abbrev after : Hnsw
  after = with_vertex added h

  pub get_vertex-with :
      (j : ℕ) → get_vertex j after ≡ (if id == j then some (length h.store) else get_vertex j h)
  unfolding with_vertex get_vertex
  get_vertex-with j =
      let here = shard_vertex-lt id 16 (omega arith) in
      let m = get_or h.vertices (shard_of id) [] in
      let shards = w.shards in
      ground (
        arith,
        here,
        get_or-set h.vertices (shard_of id) (shard_of j) (Dict.insert id (length h.store) m) [],
        Dict.lookup-insert id j (length h.store) m,
      )

  pub vertex_at-with :
      (r : Ref) → vertex_at after r ≡ (if length h.store == r then added else vertex_at h r)
  unfolding with_vertex
  vertex_at-with r = get_or-append h.store r added blank

  pub length-with : length after.store ≡ length h.store + 1
  unfolding with_vertex
  length-with = length-append h.store (added ∷ [])

  pub with_vertex-reaches : (l : ℕ) (r : Ref) → reaches h l r ≡ true → reaches after l r ≡ true
  with_vertex-reaches l r on =
      let other : (length h.store == r) ≡ false = ground arith in
      rw (vertex_at-with r, other, length-with) (ground arith)

  edges_at-new : (l : ℕ) → get_or added.edges l [] ≡ []
  edges_at-new l = get_or-replicate {A = HnswEdgeSet} (level + 1) l []

  with_vertex-targets : (r : Ref) (l : ℕ) → AllGood (leads after l) (edges_at after r l)
  unfolding count
  with_vertex-targets r l = elim (Bool-cases (length h.store == r)) [
    | inl new ↦ rw (vertex_at-with r, new, edges_at-new l) refl
    | inr old ↦
        rw (vertex_at-with r, old)
          (AllGood-weaken (leads h l) (leads after l) (edges_at h r l)
            (λ e. with_vertex-reaches l e.0) (w.targets r l))
  ]

  with_vertex-stored :
      (j : ℕ) (r : Ref)
      → get_vertex j after ≡ some r
      → (r < length after.store)
        × ((vertex_at after r).id ≡ j)
        × ((vertex_at after r).deleted ≡ false)
  with_vertex-stored j r e =
      ground (arith, vertex_at-with r, get_vertex-with j, length-with, w.stored j r)

  with_vertex-live :
      (r : Ref)
      → r < length after.store
      → (vertex_at after r).deleted ≡ false
      → get_vertex (vertex_at after r).id after ≡ some r
  with_vertex-live r inside flag = elim (Bool-cases (length h.store == r)) [
    | inl new ↦ rw (vertex_at-with r, new) (ground (arith, get_vertex-with id))
    | inr old ↦
        rw (vertex_at-with r, old)
          (let e = w.live r (ground (arith, length-with)) (rw (vertex_at-with r, old) at flag) in
            ground (arith, get_vertex-with (vertex_at h r).id))
  ]

  pub with_vertex-IsWell : IsWell after
  with_vertex-IsWell = record {
    sized = λ r. elim (Bool-cases (length h.store == r)) [
      | inl new ↦ rw (vertex_at-with r, new) (length-replicate (level + 1) [])
      | inr old ↦ rw (vertex_at-with r, old) (w.sized r)
    ];
    targets = with_vertex-targets;
    entry = λ r e. with_vertex-reaches 0 r (w.entry r (unfold with_vertex in e));
    shards = unfold with_vertex in length-set h.vertices (shard_of id) _ ∙ w.shards;
    stored = with_vertex-stored;
    live = with_vertex-live;
  }

module _ (h : Hnsw) (w : IsWell h) (id : ℕ) (r : Ref) (here : get_vertex id h ≡ some r) where
  abbrev left : Hnsw
  left = without_vertex id r h

  pub get_vertex-without : (j : ℕ) → get_vertex j left ≡ (if id == j then none else get_vertex j h)
  unfolding without_vertex set_deleted get_vertex
  get_vertex-without j =
      let inside = shard_vertex-lt id 16 (omega arith) in
      let m = get_or h.vertices (shard_of id) [] in
      let shards = w.shards in
      ground (
        arith,
        inside,
        get_or-set h.vertices (shard_of id) (shard_of j) (Dict.remove id m) [],
        Dict.lookup-remove id j m,
      )

  pub vertex_at-without :
      (s : Ref)
      → vertex_at left s
        ≡ (if r == s then record (vertex_at h r) { deleted = true } else vertex_at h s)
  unfolding without_vertex set_deleted
  vertex_at-without s = get_or-set h.store r s _ blank (w.stored id r here).0

  pub length-without : length left.store ≡ length h.store
  unfolding without_vertex set_deleted
  length-without = length-set h.store r _

  level-without : (s : Ref) → (vertex_at left s).level ≡ (vertex_at h s).level
  level-without s = elim (Bool-cases (r == s)) [
    | inl same ↦ rw (vertex_at-without s, same, (==_iff r s).0 same) refl
    | inr other ↦ rw (vertex_at-without s, other) refl
  ]

  edges-without : (s : Ref) → (vertex_at left s).edges ≡ (vertex_at h s).edges
  edges-without s = elim (Bool-cases (r == s)) [
    | inl same ↦ rw (vertex_at-without s, same, (==_iff r s).0 same) refl
    | inr other ↦ rw (vertex_at-without s, other) refl
  ]

  pub reaches-without : (l : ℕ) (s : Ref) → reaches left l s ≡ reaches h l s
  reaches-without l s = rw (length-without, level-without s) refl

  without_vertex-stored :
      (j : ℕ) (s : Ref)
      → get_vertex j left ≡ some s
      → (s < length left.store) × ((vertex_at left s).id ≡ j) × ((vertex_at left s).deleted ≡ false)
  without_vertex-stored j s e = ground (
    arith,
    vertex_at-without s,
    get_vertex-without j,
    length-without,
    w.stored j s,
    w.stored id r here,
  )

  without_vertex-live :
      (s : Ref)
      → s < length left.store
      → (vertex_at left s).deleted ≡ false
      → get_vertex (vertex_at left s).id left ≡ some s
  without_vertex-live s inside flag = elim (Bool-cases (r == s)) [
    | inl same ↦ let gone = rw (vertex_at-without s, same) at flag in cc
    | inr other ↦
        rw (vertex_at-without s, other)
          (let e =
              w.live s (omega (arith, length-without)) (rw (vertex_at-without s, other) at flag) in
            ground (arith, get_vertex-without (vertex_at h s).id, here))
  ]

  pub without_vertex-IsWell : IsWell left
  without_vertex-IsWell = record {
    sized = λ s. rw (level-without s, edges-without s) (w.sized s);
    targets = λ s l. rw (edges-without s) (
        AllGood-weaken (leads h l) (leads left l) (edges_at h s l)
          (λ e p. reaches-without l e.0 ∙ p) (w.targets s l));
    entry =
        λ s e. reaches-without 0 s ∙ w.entry s (unfold without_vertex in unfold set_deleted in e);
    shards =
        unfold without_vertex in
        unfold set_deleted in (length-set h.vertices (shard_of id) _ ∙ w.shards);
    stored = without_vertex-stored;
    live = without_vertex-live;
  }
