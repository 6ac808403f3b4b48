-- ===== src/Hnsw/Shape/Edges.antt =====
-- The writes to edge sets keep the shape.
use coltt.Prelude.{
  ℕ, ◌+◌, ◌<◌, ◌≡◌, refl, ◌∙◌, true, [], ◌∷◌, length, set, get_or-set, length-set, arith, ltb, ◌==◌,
  ==_iff, Bool-cases, inl, inr, if◌then◌else◌,
}
use coltt.Prelude.Count.{count}
use coltt.Prelude.Dict
use coltt.Prelude.Dict.{Dict, nat_key}
use coltt.Prelude.Outcome.{Outcome, ok, ◌>>=◌}
use coltt.Edge.Heap.Order.{AllGood}
use coltt.Hnsw.{
  Hnsw, HnswEdgeSet, Ref, vertex_at, blank, edges_of, put_edges, set_edges, add_edge, remove_edge,
}
use coltt.Hnsw.Shape.{
  reaches, edges_at, leads, IsWell, Keeps, Keeps-trans, Keeps-refl, Keeps-reaches, Keeps-IsWell,
  AllGood-weaken,
}

-- The same vertices, in the shape.
pub record Next (g h : Hnsw) : Type 0 where
  pub keeps : Keeps g h
  pub well : IsWell h

-- The call returns, with the same vertices in the shape.
abbrev pub Does : Hnsw → Outcome Hnsw → Type 0
Does g o = (h : Hnsw) × (o ≡ ok h) × Next g h

pub Next-trans : (f g h : Hnsw) → Next f g → Next g h → Next f h
Next-trans f g h u v = record { keeps = Keeps-trans f g h u.keeps v.keeps; well = v.well }

pub Next-refl : (h : Hnsw) → IsWell h → Next h h
Next-refl h w = record { keeps = Keeps-refl h; well = w }

pub Next-reaches :
    {g h : Hnsw}
    → Next g h
    → (level : ℕ) (r : Ref) → reaches g level r ≡ true
    → reaches h level r ≡ true
Next-reaches n level r e = Keeps-reaches n.keeps level r ∙ e

pub Next-AllGood :
    {g h : Hnsw}
    → Next g h
    → (level : ℕ) (edges : HnswEdgeSet) → AllGood (leads g level) edges
    → AllGood (leads h level) edges
Next-AllGood n level edges good = AllGood-weaken _ _ edges (λ e. Next-reaches n level e.0) good

-- One call after another.
pub Does-bind :
    {f g : Hnsw} (o : Outcome Hnsw) (next : Hnsw → Outcome Hnsw)
    → o ≡ ok g
    → Next f g
    → Does g (next g)
    → Does f (o >>= next)
Does-bind {f} {g} o next e n (h, e', n') = (h, rw e e', Next-trans f g h n n')

module _ (h : Hnsw) (level : ℕ) (other : Ref) where
  pub insert-AllGood :
      (d : ℕ) (edges : HnswEdgeSet)
      → reaches h level other ≡ true
      → AllGood (leads h level) edges
      → AllGood (leads h level) (Dict.insert other d edges)
  unfolding Dict.insert count
  insert-AllGood d [] e good = rw e refl
  insert-AllGood d ((s, c) ∷ edges) e good = ground (arith, insert-AllGood d edges e)

  pub remove-AllGood :
      (edges : HnswEdgeSet)
      → AllGood (leads h level) edges
      → AllGood (leads h level) (Dict.remove other edges)
  unfolding Dict.remove count
  remove-AllGood [] good = refl
  remove-AllGood ((s, c) ∷ edges) good = ground (arith, remove-AllGood edges)

module _ (h : Hnsw) (w : IsWell h) (r : Ref) (level : ℕ) (on : reaches h level r ≡ true) where
  pub edges_of-ok : edges_of (vertex_at h r) level ≡ ok (edges_at h r level)
  unfolding edges_of
  edges_of-ok =
      let inside : ltb level (length (vertex_at h r).edges) ≡ true = ground (arith, w.sized r) in
      rw inside refl

  module _ (edges : HnswEdgeSet) where
    vertex_at-put :
        (s : Ref)
        → vertex_at (put_edges r level edges h) s ≡ (
            if r == s
            then record (vertex_at h r) { edges = set (vertex_at h r).edges level edges }
            else vertex_at h s)
    unfolding put_edges
    vertex_at-put s = get_or-set h.store r s _ blank (ground arith)

    put_edges-Keeps : Keeps h (put_edges r level edges h)
    unfolding put_edges
    put_edges-Keeps = record {
      size = length-set h.store r _;
      vertex = λ s. elim (Bool-cases (r == s)) [
        | inl e ↦ rw (vertex_at-put s, e, (==_iff r s).0 e) refl
        | inr e ↦ rw (vertex_at-put s, e) refl
      ];
      rest = refl;
    }

    put_edges-sized :
        (s : Ref)
        → length (vertex_at (put_edges r level edges h) s).edges
          ≡ (vertex_at (put_edges r level edges h) s).level + 1
    put_edges-sized s = elim (Bool-cases (r == s)) [
      | inl e ↦ rw (vertex_at-put s, e) (length-set (vertex_at h r).edges level edges ∙ w.sized r)
      | inr e ↦ rw (vertex_at-put s, e) (w.sized s)
    ]

    put_edges-targets :
        AllGood (leads h level) edges
        → (s : Ref) (l : ℕ) → AllGood (leads h l) (edges_at (put_edges r level edges h) s l)
    put_edges-targets good s l = elim (Bool-cases (r == s)) [
      | inl e ↦
          let inside : level < length (vertex_at h r).edges = ground (arith, w.sized r) in
          let at = get_or-set (vertex_at h r).edges level l edges [] inside in
          rw (vertex_at-put s, e, at)
            (elim (Bool-cases (level == l)) [
              | inl same ↦ rw (same, ← (==_iff level l).0 same) good
              | inr other ↦ rw other (w.targets r l)
            ])
      | inr e ↦ rw (vertex_at-put s, e) (w.targets s l)
    ]

    put_edges-Next : AllGood (leads h level) edges → Next h (put_edges r level edges h)
    put_edges-Next good = record {
      keeps = put_edges-Keeps;
      well = Keeps-IsWell put_edges-Keeps w put_edges-sized (put_edges-targets good);
    }

    pub set_edges-Does : AllGood (leads h level) edges → Does h (set_edges r level edges h)
    unfolding set_edges
    set_edges-Does good = (put_edges r level edges h, rw edges_of-ok refl, put_edges-Next good)

  module _ (other : Ref) where
    pub add_edge-Does : (d : ℕ) → reaches h level other ≡ true → Does h (add_edge r level other d h)
    unfolding add_edge
    add_edge-Does d e =
        let edges = Dict.insert other d (edges_at h r level) in
        (
          put_edges r level edges h,
          rw edges_of-ok refl,
          put_edges-Next edges
              (insert-AllGood h level other d (edges_at h r level) e (w.targets r level)),
        )

    pub remove_edge-Does : Does h (remove_edge r level other h)
    unfolding remove_edge
    remove_edge-Does =
        let edges = Dict.remove other (edges_at h r level) in
        (
          put_edges r level edges h,
          rw edges_of-ok refl,
          put_edges-Next edges
              (remove-AllGood h level other (edges_at h r level) (w.targets r level)),
        )
