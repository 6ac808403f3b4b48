-- ===== src/Hnsw/Change/Remove.antt =====
-- Remove keeps the shape, and takes the vertex out.
use coltt.Prelude.{
  ℕ, zero, suc, ◌+◌, ◌-◌, ◌%◌, ◌^◌, ◌≤◌, ◌≡◌, refl, ap, ◌∙◌, ◌⊎◌, inl, inr, true, false, Option,
  none, some, [], ◌∷◌, length, arith, ltb, ◌==◌, Bool-cases, if◌then◌else◌,
}
use coltt.Prelude.Count.{count}
use coltt.Prelude.Float.{float32_ltb}
use coltt.Prelude.Outcome.{Outcome, ok, err, item_not_found}
use coltt.Edge.Heap.Order.{AllGood}
use coltt.Hnsw.{Hnsw, HnswEdgeSet, Ref, vertex_at, get_vertex, set_deleted}
use coltt.Hnsw.Search.{Closest}
use coltt.Hnsw.Shape.{reaches, edges_at, leads, IsWell, bare, Keeps-level}
use coltt.Hnsw.Shape.Edges.{Does, Next-trans, Next-refl, edges_of-ok}
use coltt.Hnsw.Shape.Shards.{
  without_vertex-IsWell, vertex_at-without, get_vertex-without, length-without,
}
use coltt.Hnsw.Change.{
  max_float, nearest_edge, nearest_level, found_or, hand_over, replace_from, replace_entrypoint,
  m_max_at, unlink_levels, without_vertex, remove_vertex, remove,
}
use coltt.Hnsw.Change.Prune.{drop_edges-Does}
use coltt.Hnsw.Change.Insert.{entrypoint-IsWell}

found_or_cases :
    (next : Outcome Closest) (c : Closest) (top : Option Ref)
    → (found_or next c top ≡ next) ⊎ (found_or next c top ≡ ok c)
unfolding found_or
found_or_cases next c none = inl refl
found_or_cases next c (some r) = inr refl

module _ (h : Hnsw) (w : IsWell h) where
  -- The neighbor is a vertex, if there is one.
  abbrev Standing : Option Ref → Type 0
  Standing top = (r : Ref) → top ≡ some r → reaches h 0 r ≡ true

  nearest_edge-Standing :
      (level : ℕ) (edges : HnswEdgeSet) (c : Closest)
      → AllGood (leads h level) edges
      → Standing c.neighbor
      → Standing (nearest_edge edges c).neighbor
  unfolding nearest_edge count
  nearest_edge-Standing level [] c good on = on
  nearest_edge-Standing level ((r, d) ∷ edges) c good on =
      elim (Bool-cases (float32_ltb d c.min_distance)) [
        | inl less ↦
            let next : Closest = record { neighbor = some r; min_distance = d } in
            let lead : reaches h 0 r ≡ true = ground arith in
            rw (less, nearest_edge)
              (nearest_edge-Standing level edges next (omega arith) (λ s e. cc))
        | inr more ↦ rw (more, nearest_edge) (nearest_edge-Standing level edges c (omega arith) on)
      ]

  module _ (v : Ref) (stored : ltb v (length h.store) ≡ true) where
    nearest_level-Standing :
        (n : ℕ) (c : Closest)
        → n ≤ (vertex_at h v).level + 1
        → Standing c.neighbor
        → (c' : Closest) × (nearest_level n (vertex_at h v) c ≡ ok c') × Standing c'.neighbor
    unfolding nearest_level
    nearest_level-Standing zero c top on = (c, refl, on)
    nearest_level-Standing (suc n) c top on =
        let edges = edges_at h v n in
        let c' = nearest_edge edges c in
        let on' = nearest_edge-Standing n edges c (w.targets v n) on in
        rw (edges_of-ok h w v n (ground arith))
          (elim (found_or_cases (nearest_level n (vertex_at h v) c') c' c'.neighbor) [
            | inl next ↦
                let (c'', e, s) = nearest_level-Standing n c' (omega arith) on' in
                (c'', next ∙ e, s)
            | inr stop ↦ (c', stop, on')
          ])

  -- The vertex that takes over is one, if there is one.
  replace_from-IsWell :
      (top : Option Ref) (r : Ref)
      → Standing top
      → ltb r (length h.store) ≡ true
      → h.entrypoint ≡ top
      → (g : Hnsw) × (replace_from top r h ≡ ok g)
        × IsWell g
        × ((next : Option Ref) × (g ≡ record h { entrypoint = next }))
  unfolding replace_from hand_over
  replace_from-IsWell none r on stored e = (h, refl, w, (h.entrypoint, refl))
  replace_from-IsWell (some top) r on stored e = elim (Bool-cases (top == r)) [
    | inl same ↦
        let start : Closest = record { neighbor = none; min_distance = max_float } in
        let (c, found, s) =
          nearest_level-Standing r stored ((vertex_at h r).level + 1) start (omega arith)
            (λ x e. cc) in
        rw (same, found)
          (
            record h { entrypoint = c.neighbor },
            refl,
            entrypoint-IsWell h c.neighbor w s,
            (c.neighbor, refl),
          )
    | inr other ↦ rw other (h, refl, w, (h.entrypoint, refl))
  ]

unlink_levels-Does :
    (n : ℕ) (r : Ref) (h : Hnsw)
    → IsWell h
    → ltb r (length h.store) ≡ true
    → n ≤ (vertex_at h r).level + 1
    → Does h (unlink_levels n r h)
unfolding unlink_levels
unlink_levels-Does zero r h w stored top = (h, refl, Next-refl h w)
unlink_levels-Does (suc n) r h w stored top =
    let edges = edges_at h r n in
    let (h1, e1, n1) = drop_edges-Does r n (m_max_at h.config n) edges h w (w.targets r n) in
    let k = n1.keeps in
    let size = k.size in
    let (h2, e2, n2) =
      unlink_levels-Does n r h1 n1.well (ground arith) (omega (arith, Keeps-level n1.keeps r)) in
    (h2, rw (edges_of-ok h w r n (ground arith), e1, e2) refl, Next-trans h h1 h2 n1 n2)

-- The id is free, and the other vertices are as they were but for their edges.
pub record Removed (h : Hnsw) (id : ℕ) (r : Ref) (g : Hnsw) : Type 0 where
  pub well : IsWell g
  pub got : (j : ℕ) → get_vertex j g ≡ (if id == j then none else get_vertex j h)
  pub others : (s : Ref) → (r == s) ≡ false → bare (vertex_at g s) ≡ bare (vertex_at h s)
  pub vectors : (s : Ref) → (vertex_at g s).vector ≡ (vertex_at h s).vector
  pub counted : g.len ≡ (h.len + (2 ^ 64 - 1)) % 2 ^ 64
  pub kind : g.distancer ≡ h.distancer
  pub size : length g.store ≤ length h.store

module _ (h : Hnsw) (w : IsWell h) (id : ℕ) where
  -- An id that is not in use is refused.
  pub remove-missing : get_vertex id h ≡ none → remove id h ≡ err item_not_found
  unfolding remove remove_vertex
  remove-missing e = rw (e, remove_vertex) refl

  -- On a well-formed index, Remove of an id that is in use returns, and the index is well-formed
  -- after it. The id finds nothing, every other id finds what it found before, and no other vertex has
  -- changed but for its edges; the length is one less.
  pub remove-Removed :
      (r : Ref) → get_vertex id h ≡ some r → (g : Hnsw) × (remove id h ≡ ok g) × Removed h id r g
  unfolding remove remove_vertex without_vertex get_vertex replace_entrypoint
  remove-Removed r here =
      let h1 = without_vertex id r h in
      let w1 = without_vertex-IsWell h w id r here in
      let inside : ltb r (length h1.store) ≡ true =
        let (a, b, c) = w.stored id r here in ground (arith, length-without h w id r here) in
      let (h2, e2, w2, (next, same)) =
        replace_from-IsWell h1 w1 h1.entrypoint r w1.entry inside refl in
      let store : h2.store ≡ h1.store = ap (λ x. x.store) same in
      let (g, e, n) =
        unlink_levels-Does ((vertex_at h2 r).level + 1) r h2 w2 (rw store inside) (omega arith) in
      let k = n.keeps in
      (
        g,
        rw (here, remove_vertex) (rw (e2, e) refl),
        record {
          well = n.well;
          got = λ j.
              ap (λ x. get_vertex j x) k.rest
              ∙ ap (λ x. get_vertex j x) same
              ∙ get_vertex-without h w id r here j;
          others = λ s other.
              k.vertex s
              ∙ (let at = vertex_at-without h w id r here s in rw same (ap bare (rw other at at)));
          vectors = λ s.
              ap (λ v. v.vector) (k.vertex s)
              ∙ (let at = vertex_at-without h w id r here s in rw same (ground (arith, at)));
          counted = ap (λ x. x.len) k.rest ∙ ap (λ x. x.len) same;
          size = let a = k.size in omega (arith, ap length store, length-without h w id r here);
          kind =
              ap (λ x. x.distancer) k.rest
              ∙ ap (λ x. x.distancer) same
              ∙ (unfold set_deleted in refl);
        },
      )
