-- ===== src/Hnsw/Search/Walk.antt =====
-- The greedy walks end, on a vertex of the level.
use coltt.Prelude.{
  ℕ, zero, suc, ◌+◌, ◌≤◌, ◌<◌, ◌≡◌, refl, ◌⊎◌, inl, inr, Bool, true, not, ◌&&◌, ◌||◌, ◌==◌, none,
  some, all, ltb, List, [], ◌∷◌, length, arith, Bool-cases,
}
use coltt.Prelude.Count.{count, count_lt}
use coltt.Prelude.Float.{float32_ltb, float32_ltb_irrefl, float32_ltb_trans}
use coltt.Prelude.Outcome.{Outcome, ok}
use coltt.Edge.Heap.Order.{AllGood}
use coltt.Edge.Space.{Vector}
use coltt.Hnsw.{Distances, Hnsw, HnswVertex, HnswEdgeSet, Ref, vertex_at, blank}
use coltt.Hnsw.Shape.{reaches, edges_at, leads, IsWell}
use coltt.Hnsw.Shape.Edges.{edges_of-ok}
use coltt.Hnsw.Search.{
  advance, Closest, distance_to, comparable_to, measured, edges_to_measure, consider, consider_all,
  greedy_loop, greedy_closest_neighbor, descend,
}

-- The vertex has edges on the level, and is not deleted unless it is the entrypoint.
abbrev pub usable : Hnsw → Ref → ℕ → Ref → Bool
usable h entry level r = reaches h level r && (not (vertex_at h r).deleted || r == entry)

-- The query can be compared with every vertex.
abbrev pub Comparable : ⦃space : Distances⦄ → Hnsw → Vector → Type 0
Comparable h query = (r : Ref) → r < length h.store → comparable_to h query r ≡ true

module _ ⦃space : Distances⦄ (h : Hnsw) (w : IsWell h) (query : Vector)
    (fits : Comparable h query) where
  pub measured-ok :
      (r : Ref) → ltb r (length h.store) ≡ true → measured h query r ≡ ok (distance_to h query r)
  unfolding measured
  measured-ok r stored = rw (fits r (ground arith)) refl

  all-comparable :
      (level : ℕ) (edges : HnswEdgeSet)
      → AllGood (leads h level) edges
      → all (λ e. (vertex_at h e.0).deleted || comparable_to h query e.0) edges ≡ true
  unfolding count
  all-comparable level [] good = refl
  all-comparable level ((r, d) ∷ edges) good =
      let on : reaches h level r ≡ true = ground arith in
      let rest = all-comparable level edges (omega arith) in ground (arith, fits r (ground arith))

  pub edges_to_measure-ok :
      (r : Ref) (level : ℕ)
      → reaches h level r ≡ true
      → edges_to_measure h query r level ≡ ok (edges_at h r level)
  unfolding edges_to_measure
  edges_to_measure-ok r level on =
      rw (edges_of-ok h w r level on, all-comparable level (edges_at h r level) (w.targets r level))
        refl

module _ ⦃space : Distances⦄ (h : Hnsw) (w : IsWell h) (query : Vector) (fits : Comparable h query)
    (entry : Ref) where
  abbrev Nearer : ℕ → Closest → Closest → Type 0
  Nearer level c c' =
      (c' ≡ c)
      ⊎ ((r : Ref) × (c'.neighbor ≡ some r)
          × (usable h entry level r ≡ true)
          × (c'.min_distance ≡ distance_to h query r)
          × (float32_ltb c'.min_distance c.min_distance ≡ true))

  consider_lem :
      (level : ℕ) (r : Ref) (c : Closest)
      → reaches h level r ≡ true
      → Nearer level c (consider h query r c)
  unfolding consider
  consider_lem level r c on = elim (Bool-cases (vertex_at h r).deleted) [
    | inl gone ↦ rw gone (inl refl)
    | inr here ↦ elim (Bool-cases (float32_ltb (distance_to h query r) c.min_distance)) [
      | inl nearer ↦ rw (here, nearer) (inr (r, refl, ground arith, refl, nearer))
      | inr farther ↦ rw (here, farther) (inl refl)
    ]
  ]

  Nearer-trans :
      (level : ℕ) (a b c : Closest) → Nearer level a b → Nearer level b c → Nearer level a c
  Nearer-trans level a b c (inl same) h = rw same at h
  Nearer-trans level a b c (inr (r, e, on, d, less)) (inl same) = rw same (inr (r, e, on, d, less))
  Nearer-trans level a b c (inr (r, e, on, d, less)) (inr (s, e', on', d', less')) =
      inr (s, e', on', d', float32_ltb_trans _ _ _ less' less)

  consider_all_lem :
      (level : ℕ) (edges : HnswEdgeSet) (c : Closest)
      → AllGood (leads h level) edges
      → Nearer level c (consider_all h query edges c)
  unfolding consider_all count
  consider_all_lem level [] c good = inl refl
  consider_all_lem level ((r, d) ∷ edges) c good =
      Nearer-trans level c (consider h query r c) _ (consider_lem level r c (ground arith))
        (consider_all_lem level edges (consider h query r c) (omega arith))

  abbrev below : ℕ → HnswVertex → Bool
  below min_distance v = float32_ltb (space.distance h.distancer query v.vector) min_distance

  abbrev nearer_count : ℕ → ℕ
  nearer_count min_distance = count (below min_distance) h.store

  nearer_count-lt :
      (level : ℕ) (r : Ref) (d : ℕ)
      → usable h entry level r ≡ true
      → float32_ltb (distance_to h query r) d ≡ true
      → nearer_count (distance_to h query r) < nearer_count d
  nearer_count-lt level r d on less =
      count_lt (below (distance_to h query r)) (below d) (λ v e. float32_ltb_trans _ _ _ e less)
        h.store r blank (ground arith) less (float32_ltb_irrefl (distance_to h query r))

  -- The walk ends on a vertex of the level.
  abbrev Arrives : ℕ → Outcome (Ref × ℕ) → Type 0
  Arrives level o = (r : Ref) × (d : ℕ) × (o ≡ ok (r, d)) × (usable h entry level r ≡ true)

  -- Each round leaves fewer vertices of the store that are nearer.
  greedy_loop-Arrives :
      (fuel : ℕ) (r : Ref) (d level : ℕ)
      → nearer_count d < fuel
      → usable h entry level r ≡ true
      → Arrives level (greedy_loop h query fuel r d level)
  unfolding greedy_loop
  greedy_loop-Arrives zero r d level few on = absurd (omega arith)
  greedy_loop-Arrives (suc fuel) r d level few on =
      let start : Closest = record { neighbor = none; min_distance = d } in
      let edges = edges_at h r level in
      rw (edges_to_measure-ok h w query fits r level (ground arith))
        (elim (consider_all_lem level edges start (w.targets r level)) [
          | inl same ↦ rw (same, advance) (r, _, refl, on)
          | inr (s, e, on', dist, less) ↦
              rw (e, dist, advance)
                (greedy_loop-Arrives fuel s (distance_to h query s) level
                  (let lt = nearer_count-lt level s d on' (rw dist at less) in omega arith) on')
        ])

  count-length : (p : HnswVertex → Bool) (xs : List HnswVertex) → count p xs ≤ length xs
  unfolding count
  count-length p [] = omega arith
  count-length p (x ∷ xs) = ground (arith, count-length p xs)

  pub greedy_closest_neighbor-Arrives :
      (r : Ref) (d level : ℕ)
      → usable h entry level r ≡ true
      → Arrives level (greedy_closest_neighbor h query r d level)
  unfolding greedy_closest_neighbor
  greedy_closest_neighbor-Arrives r d level on =
      greedy_loop-Arrives (length h.store + 1) r d level
        (omega (arith, count-length (below d) h.store)) on

  pub descend-Arrives :
      (n bottom : ℕ) (r : Ref) (d : ℕ)
      → usable h entry (bottom + n) r ≡ true
      → Arrives bottom (descend h query n bottom r d)
  unfolding descend
  descend-Arrives zero bottom r d on = (r, d, refl, ground arith)
  descend-Arrives (suc n) bottom r d on =
      let (s, d', e, on') = greedy_closest_neighbor-Arrives r d (bottom + suc n) on in
      rw e (descend-Arrives n bottom s d' (ground arith))
