-- ===== src/Hnsw/Change/Prune.antt =====
-- Pruning, connecting and dropping keep the shape.
use coltt.Prelude.{
  ℕ, zero, suc, ◌≡◌, refl, Bool, true, not, [], ◌∷◌, length, arith, ltb, Bool-cases, inl, inr,
}
use coltt.Prelude.Count.{count}
use coltt.Prelude.Dict.{nat_key}
use coltt.Prelude.Outcome.{Outcome, ok}
use coltt.Edge.Heap
use coltt.Edge.Heap.Order.{AllGood}
use coltt.Edge.Heap.Items.{push-Moved, pop-Popped}
use coltt.Hnsw.{Hnsw, HnswEdgeSet, Ref, vertex_at}
use coltt.Hnsw.Queue.{PriorityQueueItem, PriorityQueue, max_less}
use coltt.Hnsw.Queue.Items.{AllGood-Part}
use coltt.Hnsw.Shape.{reaches, edges_at, leads, IsWell, AllGood-weaken}
use coltt.Hnsw.Shape.Edges.{
  Next, Does, Next-trans, Next-refl, Next-reaches, Next-AllGood, edges_of-ok, set_edges-Does,
  insert-AllGood, add_edge-Does, remove_edge-Does,
}
use coltt.Hnsw.Search.{select_by}
use coltt.Hnsw.Search.Answers.{select_by-Part}
use coltt.Hnsw.Change.{queue_edges, edge_set, prune_neighbors, connect, connect_all, drop_edges}

-- The item is a vertex with edges on the level.
abbrev pub stands : Hnsw → ℕ → PriorityQueueItem → Bool
stands h level item = reaches h level item.value

module _ (h : Hnsw) (level : ℕ) where
  queue_edges-AllGood :
      (edges : HnswEdgeSet) (queue : PriorityQueue)
      → AllGood (leads h level) edges
      → AllGood (stands h level) queue
      → AllGood (stands h level) (queue_edges h edges queue)
  unfolding queue_edges count
  queue_edges-AllGood [] queue good all = all
  queue_edges-AllGood ((r, d) ∷ edges) queue good all =
      let item : PriorityQueueItem = record { priority = d; value = r } in
      elim (Bool-cases (vertex_at h r).deleted) [
        | inl gone ↦ rw gone (queue_edges-AllGood edges queue (omega arith) all)
        | inr here ↦
            let pushed = push-Moved max_less item queue in
            rw here (
              queue_edges-AllGood edges (Heap.push max_less item queue) (omega arith)
                (let c = pushed.same (λ x. not (stands h level x)) in omega arith))
      ]

  edge_set-AllGood :
      (queue : PriorityQueue) (edges : HnswEdgeSet)
      → AllGood (stands h level) queue
      → AllGood (leads h level) edges
      → AllGood (leads h level) (edge_set queue edges)
  unfolding edge_set count
  edge_set-AllGood [] edges all good = good
  edge_set-AllGood (item ∷ queue) edges all good =
      edge_set-AllGood queue _ (omega arith)
        (insert-AllGood h level item.value item.priority edges (ground arith) good)

  pub prune_neighbors-Does :
      IsWell h → (r : Ref) (k : ℕ) → reaches h level r ≡ true → Does h (prune_neighbors r k level h)
  unfolding prune_neighbors count
  prune_neighbors-Does w r k on =
      let queue = queue_edges h (edges_at h r level) [] in
      let selected = select_by h.config queue k in
      let all = queue_edges-AllGood (edges_at h r level) [] (w.targets r level) refl in
      rw (edges_of-ok h w r level on) (
        set_edges-Does h w r level on (edge_set selected []) (
          edge_set-AllGood selected []
            (AllGood-Part (stands h level) k queue selected (select_by-Part h.config queue k) all)
            refl))

module _ (r : Ref) (level m_max : ℕ) where
  connect-Does :
      (item : PriorityQueueItem) (h : Hnsw)
      → IsWell h
      → reaches h level r ≡ true
      → stands h level item ≡ true
      → Does h (connect r level m_max item h)
  unfolding connect
  connect-Does item h w on there =
      let (h1, e1, n1) = add_edge-Does h w r level on item.value item.priority there in
      let on1 = Next-reaches n1 level r on in
      let there1 = Next-reaches n1 level item.value there in
      let (h2, e2, n2) = add_edge-Does h1 n1.well item.value level there1 r item.priority on1 in
      let there2 = Next-reaches n2 level item.value there1 in
      let n = Next-trans h h1 h2 n1 n2 in
      rw (e1, e2, edges_of-ok h2 n2.well item.value level there2)
        (elim (Bool-cases (ltb m_max (length (edges_at h2 item.value level)))) [
          | inl many ↦
              let (h3, e3, n3) = prune_neighbors-Does h2 level n2.well item.value m_max there2 in
              rw (many, e3) (h3, refl, Next-trans h h2 h3 n n3)
          | inr few ↦ rw few (h2, refl, n)
        ])

  -- The walk goes on at a vertex of the level.
  abbrev pub Walks : Hnsw → Outcome (Ref × Hnsw) → Type 0
  Walks g o = (s : Ref) × (h : Hnsw) × (o ≡ ok (s, h)) × (reaches h level s ≡ true) × Next g h

  pub connect_all-Walks :
      (fuel : ℕ) (neighbors : PriorityQueue) (start : Ref) (h : Hnsw)
      → length neighbors ≡ fuel
      → IsWell h
      → reaches h level r ≡ true
      → reaches h level start ≡ true
      → AllGood (stands h level) neighbors
      → Walks h (connect_all r level m_max fuel neighbors start h)
  unfolding connect_all count
  connect_all-Walks zero neighbors start h e w on at all = (start, h, refl, at, Next-refl h w)
  connect_all-Walks (suc fuel) neighbors start h e w on at all =
      let (m, top, after) = pop-Popped max_less neighbors (omega arith) in
      let counted = after.same (λ x. not (stands h level x)) in
      let there : stands h level m ≡ true = ground arith in
      let (h1, e1, n1) = connect-Does m h w on there in
      let rest = (Heap.pop max_less neighbors).1 in
      let (s, h2, e2, at2, n2) =
        connect_all-Walks fuel rest m.value h1 (let x = after.size in omega arith) n1.well
          (Next-reaches n1 level r on) (Next-reaches n1 level m.value there)
          (AllGood-weaken (stands h level) (stands h1 level) rest
            (λ x p. Next-reaches n1 level x.value p) (omega arith)) in
      (s, h2, rw (top, connect_all, e1, e2) refl, at2, Next-trans h h1 h2 n1 n2)

  pub drop_edges-Does :
      (edges : HnswEdgeSet) (h : Hnsw)
      → IsWell h
      → AllGood (leads h level) edges
      → Does h (drop_edges r level m_max edges h)
  unfolding drop_edges count
  drop_edges-Does [] h w good = (h, refl, Next-refl h w)
  drop_edges-Does ((neighbor, d) ∷ edges) h w good =
      let on : reaches h level neighbor ≡ true = ground arith in
      let (h1, e1, n1) = remove_edge-Does h w neighbor level on r in
      let (h2, e2, n2) =
        prune_neighbors-Does h1 level n1.well neighbor m_max (Next-reaches n1 level neighbor on) in
      let n = Next-trans h h1 h2 n1 n2 in
      let (h3, e3, n3) =
        drop_edges-Does edges h2 n2.well (Next-AllGood n level edges (omega arith)) in
      (h3, rw (e1, e2, e3) refl, Next-trans h h2 h3 n n3)
