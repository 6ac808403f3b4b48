-- ===== src/Hnsw/Search/Exhaustive.antt =====
-- The search of a level with room for every vertex: each that is visited is a result, and the edges
-- of each are followed.
use coltt.Prelude.{
  ℕ, ◌+◌, ◌≤◌, ◌<◌, ◌≡◌, refl, ap, ◌⊎◌, inl, inr, Bool, true, false, not, ◌||◌, List, [], ◌∷◌,
  length, arith, ltb, ◌==◌, ==_iff, Bool-cases,
}
use coltt.Prelude.Count.{bit, count}
use coltt.Prelude.Float.{float32_ltb, float32_nan}
use coltt.Edge.Heap
use coltt.Edge.Heap.Order.{AllGood, IsHeap}
use coltt.Edge.Heap.Items.{push-Moved}
use coltt.Edge.Heap.PushPop.{push_restores}
use coltt.Edge.Space.{Vector}
use coltt.Hnsw.{Distances, Hnsw, HnswEdgeSet, Ref, vertex_at}
use coltt.Hnsw.Queue.Heaped.{max_key, is_number, max_agrees}
use coltt.Hnsw.Queue.{PriorityQueue, min_less, max_less}
use coltt.Hnsw.Shape.{reaches, edges_at, leads, IsWell, AllGood-weaken}
use coltt.Hnsw.Search.Unvisited.{unvisited, unvisited-cons}
use coltt.Hnsw.Search.Walk.{Comparable}
use coltt.Hnsw.Search.Level.{is, fine, Searching, enqueue-Searching}
use coltt.Hnsw.Search.{LevelSearch, seen, distance_to, item_at, enqueue, visit, visit_all}

-- the edge leads to a vertex that is deleted or visited
abbrev pub passed : Hnsw → List Ref → Ref × ℕ → Bool
passed h visited e = (vertex_at h e.0).deleted || seen e.0 visited

module _ ⦃space : Distances⦄ (h : Hnsw) (w : IsWell h) (query : Vector) (fits : Comparable h query)
    (level : ℕ) (entry : Ref)
    (numbers : (r : Ref) → r < length h.store → float32_nan (distance_to h query r) ≡ false)
    (opened : Ref → Bool) where
  -- The vertices that are visited, and none else, are results; the edges of each are followed, unless
  -- it is a candidate or just opened.
  pub record Exhaustive (s : LevelSearch) : Type 0 where
    pub heap : IsHeap max_key (length s.results) s.results
    pub whole : (r : Ref) → count (is r) s.results ≡ bit (seen r s.visited)
    pub known : AllGood (λ x. seen x.value s.visited) s.candidates
    pub room : length s.results + unvisited (length h.store) s.visited ≤ length h.store
    pub closed :
        (u : Ref)
        → seen u s.visited ≡ true
        → opened u ≡ false
        → (0 < count (is u) s.candidates) ⊎ AllGood (passed h s.visited) (edges_at h u level)

  pub all_numbers : (a : PriorityQueue) → AllGood (fine h query level entry) a → AllGood is_number a
  all_numbers a good =
      AllGood-weaken (fine h query level entry) is_number a
        (λ x p.
          let same : x.priority ≡ distance_to h query x.value = ground arith in
          rw (same, numbers x.value (ground arith)) refl)
        good

  module _ (ef : ℕ) (roomy : length h.store ≤ ef) where
    enqueue-Exhaustive :
        (r : Ref) (s : LevelSearch)
        → fine h query level entry (item_at h query r) ≡ true
        → reaches h level r ≡ true
        → seen r s.visited ≡ false
        → Searching h w query fits level entry s
        → Exhaustive s
        → Exhaustive (enqueue h query ef r (record s { visited = r ∷ s.visited }))
    unfolding enqueue count
    enqueue-Exhaustive r s good on fresh v x =
        let item = item_at h query r in
        let pushed = Heap.push max_less item s.results in
        let moved = push-Moved max_less item s.results in
        let queued = push-Moved min_less item s.candidates in
        let falls = unvisited-cons (length h.store) r s.visited (ground arith) fresh in
        let space_left = x.room in
        let fits : ltb ef (length pushed) ≡ false = let e = moved.size in ground arith in
        let all = all_numbers (item ∷ s.results) (let g = v.results in ground arith) in
        let (heap, items) =
          push_restores max_key max_less is_number max_agrees item s.results x.heap all in
        rw fits (record {
          heap = rw moved.size (λ c p q. heap c p (omega arith));
          whole = λ u.
              let c : count (is u) pushed ≡ bit (r == u) + count (is u) s.results =
                moved.same (is u) in
              let o = x.whole u in
              let f = x.whole r in
              elim (Bool-cases (r == u)) [
                | inl same ↦ let e = (==_iff r u).0 same in rw (same, ← e) (ground arith)
                | inr other ↦
                    let c' = rw other at c in
                    let same : seen u (r ∷ s.visited) ≡ seen u s.visited = rw other refl in
                    omega (arith, c', o, ap bit same)
              ];
          known =
              let c = queued.same (λ y. not (seen y.value (r ∷ s.visited))) in
              let old =
                AllGood-weaken (λ y. seen y.value s.visited) (λ y. seen y.value (r ∷ s.visited))
                  s.candidates (λ y p. ground arith) x.known in
              ground arith;
          room = let e = moved.size in omega arith;
          closed = λ u e o.
              let c = queued.same (is u) in
              elim (Bool-cases (r == u)) [
                | inl same ↦ inl (ground arith)
                | inr other ↦ elim (x.closed u (ground arith) o) [
                  | inl waits ↦ inl (omega arith)
                  | inr done ↦ inr (
                      AllGood-weaken (passed h s.visited) (passed h (r ∷ s.visited))
                        (edges_at h u level) (λ y p. ground arith) done)
                ]
              ];
        })

    enqueue-visited : (r : Ref) (s : LevelSearch) → (enqueue h query ef r s).visited ≡ s.visited
    unfolding enqueue
    enqueue-visited r s = refl

    -- The search went on: what was visited stays so.
    pub record Later (s t : LevelSearch) : Type 0 where
      pub state : Searching h w query fits level entry t
      pub full : Exhaustive t
      pub more : (u : Ref) → seen u s.visited ≡ true → seen u t.visited ≡ true

    visit-Later :
        (lower_bound : ℕ) (r : Ref) (s : LevelSearch)
        → reaches h level r ≡ true
        → Searching h w query fits level entry s
        → Exhaustive s
        → Later s (visit h query ef lower_bound r s)
          × ((d : ℕ) → passed h (visit h query ef lower_bound r s).visited (r, d) ≡ true)
    unfolding visit
    visit-Later lower_bound r s on v x = elim (Bool-cases (vertex_at h r).deleted) [
      | inl gone ↦ rw gone (record { state = v; full = x; more = λ u e. e }, λ d. refl)
      | inr here ↦ elim (Bool-cases (seen r s.visited)) [
        | inl old ↦ rw (here, old) (record { state = v; full = x; more = λ u e. e }, λ d. old)
        | inr fresh ↦
            let space_left = x.room in
            let falls = unvisited-cons (length h.store) r s.visited (ground arith) fresh in
            let room : ltb (length s.results) ef ≡ true = ground arith in
            let near : (float32_ltb (distance_to h query r) lower_bound
                  || ltb (length s.results) ef)
                ≡ true =
              ground arith in
            let same = enqueue-visited r (record s { visited = r ∷ s.visited }) in
            rw (here, fresh, near)
              (
                record {
                  state =
                      enqueue-Searching h w query fits level entry ef r s (ground arith) fresh v;
                  full = enqueue-Exhaustive r s (ground arith) on fresh v x;
                  more = λ u e. rw same (ground arith);
                },
                λ d. rw same (ground arith),
              )
      ]
    ]

    pub visit_all-Later :
        (lower_bound : ℕ) (edges : HnswEdgeSet) (s : LevelSearch)
        → AllGood (leads h level) edges
        → Searching h w query fits level entry s
        → Exhaustive s
        → Later s (visit_all h query ef lower_bound edges s)
          × AllGood (passed h (visit_all h query ef lower_bound edges s).visited) edges
    unfolding visit_all count
    visit_all-Later lower_bound [] s good v x =
        (record { state = v; full = x; more = λ u e. e }, refl)
    visit_all-Later lower_bound ((r, d) ∷ edges) s good v x =
        let t = visit h query ef lower_bound r s in
        let (first, here) = visit-Later lower_bound r s (ground arith) v x in
        let (rest, all) =
          visit_all-Later lower_bound edges t (omega arith) first.state first.full in
        let m = rest.more r in
        (
          record {
            state = rest.state;
            full = rest.full;
            more = λ u e. rest.more u (first.more u e);
          },
          (let p = here d in ground arith),
        )
