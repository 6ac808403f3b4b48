-- ===== src/Hnsw/Search/Level.antt =====
-- The search of a level ends, with some vertices of the level at their distances.
use coltt.Prelude.{
  ℕ, zero, suc, ◌+◌, ◌≤◌, ◌<◌, ◌≡◌, refl, ◌⊎◌, inl, inr, Bool, true, false, not, ◌&&◌, ◌||◌, Option,
  none, some, [], ◌∷◌, length, arith, ltb, ◌==◌, Bool-cases,
}
use coltt.Prelude.Count.{bit, count}
use coltt.Prelude.Float.{float32_ltb}
use coltt.Prelude.Outcome.{Outcome, ok}
use coltt.Edge.Heap
use coltt.Edge.Heap.Order.{AllGood}
use coltt.Edge.Heap.Items.{push-Moved, pop-Popped}
use coltt.Edge.Space.{Vector}
use coltt.Hnsw.{Distances, Hnsw, HnswEdgeSet, Ref, vertex_at}
use coltt.Hnsw.Queue.{PriorityQueueItem, PriorityQueue, min_less, max_less, peek}
use coltt.Hnsw.Shape.{reaches, edges_at, leads, IsWell}
use coltt.Hnsw.Search.Walk.{Comparable, measured-ok, edges_to_measure-ok, usable}
use coltt.Hnsw.Search.Unvisited.{unvisited, unvisited-cons, unvisited-nil}
use coltt.Hnsw.Search.{
  advance, popped, LevelSearch, seen, distance_to, item_at, enqueue, visit, visit_all, round,
  level_loop, search_level,
}

abbrev pub is : Ref → PriorityQueueItem → Bool
is r item = item.value == r

module _ ⦃space : Distances⦄ (h : Hnsw) (query : Vector) (level : ℕ) (entry : Ref) where
  -- a vertex of the level at its distance, not deleted unless it is the entrypoint
  abbrev pub fine : PriorityQueueItem → Bool
  fine item = usable h entry level item.value && (item.priority == distance_to h query item.value)

  -- Vertices of the level at their distances, each once.
  pub record Found (found : PriorityQueue) : Type 0 where
    pub each : AllGood fine found
    pub some_found : 0 < length found
    pub once : (r : Ref) → count (is r) found ≤ 1

module _ ⦃space : Distances⦄ (h : Hnsw) (w : IsWell h) (query : Vector) (fits : Comparable h query)
    (level : ℕ) (entry : Ref) where
  abbrev good : PriorityQueueItem → Bool
  good = fine h query level entry

  pub record Searching (s : LevelSearch) : Type 0 where
    pub candidates : AllGood good s.candidates
    pub results : AllGood good s.results
    pub some_result : 0 < length s.results
    pub once : (r : Ref) → count (is r) s.results ≤ bit (seen r s.visited)

  abbrev pub work : LevelSearch → ℕ
  work s = length s.candidates + unvisited (length h.store) s.visited

  -- still searching, with no more work
  pub record Searches (s t : LevelSearch) : Type 0 where
    pub state : Searching t
    pub less : work t ≤ work s

  module _ (ef : ℕ) where
    pub enqueue-Searching :
        (r : Ref) (s : LevelSearch)
        → good (item_at h query r) ≡ true
        → seen r s.visited ≡ false
        → Searching s
        → Searching (enqueue h query ef r (record s { visited = r ∷ s.visited }))
    unfolding enqueue count
    enqueue-Searching r s on fresh v =
        let item = item_at h query r in
        let pushed = Heap.push max_less item s.results in
        let as_result = push-Moved max_less item s.results in
        let as_candidate = push-Moved min_less item s.candidates in
        let (m, top, after) = pop-Popped max_less pushed (let e = as_result.size in omega arith) in
        let same = as_result.same (λ x. not (good x)) in
        let old = v.results in
        let clean : count (λ x. not (good x)) pushed ≡ 0 = ground arith in
        let counted : (x : Ref) → count (is x) pushed ≤ bit (seen x (r ∷ s.visited)) = λ x.
          let c = as_result.same (is x) in let o = v.once x in let f = v.once r in ground arith in
        let candidates : AllGood good (Heap.push min_less item s.candidates) =
          let c = as_candidate.same (λ x. not (good x)) in let o = v.candidates in ground arith in
        elim (Bool-cases (ltb ef (length pushed))) [
          | inl over ↦ rw over (record {
            candidates = candidates;
            results = let c = after.same (λ x. not (good x)) in omega arith;
            some_result =
                let n = v.some_result in
                let a = after.size in let e = as_result.size in omega arith;
            once = λ x. omega (arith, after.same (is x), counted x);
          })
          | inr fits ↦ rw fits (record {
            candidates = candidates;
            results = clean;
            some_result = let e = as_result.size in omega arith;
            once = counted;
          })
        ]

    enqueue-work : (r : Ref) (s : LevelSearch) → work (enqueue h query ef r s) ≡ work s + 1
    unfolding enqueue
    enqueue-work r s =
        let as_candidate = push-Moved min_less (item_at h query r) s.candidates in
        let e = as_candidate.size in omega arith

    visit-Searches :
        (lower_bound : ℕ) (r : Ref) (s : LevelSearch)
        → reaches h level r ≡ true
        → Searching s
        → Searches s (visit h query ef lower_bound r s)
    unfolding visit
    visit-Searches lower_bound r s on v = elim (Bool-cases (vertex_at h r).deleted) [
      | inl gone ↦ rw gone (record { state = v; less = omega arith })
      | inr here ↦ elim (Bool-cases (seen r s.visited)) [
        | inl old ↦ rw (here, old) (record { state = v; less = omega arith })
        | inr fresh ↦
            let s' : LevelSearch = record s { visited = r ∷ s.visited } in
            let falls = unvisited-cons (length h.store) r s.visited (ground arith) fresh in
            elim (Bool-cases
              (float32_ltb (distance_to h query r) lower_bound || ltb (length s.results) ef)) [
                | inl near ↦
                    rw (here, fresh, near)
                      (record {
                        state = enqueue-Searching r s (ground arith) fresh v;
                        less = omega (arith, enqueue-work r s');
                      })
                | inr far ↦
                    rw (here, fresh, far)
                      (record {
                        state = record {
                          candidates = v.candidates;
                          results = v.results;
                          some_result = v.some_result;
                          once = λ x. let o = v.once x in ground arith;
                        };
                        less = omega arith;
                      })
              ]
      ]
    ]

    pub visit_all-Searches :
        (lower_bound : ℕ) (edges : HnswEdgeSet) (s : LevelSearch)
        → AllGood (leads h level) edges
        → Searching s
        → Searches s (visit_all h query ef lower_bound edges s)
    unfolding visit_all count
    visit_all-Searches lower_bound [] s all v = record { state = v; less = omega arith }
    visit_all-Searches lower_bound ((r, d) ∷ edges) s all v =
        let first = visit-Searches lower_bound r s (ground arith) v in
        let next =
          visit_all-Searches lower_bound edges (visit h query ef lower_bound r s) (omega arith)
            first.state in
        record { state = next.state; less = let a = first.less in let b = next.less in omega arith }

    -- A round breaks, or goes on with less work.
    abbrev Rounds : LevelSearch → Outcome (Option LevelSearch) → Type 0
    Rounds s o =
        (o ≡ ok none) ⊎ ((t : LevelSearch) × (o ≡ ok (some t)) × Searching t × (work t < work s))

    pub peek-ok : (a : PriorityQueue) → 0 < length a → (x : PriorityQueueItem) × (peek a ≡ ok x)
    unfolding peek
    peek-ok [] h = absurd (omega arith)
    peek-ok (x ∷ a) h = (x, refl)

    round-Rounds :
        (s : LevelSearch)
        → 0 < length s.candidates
        → Searching s
        → Rounds s (round h query ef level s)
    unfolding round count
    round-Rounds s left v =
        let (m, top, after) = pop-Popped min_less s.candidates left in
        let (worst, peeked) = peek-ok s.results v.some_result in
        let rest : LevelSearch = record s { candidates = (Heap.pop min_less s.candidates).1 } in
        let counted = after.same (λ x. not (good x)) in
        let all_fine = v.candidates in
        let m_good : good m ≡ true = ground arith in
        let on : reaches h level m.value ≡ true = ground arith in
        let state : Searching rest = record {
          candidates = omega arith;
          results = v.results;
          some_result = v.some_result;
          once = v.once;
        } in
        rw (top, popped, peeked, edges_to_measure-ok h w query fits m.value level on)
          (elim (Bool-cases (float32_ltb worst.priority m.priority)) [
            | inl stop ↦ inl (rw stop refl)
            | inr go ↦
                let edges = edges_at h m.value level in
                let next =
                  visit_all-Searches worst.priority edges rest (w.targets m.value level) state in
                inr (
                  visit_all h query ef worst.priority edges rest,
                  rw go refl,
                  next.state,
                  (let a = next.less in let b = after.size in omega arith),
                )
          ])

    results-Found : (s : LevelSearch) → Searching s → Found h query level entry s.results
    results-Found s v = record {
      each = v.results;
      some_found = v.some_result;
      once = λ r. let o = v.once r in ground arith;
    }

    level_loop-Found :
        (fuel : ℕ) (s : LevelSearch)
        → work s < fuel
        → Searching s
        → (found : PriorityQueue) × (level_loop h query ef fuel level s ≡ ok found)
          × Found h query level entry found
    unfolding level_loop
    level_loop-Found zero s less v = absurd (omega arith)
    level_loop-Found (suc fuel) s less v = elim (Bool-cases (ltb 0 (length s.candidates))) [
      | inr done ↦ rw (done, level_loop) (s.results, refl, results-Found s v)
      | inl left ↦ elim (round-Rounds s (ground arith) v) [
        | inl stop ↦ rw (left, level_loop, stop, advance) (s.results, refl, results-Found s v)
        | inr (t, go, v', falls) ↦
            rw (left, level_loop, go, advance) (level_loop-Found fuel t (omega arith) v')
      ]
    ]

    pub search_level-Found :
        (start : Ref)
        → usable h entry level start ≡ true
        → (found : PriorityQueue) × (search_level h query ef start level ≡ ok found)
          × Found h query level entry found
    unfolding search_level count
    search_level-Found start on =
        let n = length h.store in
        rw (measured-ok h w query fits start (ground arith)) (
          level_loop-Found (n + 1) _
            (omega (arith, unvisited-cons n start [] (ground arith) refl, unvisited-nil n))
            (record {
              candidates = ground arith;
              results = ground arith;
              some_result = omega arith;
              once = λ r. ground arith;
            }))
