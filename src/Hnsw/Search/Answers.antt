-- ===== src/Hnsw/Search/Answers.antt =====
-- Search returns, and what it answers with.
use coltt.Prelude.{
  ◌^◌, ℕ, zero, suc, ◌+◌, ◌≤◌, ◌<◌, ◌≡◌, refl, ◌∙◌, Bool, true, false, not, ◌&&◌, ◌||◌, ◌==◌,
  Option, none, some, [], ◌∷◌, length, map, min, arith, ltb, Option-cases, inl, inr, ap,
}
use coltt.Prelude.Count.{count, length-eq-count}
use coltt.Prelude.Float.{Floats}
use coltt.Prelude.Outcome.{ok}
use coltt.Edge.Heap
use coltt.Edge.Heap.Order.{AllGood}
use coltt.Edge.Heap.Items.{pop-Popped}
use coltt.Edge.Space.{Vector, normalized}
use coltt.Hnsw.{Distances, Hnsw, HnswConfig, HnswSearchAlgorithm, simple, heuristic, Ref, vertex_at}
use coltt.Hnsw.Queue.{PriorityQueueItem, PriorityQueue, max_less}
use coltt.Hnsw.Queue.Items.{
  Part, AllGood-Part, select_neighbors-Part, select_neighbors_heuristic-Part,
}
use coltt.Hnsw.Shape.{IsWell, AllGood-weaken}
use coltt.Hnsw.Search.Walk.{Comparable, measured-ok, descend-Arrives}
use coltt.Hnsw.Search.Level.{is, fine, search_level-Found}
use coltt.Hnsw.Search.{
  select_with, select_by, distance_to, result_of, push_result, fill, max, search_from, search_by,
  search,
}

select_with-Part :
    (algorithm : HnswSearchAlgorithm) (keep : Bool) (a : PriorityQueue) (k : ℕ)
    → Part k a (select_with algorithm keep a k)
unfolding select_with
select_with-Part simple keep a k = select_neighbors-Part k a
select_with-Part heuristic keep a k = select_neighbors_heuristic-Part k a keep

-- Either algorithm selects `k` items where there are more, and all of them otherwise.
pub select_by-Part :
    (config : HnswConfig) (a : PriorityQueue) (k : ℕ) → Part k a (select_by config a k)
unfolding select_by
select_by-Part config a k =
    select_with-Part config.search_algorithm config.heuristic_keep_pruned a k

-- Every item that is popped comes before those popped earlier.
fill_lem :
    (h : Hnsw) (n : ℕ) (a popped : PriorityQueue)
    → length a ≡ n
    → (items : PriorityQueue) × (fill h n a (map (result_of h) popped) ≡ map (result_of h) items)
      × ((p : PriorityQueueItem → Bool) → count p items ≡ count p a + count p popped)
unfolding fill count
fill_lem h zero [] popped e = (popped, refl, λ p. omega arith)
fill_lem h zero (x ∷ a) popped e = absurd (omega arith)
fill_lem h (suc n) a popped e =
    let (m, top, after) = pop-Popped max_less a (omega arith) in
    let (items, same, counted) =
      fill_lem h n (Heap.pop max_less a).1 (m ∷ popped) (let s = after.size in omega arith) in
    (items, rw (top, push_result) same, λ p. omega (arith, counted p, after.same p))

-- the last steps of Search
pub fill_selected :
    (h : Hnsw) (k : ℕ) (found : PriorityQueue)
    → let selected = select_by h.config found k in
      (items : PriorityQueue) × (fill h (min k (length selected)) selected []
        ≡ map (result_of h) items)
      × Part k found items
unfolding count
fill_selected h k found =
    let selected = select_by h.config found k in
    let part = select_by-Part h.config found k in
    let n : min k (length selected) ≡ length selected = let s = part.size in omega arith in
    let (items, filled, counted) = fill_lem h (length selected) selected [] refl in
    (
      items,
      rw n filled,
      record {
        some_of = λ p. omega (arith, counted p, part.some_of p);
        size =
            let s = part.size in
            omega (arith, counted (λ x. true), length-eq-count items, length-eq-count selected);
      },
    )

abbrev pub is_entrypoint : Option Ref → Ref → Bool
is_entrypoint none r = false
is_entrypoint (some entrypoint) r = r == entrypoint

-- the vertex at its distance from the query, not deleted unless it is the entrypoint
abbrev pub answers : ⦃space : Distances⦄ → Hnsw → Vector → PriorityQueueItem → Bool
answers h query item =
    ltb item.value (length h.store)
    && (item.priority == distance_to h query item.value)
    && (not (vertex_at h item.value).deleted || is_entrypoint h.entrypoint item.value)

-- At most `k` vertices, at least one if `k` is not 0 and there is an entrypoint, each once.
pub record Answer ⦃space : Distances⦄ (h : Hnsw) (query : Vector) (k : ℕ) (items : PriorityQueue)
    : Type 0 where
  pub each : AllGood (answers h query) items
  pub at_most : length items ≤ k
  pub some_item : (r : Ref) → h.entrypoint ≡ some r → 0 < k → 0 < length items
  pub once : (r : Ref) → count (is r) items ≤ 1

module _ ⦃floats : Floats⦄ ⦃space : Distances⦄ (h : Hnsw) (w : IsWell h) (query : Vector) (k : ℕ)
    (fits : Comparable h (normalized h.distancer query)) (small : k < 2 ^ 63) where
  abbrev vector : Vector
  vector = normalized h.distancer query

  search_from-Answer :
      (entry : Ref)
      → h.entrypoint ≡ some entry
      → (items : PriorityQueue) × (search_from h k vector entry ≡ ok (map (result_of h) items))
        × Answer h vector k items
  unfolding search_from
  search_from-Answer entry e =
      let on = w.entry entry e in
      let int_k : ltb k (2 ^ 63) ≡ true = ground arith in
      let (start, d, walked, at) =
        descend-Arrives h w vector fits entry (vertex_at h entry).level 0 entry
          (distance_to h vector entry) (ground arith) in
      let (found, searched, v) =
        search_level-Found h w vector fits 0 entry (max h.config.ef k) start at in
      let (items, filled, part) = fill_selected h k found in
      (
        items,
        rw (measured-ok h w vector fits entry (ground arith), walked, int_k, searched, filled) refl,
        record {
          each =
              AllGood-weaken (fine h vector 0 entry) (answers h vector) items
                (λ x p. rw (answers, e) (ground arith))
                (AllGood-Part (fine h vector 0 entry) k found items part v.each);
          at_most = let s = part.size in omega arith;
          some_item = λ r e p. let s = part.size in let f = v.some_found in omega arith;
          once = λ r. let o = v.once r in let c = part.some_of (is r) in omega arith;
        },
      )

  pub by_entrypoint :
      (top : Option Ref) → h.entrypoint ≡ top → search h k query ≡ search_by h k top vector
  unfolding search
  by_entrypoint top e = ap (λ t. search_by h k t vector) e

  -- On a well-formed index, Search by a query that can be compared with every vertex, for a `k` below
  -- 2 ^ 63, returns: at most `k` vertices, at least one if `k` is not 0 and
  -- there is an entrypoint, each once, with its distance from the query for a score, and none that was
  -- removed but the entrypoint.
  pub search-Answer :
      (items : PriorityQueue) × (search h k query ≡ ok (map (result_of h) items))
      × Answer h vector k items
  unfolding search_by count
  search-Answer = elim (Option-cases h.entrypoint) [
    | inl nothing ↦ (
      [],
      by_entrypoint none nothing,
      record {
        each = refl;
        at_most = omega arith;
        some_item = λ r e p. cc;
        once = λ r. omega arith;
      },
    )
    | inr (entry, e) ↦
        let (items, found, answer) = search_from-Answer entry e in
        (items, by_entrypoint (some entry) e ∙ found, answer)
  ]
