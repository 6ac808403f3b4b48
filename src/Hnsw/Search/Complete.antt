-- ===== src/Hnsw/Search/Complete.antt =====
-- A search with room for every vertex finds all that can be reached.
use coltt.Prelude.{
  ◌^◌, ltb, subst, ℕ, zero, suc, ◌+◌, ◌≤◌, ◌<◌, ◌≡◌, refl, ap, ◌∙◌, inl, inr, true, false, not,
  some, [], ◌∷◌, length, any, map, arith, ltb, ◌==◌, Bool-cases,
}
use coltt.Prelude.Count.{bit, count, count_complement}
use coltt.Prelude.Float.{Floats, float32_nan}
use coltt.Prelude.Outcome.{ok}
use coltt.Edge.Space.{Vector, normalized}
use coltt.Hnsw.{Distances, Hnsw, Ref, vertex_at}
use coltt.Hnsw.Queue.{PriorityQueue}
use coltt.Hnsw.Shape.{edges_at, IsWell}
use coltt.Hnsw.Search.Unvisited.{unvisited-cons, unvisited-nil}
use coltt.Hnsw.Search.Walk.{Comparable, measured-ok, usable, descend-Arrives}
use coltt.Hnsw.Search.Level.{is, Searching, work}
use coltt.Hnsw.Queue.Heaped.{Heaped}
use coltt.Edge.Queue.{Ascending}
use coltt.Hnsw.Search.Sorted.{fill_selected-Ascending}
use coltt.Hnsw.Search.Exhaustive.{all_numbers}
use coltt.Hnsw.Search.Answers.{fill_selected, by_entrypoint}
use coltt.Hnsw.Search.Rounds.{passed-seen, Full, round-Round}
use coltt.Hnsw.Search.{
  advance, LevelSearch, seen, distance_to, item_at, descend, level_loop, search_level, max,
  search_from, search_by, search, result_of,
}

-- what the edges of a level lead to from the start, over vertices that are not deleted
pub data Reach (h : Hnsw) (level : ℕ) (start : Ref) : Ref → Type 0 where
  here : Reach h level start start
  step :
      {u v : Ref}
      → Reach h level start u
      → any (λ e. e.0 == v) (edges_at h u level) ≡ true
      → (vertex_at h v).deleted ≡ false
      → Reach h level start v

module _ ⦃space : Distances⦄ (h : Hnsw) (w : IsWell h) (query : Vector) (fits : Comparable h query)
    (level : ℕ) (entry : Ref)
    (numbers : (r : Ref) → r < length h.store → float32_nan (distance_to h query r) ≡ false)
    (ef : ℕ) (roomy : length h.store ≤ ef) where
  -- The search ends with no candidate left.
  record Ended (start : Ref) (t : LevelSearch) : Type 0 where
    state : Searching h w query fits level entry t
    full : Full h w query fits level entry numbers ef roomy t
    empty : length t.candidates ≡ 0
    started : seen start t.visited ≡ true

  level_loop-Ended :
      (fuel : ℕ) (s : LevelSearch) (start : Ref)
      → work h w query fits level entry s < fuel
      → Searching h w query fits level entry s
      → Full h w query fits level entry numbers ef roomy s
      → seen start s.visited ≡ true
      → (t : LevelSearch) × (level_loop h query ef fuel level s ≡ ok t.results) × Ended start t
  unfolding level_loop
  level_loop-Ended zero s start few v x e = absurd (omega arith)
  level_loop-Ended (suc fuel) s start few v x e = elim (Bool-cases (ltb 0 (length s.candidates))) [
    | inr done ↦
        rw (done, level_loop)
          (s, refl, record { state = v; full = x; empty = ground arith; started = e })
    | inl left ↦
        let (t, go, r) =
          round-Round h w query fits level entry numbers ef roomy s (ground arith) v x in
        let (t', loops, ended) =
          level_loop-Ended fuel t start (let a = r.less in omega arith) r.state r.full
            (r.more start e) in
        rw (left, level_loop, go, advance) (t', loops, ended)
  ]

  -- A closed set of visited vertices has all that can be reached.
  Reach-seen :
      (start : Ref) (t : LevelSearch)
      → Ended start t
      → {u : Ref} → Reach h level start u
      → seen u t.visited ≡ true
  unfolding count
  Reach-seen start t ended here = ended.started
  Reach-seen start t ended (step {u} {v} walk at alive) =
      let full = ended.full in
      let empty = ended.empty in
      elim (full.closed u (Reach-seen start t ended walk) refl) [
        | inl waits ↦ let len = count_complement (is u) t.candidates in absurd (omega arith)
        | inr done ↦ passed-seen h t.visited v (edges_at h u level) done at alive
      ]

  pub search_level-whole :
      (start : Ref)
      → usable h entry level start ≡ true
      → (found : PriorityQueue) × (search_level h query ef start level ≡ ok found)
        × (length found ≤ length h.store)
        × Heaped found
        × ((r : Ref) → Reach h level start r → count (is r) found ≡ 1)
  unfolding search_level count
  search_level-whole start on =
      let n = length h.store in
      let falls = unvisited-cons n start [] (ground arith) refl in
      let item = item_at h query start in
      let s : LevelSearch = record {
        candidates = item ∷ [];
        results = item ∷ [];
        visited = start ∷ [];
      } in
      let (t, loops, ended) =
        level_loop-Ended (n + 1) s start (omega (arith, unvisited-nil n))
          (record {
            candidates = ground arith;
            results = ground arith;
            some_result = omega arith;
            once = λ r. ground arith;
          })
          (record {
            heap = λ c p q. absurd (omega arith);
            whole = λ r. ground arith;
            known = ground arith;
            room = omega (arith, unvisited-nil n);
            closed = λ u e o. ground arith;
          })
          (ground arith) in
      let full = ended.full in
      (
        t.results,
        rw (measured-ok h w query fits start (ground arith)) loops,
        (let r = full.room in omega arith),
        record {
          heap = full.heap;
          numbers =
              (let v = ended.state in
                all_numbers h w query fits level entry numbers (λ u. false) t.results v.results);
        },
        λ r walk. full.whole r ∙ ap bit (Reach-seen start t ended walk),
      )

module _ ⦃floats : Floats⦄ ⦃space : Distances⦄ (h : Hnsw) (w : IsWell h) (query : Vector) (k : ℕ)
    (fits : Comparable h (normalized h.distancer query)) (small : k < 2 ^ 63) (entry : Ref)
    (first : h.entrypoint ≡ some entry)
    (numbers : (r : Ref)
      → r < length h.store
      → float32_nan (distance_to h (normalized h.distancer query) r) ≡ false)
    (roomy : length h.store ≤ k) where
  abbrev vector : Vector
  vector = normalized h.distancer query

  -- Let the query be comparable with every vertex, and `k` below 2 ^ 63. If no distance from the query is a NaN, and `k` is at least the number of the vertices that were
  -- ever inserted, then Search on a well-formed index with an entrypoint returns each vertex that the
  -- edges of the ground level lead to, over vertices that are not deleted, from the vertex that the
  -- descent through the upper levels ends on, and the nearest come first.
  pub search_complete :
      (start : Ref) × (d : ℕ) × (descend h vector
          (vertex_at h entry).level
          0
          entry
          (distance_to h vector entry)
        ≡ ok (start, d))
      × (items : PriorityQueue) × (search h k query ≡ ok (map (result_of h) items))
      × Ascending (map (result_of h) items)
      × ((r : Ref) → Reach h 0 start r → count (is r) items ≡ 1)
  unfolding search_from
  search_complete =
      let on = w.entry entry first in
      let int_k : ltb k (2 ^ 63) ≡ true = ground arith in
      let (start, d, walked, at) =
        descend-Arrives h w vector fits entry (vertex_at h entry).level 0 entry
          (distance_to h vector entry) (ground arith) in
      let (found, searched, size, heaped, whole) =
        search_level-whole h w vector fits 0 entry numbers (max h.config.ef k) (ground arith) start
          at in
      let (items, filled, part) = fill_selected h k found in
      let all : length items ≡ length found = let s = part.size in omega arith in
      (
        start,
        d,
        walked,
        items,
        by_entrypoint h w query k fits small (some entry) first
            ∙ (unfold search_by in
                rw
                  (
                    measured-ok h w vector fits entry (ground arith),
                    walked,
                    int_k,
                    searched,
                    filled,
                  )
                  refl),
        subst Ascending filled (fill_selected-Ascending h k found heaped),
        λ r walk. omega (
          arith,
          whole r walk,
          part.some_of (is r),
          part.some_of (λ x. not (is r x)),
          count_complement (is r) items,
          count_complement (is r) found,
        ),
      )
