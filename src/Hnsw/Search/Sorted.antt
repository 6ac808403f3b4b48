-- ===== src/Hnsw/Search/Sorted.antt =====
-- Search answers with the nearest first, where no distance is a NaN.
use coltt.Prelude.{
  ℕ, min, zero, suc, ◌^◌, ◌≤◌, ◌≡◌, refl, Bool, not, [], ◌∷◌, length, All, All-map, arith, leb,
  List,
}
use coltt.Prelude.Count.{count}
use coltt.Prelude.Float.{float32_rank}
use coltt.Edge.Heap
use coltt.Edge.Heap.Order.{AllGood}
use coltt.Edge.Queue.{SearchResultItem, Ascending}
use coltt.Hnsw.{Hnsw, HnswSearchAlgorithm, simple, heuristic}
use coltt.Hnsw.Queue.{PriorityQueue, max_less}
use coltt.Hnsw.Shape.{AllGood-weaken}
use coltt.Hnsw.Queue.Heaped.{
  is_number, Heaped, pop-Farthest, rank-le, select_neighbors-Heaped,
  select_neighbors_heuristic-Heaped,
}
use coltt.Hnsw.Search.Answers.{select_by-Part}
use coltt.Hnsw.Search.{select_with, select_by, result_of, push_result, fill}

select_with-Heaped :
    (algorithm : HnswSearchAlgorithm) (keep : Bool) (a : PriorityQueue) (k : ℕ)
    → Heaped a
    → Heaped (select_with algorithm keep a k)
unfolding select_with
select_with-Heaped simple keep a k v = select_neighbors-Heaped k a v
select_with-Heaped heuristic keep a k v = select_neighbors_heuristic-Heaped k a keep v

-- Each popped item is no farther than those popped before.
fill-Ascending :
    (h : Hnsw) (n : ℕ) (a : PriorityQueue) (result : List SearchResultItem) (u : ℕ)
    → length a ≡ n
    → Heaped a
    → AllGood (λ x. leb (float32_rank x.priority) u) a
    → All (λ later. u ≤ float32_rank later.score) result
    → Ascending result
    → Ascending (fill h n a result)
unfolding fill push_result count
fill-Ascending h zero a result u e v below above sorted = sorted
fill-Ascending h (suc n) a result u e v below above sorted =
    let (m, f) = pop-Farthest a n e v in
    let counted = f.same (λ x. not (leb (float32_rank x.priority) u)) in
    let at : float32_rank m.priority ≤ u = ground arith in
    let later =
      All-map (λ x. u ≤ float32_rank x.score) (λ x. float32_rank m.priority ≤ float32_rank x.score)
        result (λ x p. omega arith) above in
    rw f.top (
      fill-Ascending h n (Heap.pop max_less a).1 (result_of h m ∷ result) (float32_rank m.priority)
        (let s = f.size in omega arith) f.rest f.nearer (omega arith, later) (later, sorted))

-- the last steps of Search, on a max queue of numbers
pub fill_selected-Ascending :
    (h : Hnsw) (k : ℕ) (found : PriorityQueue)
    → Heaped found
    → let selected = select_by h.config found k in
      Ascending (fill h (min k (length selected)) selected [])
unfolding select_by count
fill_selected-Ascending h k found v =
    let selected = select_by h.config found k in
    let part = select_by-Part h.config found k in
    let n : min k (length selected) ≡ length selected = let e = part.size in omega arith in
    let s = select_with-Heaped h.config.search_algorithm h.config.heuristic_keep_pruned found k v in
    rw n (
      fill-Ascending h (length selected) selected [] (2 ^ 32) refl s
        (AllGood-weaken is_number (λ x. leb (float32_rank x.priority) (2 ^ 32)) selected
          (λ x p. ground (arith, rank-le x.priority)) s.numbers)
        tt tt)
