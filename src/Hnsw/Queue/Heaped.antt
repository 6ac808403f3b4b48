-- ===== src/Hnsw/Queue/Heaped.antt =====
-- Queues of items whose priorities are no NaN: their order is one of numbers, and they keep the heap.
use coltt.Prelude.{
  ℕ, zero, suc, ◌+◌, ◌-◌, ◌^◌, ◌≤◌, ◌<◌, ◌≡◌, refl, ◌∙◌, inl, inr, Bool, true, not, some, [], ◌∷◌,
  length, arith, ltb, leb, Bool-cases, ◌/◌,
}
use coltt.Prelude.Count.{count, count_mono, count_of_All}
use coltt.Prelude.Float.{float32_nan, float32_rank, float32_ltb}
use coltt.Edge.Heap
use coltt.Edge.Heap.Order.{AllGood, IsHeap}
use coltt.Edge.Heap.Items.{pop-Popped, push-Moved}
use coltt.Edge.Heap.PushPop.{push_restores, pop_restores}
use coltt.Hnsw.Queue.{
  PriorityQueueItem, PriorityQueue, min_less, max_less, reverse, trim_loop, select_neighbors,
  Selection, push_some, take_candidate, take_loop, take_candidates, select_neighbors_heuristic,
}
use coltt.Hnsw.Queue.Items.{sift-same}

-- The farthest item has the lowest key, so that it is the root of a max queue.
abbrev pub max_key : PriorityQueueItem → ℕ
max_key item = 2 ^ 33 - float32_rank item.priority

abbrev pub is_number : PriorityQueueItem → Bool
is_number item = not (float32_nan item.priority)

pub rank-le : (x : ℕ) → float32_rank x ≤ 2 ^ 32
rank-le x = ground arith

ltb-sub : (b x y : ℕ) → x ≤ b → y ≤ b → ltb y x ≡ ltb (b - x) (b - y)
ltb-sub b x y h k = ground arith

pub max_agrees :
    (x y : PriorityQueueItem)
    → is_number x ≡ true
    → is_number y ≡ true
    → max_less x y ≡ ltb (max_key x) (max_key y)
unfolding float32_ltb
max_agrees x y h k =
    let both : max_less x y ≡ ltb (float32_rank y.priority) (float32_rank x.priority) =
      ground arith in
    both
    ∙ ltb-sub (2 ^ 33) (float32_rank x.priority) (float32_rank y.priority)
        (omega (arith, rank-le x.priority)) (omega (arith, rank-le y.priority))

-- A max queue of numbers.
pub record Heaped (a : PriorityQueue) : Type 0 where
  pub heap : IsHeap max_key (length a) a
  pub numbers : AllGood is_number a

-- The farthest is popped.
pub record Farthest (a : PriorityQueue) (m : PriorityQueueItem) : Type 0 where
  pub top : (Heap.pop max_less a).0 ≡ some m
  pub rest : Heaped (Heap.pop max_less a).1
  pub size : length (Heap.pop max_less a).1 + 1 ≡ length a
  pub same : (p : PriorityQueueItem → Bool) → count p (m ∷ (Heap.pop max_less a).1) ≡ count p a
  pub nearer :
      AllGood (λ x. leb (float32_rank x.priority) (float32_rank m.priority)) (Heap.pop max_less a).1

pub pop-Farthest :
    (a : PriorityQueue) (n : ℕ)
    → length a ≡ suc n
    → Heaped a
    → (m : PriorityQueueItem) × Farthest a m
unfolding count
pop-Farthest a n e v =
    let (m, top, heap, size, same, least) =
      pop_restores max_key max_less is_number max_agrees a n e (rw (← e) v.heap) v.numbers in
    let g = v.numbers in
    (
      m,
      record {
        top = top;
        rest = record {
          heap = rw size heap;
          numbers = omega (arith, same (λ x. not (is_number x)));
        };
        size = omega arith;
        same = same;
        nearer = omega (
          arith,
          count_mono (λ x. not (leb (float32_rank x.priority) (float32_rank m.priority)))
              (λ x. ltb (max_key x) (max_key m))
              (λ x p. ground (arith, rank-le m.priority, rank-le x.priority))
              (Heap.pop max_less a).1,
          count_of_All max_key (max_key m) (Heap.pop max_less a).1 least,
        );
      },
    )

trim_loop-Heaped : (fuel k : ℕ) (a : PriorityQueue) → Heaped a → Heaped (trim_loop fuel k a)
unfolding trim_loop
trim_loop-Heaped zero k a v = v
trim_loop-Heaped (suc fuel) k a v = elim (Bool-cases (ltb k (length a))) [
  | inr fits ↦ rw fits v
  | inl over ↦
      let (m, f) = pop-Farthest a (length a - 1) (ground arith) v in
      rw over (trim_loop-Heaped fuel k (Heap.pop max_less a).1 f.rest)
]

record Taking (s : Selection) : Type 0 where
  result : Heaped s.result
  left : AllGood is_number s.candidates

take_candidate-Taking :
    (s : Selection) → 0 < length s.candidates → Taking s → Taking (take_candidate s)
unfolding take_candidate count
take_candidate-Taking s some_left v =
    let (m, top, popped) = pop-Popped min_less s.candidates some_left in
    let pushed = push-Moved max_less m s.result in
    let counted = popped.same (λ x. not (is_number x)) in
    let left = v.left in
    let r = v.result in
    let g = r.numbers in
    let (heap, same) =
      push_restores max_key max_less is_number max_agrees m s.result r.heap (omega arith) in
    rw (top, push_some)
      (record {
        result = record {
          heap = λ c p q. heap c p (let e = pushed.size in omega arith);
          numbers = omega (arith, same (λ x. not (is_number x)));
        };
        left = omega arith;
      })

take_loop-Taking : (fuel k : ℕ) (s : Selection) → Taking s → Taking (take_loop fuel k s)
unfolding take_loop
take_loop-Taking zero k s v = v
take_loop-Taking (suc fuel) k s v = elim (Bool-cases (ltb 0 (length s.candidates))) [
  | inr none_left ↦ rw none_left v
  | inl left ↦ elim (Bool-cases (ltb (length s.result) k)) [
    | inr full ↦ rw (left, full) v
    | inl room ↦
        rw (left, room)
          (take_loop-Taking fuel k (take_candidate s) (take_candidate-Taking s (ground arith) v))
  ]
]

pub select_neighbors-Heaped : (k : ℕ) (a : PriorityQueue) → Heaped a → Heaped (select_neighbors a k)
unfolding select_neighbors
select_neighbors-Heaped k a v = trim_loop-Heaped (length a) k a v

pub select_neighbors_heuristic-Heaped :
    (k : ℕ) (a : PriorityQueue) (keep : Bool)
    → Heaped a
    → Heaped (select_neighbors_heuristic a k keep)
unfolding select_neighbors_heuristic take_candidates reverse count
select_neighbors_heuristic-Heaped k a keep v =
    let start : Selection = record { candidates = reverse a; result = [] } in
    let g = v.numbers in
    let first = take_loop-Taking (length start.candidates) k start (record {
      result = record { heap = λ c p q. absurd (omega arith); numbers = refl };
      left = omega (arith, sift-same (length a / 2) a (λ x. not (is_number x)));
    }) in
    let s = take_candidates k start in
    let second = take_loop-Taking (length s.candidates) k s first in
    elim (Bool-cases keep) [ inl e ↦ rw e second.result | inr e ↦ rw e first.result ]
