-- ===== src/Hnsw/Queue/Items.antt =====
-- What the selections keep: some of the items, and no more than asked for.
use coltt.Prelude.{
  ℕ, zero, suc, ◌+◌, ◌/◌, ◌≤◌, ◌<◌, ◌≡◌, refl, Bool, true, not, [], length, min, arith, ltb,
  Bool-cases, inl, inr,
}
use coltt.Prelude.Count.{count, length-eq-count}
use coltt.Edge.Heap
use coltt.Edge.Heap.Order.{AllGood}
use coltt.Edge.Heap.Items.{down-Moved, push-Moved, pop-Popped}
use coltt.Hnsw.Queue.{
  PriorityQueueItem, PriorityQueue, min_less, max_less, sift, reverse, trim_loop, select_neighbors,
  Selection, take_candidate, take_loop, take_candidates, select_neighbors_heuristic, push_some,
}

-- Some of the items of `a`, `k` where there are more.
pub record Part (k : ℕ) (a b : PriorityQueue) : Type 0 where
  pub some_of : (p : PriorityQueueItem → Bool) → count p b ≤ count p a
  pub size : length b ≡ min k (length a)

pub AllGood-Part :
    (good : PriorityQueueItem → Bool) (k : ℕ) (a b : PriorityQueue)
    → Part k a b
    → AllGood good a
    → AllGood good b
AllGood-Part good k a b part g = let c = part.some_of (λ x. not (good x)) in omega arith

trim_loop-Part :
    (fuel k : ℕ) (a : PriorityQueue) → length a ≤ fuel + k → Part k a (trim_loop fuel k a)
unfolding trim_loop
trim_loop-Part zero k a h = record { some_of = λ p. omega arith; size = omega arith }
trim_loop-Part (suc fuel) k a h = elim (Bool-cases (ltb k (length a))) [
  | inr fits ↦ rw fits (record { some_of = λ p. omega arith; size = ground arith })
  | inl more ↦
      let (m, top, popped) = pop-Popped max_less a (ground arith) in
      let size = popped.size in
      let rest = trim_loop-Part fuel k (Heap.pop max_less a).1 (omega arith) in
      rw more (record {
        some_of = λ p. omega (arith, rest.some_of p, popped.same p);
        size = let n = rest.size in ground arith;
      })
]

pub select_neighbors-Part : (k : ℕ) (a : PriorityQueue) → Part k a (select_neighbors a k)
unfolding select_neighbors
select_neighbors-Part k a = trim_loop-Part (length a) k a (omega arith)

pub sift-same :
    (i : ℕ) (a : PriorityQueue) (p : PriorityQueueItem → Bool) → count p (sift i a) ≡ count p a
unfolding sift
sift-same zero a p = refl
sift-same (suc i) a p =
    let sunk = down-Moved min_less a i (length a) (omega arith) in
    omega (arith, sift-same i (Heap.down min_less a i (length a)) p, sunk.same p)

-- Candidates become results, until there are `k` of them.
record Taken (k : ℕ) (s t : Selection) : Type 0 where
  some_of :
      (p : PriorityQueueItem → Bool)
      → count p t.candidates + count p t.result ≡ count p s.candidates + count p s.result
  size : length s.result ≤ k → length t.result ≡ min k (length s.result + length s.candidates)

-- One candidate becomes a result.
take_candidate_lem :
    (s : Selection)
    → 0 < length s.candidates
    → (length (take_candidate s).result ≡ length s.result + 1)
      × (length (take_candidate s).candidates + 1 ≡ length s.candidates)
      × ((p : PriorityQueueItem → Bool)
          → count p (take_candidate s).candidates + count p (take_candidate s).result
            ≡ count p s.candidates + count p s.result)
unfolding take_candidate count
take_candidate_lem s h =
    let (m, top, popped) = pop-Popped min_less s.candidates h in
    let pushed = push-Moved max_less m s.result in
    rw (top, push_some)
      (
        (let e = pushed.size in omega arith),
        (let e = popped.size in omega arith),
        λ p. omega (arith, pushed.same p, popped.same p),
      )

take_loop-Taken :
    (fuel k : ℕ) (s : Selection) → length s.candidates ≤ fuel → Taken k s (take_loop fuel k s)
unfolding take_loop count
take_loop-Taken zero k s f = record { some_of = λ p. refl; size = λ h. omega arith }
take_loop-Taken (suc fuel) k s f = elim (Bool-cases (ltb 0 (length s.candidates))) [
  | inr none_left ↦ rw none_left (record { some_of = λ p. refl; size = λ h. ground arith })
  | inl left ↦ elim (Bool-cases (ltb (length s.result) k)) [
    | inr full ↦ rw (left, full) (record { some_of = λ p. refl; size = λ h. ground arith })
    | inl room ↦
        let (size, fewer, counted) = take_candidate_lem s (ground arith) in
        let rest = take_loop-Taken fuel k (take_candidate s) (omega arith) in
        rw (left, room)
          (record {
            some_of = λ p. omega (arith, rest.some_of p, counted p);
            size = λ h. let e = rest.size (ground arith) in omega arith;
          })
  ]
]

take_candidates-Taken : (k : ℕ) (s : Selection) → Taken k s (take_candidates k s)
unfolding take_candidates
take_candidates-Taken k s = take_loop-Taken (length s.candidates) k s (omega arith)

pub select_neighbors_heuristic-Part :
    (k : ℕ) (a : PriorityQueue) (keep : Bool) → Part k a (select_neighbors_heuristic a k keep)
unfolding select_neighbors_heuristic reverse count
select_neighbors_heuristic-Part k a keep =
    let start : Selection = record { candidates = reverse a; result = [] } in
    let first = take_candidates-Taken k start in
    let s = take_candidates k start in
    let second = take_candidates-Taken k s in
    let reversed = sift-same (length a / 2) a in
    let size : length start.candidates ≡ length a =
      omega (arith, reversed (λ x. true), length-eq-count start.candidates, length-eq-count a) in
    let first_size = first.size (omega arith) in
    let second_size = second.size (omega arith) in
    let total : length s.candidates + length s.result ≡ length a = omega (
      arith,
      first.some_of (λ x. true),
      length-eq-count s.candidates,
      length-eq-count s.result,
      length-eq-count start.candidates,
    ) in
    elim (Bool-cases keep) [
      | inl e ↦ rw e (record {
        some_of = λ p. omega (arith, first.some_of p, second.some_of p, reversed p);
        size = omega arith;
      })
      | inr e ↦
          rw e (record {
            some_of = λ p. omega (arith, first.some_of p, reversed p);
            size = omega arith;
          })
    ]
