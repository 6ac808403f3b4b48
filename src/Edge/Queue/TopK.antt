-- ===== src/Edge/Queue/TopK.antt =====
-- What the bounded queue keeps of the items that were added.
use coltt.Prelude.{
  ℕ, ◌+◌, ◌≤◌, ◌≡◌, refl, ◌∙◌, ◌⊎◌, inl, inr, Bool, true, not, List, [], ◌∷◌, length, All, All-map,
  all, map, length-map, min, subst, fun_ext, arith, ltb, Bool-cases,
}
use coltt.Prelude.Int.{pos, ltb_ℤ}
use coltt.Prelude.Float.{float32_ltb, float32_nan, float32_rank}
use coltt.Prelude.Count.{bit, count, count_of_All, All-of_count, length-eq-count}
use coltt.Edge.Heap
use coltt.Edge.Heap.Order.{IsHeap, AllGood}
use coltt.Edge.Heap.PushPop.{push_restores, pop_restores}
use coltt.Edge.Queue.{
  SearchResultItem, PriorityQueueItem, less, PriorityQueue, new_priority_queue, add, add_all,
}

abbrev pub score_rank : PriorityQueueItem → ℕ
score_rank x = float32_rank x.priority

abbrev pub is_number : PriorityQueueItem → Bool
is_number x = not (float32_nan x.priority)

abbrev pub item_of : SearchResultItem → PriorityQueueItem
item_of item = record { priority = item.score; value = item }

less_agrees :
    (x y : PriorityQueueItem)
    → is_number x ≡ true
    → is_number y ≡ true
    → less x y ≡ ltb (score_rank x) (score_rank y)
unfolding less float32_ltb
less_agrees x y h k = ground arith

-- A queue of size `k` at most, of the items counted by `total` but for some dropped ones, none of
-- which has a higher score than a kept one. Nothing is dropped while there is room.
pub record Keeps (k : ℕ) (a : List PriorityQueueItem) (total : (PriorityQueueItem → Bool) → ℕ)
    : Type 0 where
  pub heap : IsHeap score_rank (length a) a
  pub size : length a ≤ k
  pub dropped : List PriorityQueueItem
  pub counted : (p : PriorityQueueItem → Bool) → count p a + count p dropped ≡ total p
  pub highest : All (λ d. All (λ x. score_rank d ≤ score_rank x) a) dropped
  pub full : (length dropped ≡ 0) ⊎ (length a ≡ k)
  pub numbers : total (λ x. not (is_number x)) ≡ 0

pub reaches_from :
    (t : ℕ) (xs : List PriorityQueueItem) (m : ℕ)
    → t ≤ m
    → All (λ x. m ≤ score_rank x) xs
    → All (λ x. t ≤ score_rank x) xs
reaches_from t xs m h = All-map _ _ xs (λ x p. omega arith)

module _ (k : ℕ) (a : List PriorityQueueItem) (total : (PriorityQueueItem → Bool) → ℕ)
    (v : Keeps k a total) (x : PriorityQueueItem) (g : is_number x ≡ true) where
  all_numbers : AllGood is_number (x ∷ a)
  unfolding count
  all_numbers = let c = v.counted (λ y. not (is_number y)) in let n = v.numbers in ground arith

  pushed_lem :
      IsHeap score_rank (length a + 1) (Heap.push less x a)
      × ((p : PriorityQueueItem → Bool) → count p (Heap.push less x a) ≡ bit (p x) + count p a)
      × (length (Heap.push less x a) ≡ length a + 1)
  unfolding count
  pushed_lem =
      let (heap, items) =
        push_restores score_rank less is_number less_agrees x a v.heap all_numbers in
      (
        heap,
        items,
        omega (arith, length-eq-count (Heap.push less x a), length-eq-count a, items (λ y. true)),
      )

  counted_numbers : bit (not (is_number x)) + total (λ y. not (is_number y)) ≡ 0
  counted_numbers = let n = v.numbers in ground arith

  All-of_empty :
      (P : PriorityQueueItem → Type 0) (d : List PriorityQueueItem) → length d ≡ 0 → All P d
  All-of_empty P [] h = tt
  All-of_empty P (y ∷ d) h = absurd (omega arith)

  -- with room, the item is kept
  push-Keeps : length a + 1 ≤ k → Keeps k (Heap.push less x a) (λ p. bit (p x) + total p)
  push-Keeps room =
      let (heap, items, len) = pushed_lem in
      let none_dropped : length v.dropped ≡ 0 = let f = v.full in omega arith in
      record {
        heap = rw len heap;
        size = omega (arith, len);
        dropped = v.dropped;
        counted = λ p. omega (arith, v.counted p, items p);
        highest = All-of_empty _ v.dropped none_dropped;
        full = inl none_dropped;
        numbers = counted_numbers;
      }

  -- Where one more item comes than is kept, what was below every kept item stays below.
  still_below :
      (m : PriorityQueueItem) (rest : List PriorityQueueItem)
      → ((p : PriorityQueueItem → Bool) → bit (p m) + count p rest ≡ bit (p x) + count p a)
      → All (λ y. score_rank m ≤ score_rank y) rest
      → (d : PriorityQueueItem) → All (λ y. score_rank d ≤ score_rank y) a
      → All (λ y. score_rank d ≤ score_rank y) rest
  still_below m rest taken least d h = elim (Bool-cases (ltb (score_rank m) (score_rank d))) [
    | inl below ↦
        let p = λ (y : PriorityQueueItem). ltb (score_rank y) (score_rank d) in
        All-of_count score_rank (score_rank d) rest
          (ground (arith, taken p, below, count_of_All score_rank (score_rank d) a h))
    | inr above ↦ reaches_from (score_rank d) rest (score_rank m) (ground arith) least
  ]

  -- without room, the least item is dropped
  pop-Keeps :
      length a ≡ k → Keeps k (Heap.pop less (Heap.push less x a)).1 (λ p. bit (p x) + total p)
  unfolding count
  pop-Keeps e =
      let (heap, items, len) = pushed_lem in
      let q = Heap.push less x a in
      let good : AllGood is_number q = items (λ y. not (is_number y)) ∙ all_numbers in
      let (m, top, heap', len', taken, least) =
        pop_restores score_rank less is_number less_agrees q k (omega (arith, len))
          (λ c p r. heap c p (omega arith)) good in
      let rest = (Heap.pop less q).1 in
      let taken' : (p : PriorityQueueItem → Bool)
          → bit (p m) + count p rest ≡ bit (p x) + count p a =
        λ p. taken p ∙ items p in
      record {
        heap = rw len' heap';
        size = omega (arith, len');
        dropped = m ∷ v.dropped;
        counted = λ p. omega (arith, v.counted p, taken' p);
        highest = (least, All-map _ _ v.dropped (still_below m rest taken' least) v.highest);
        full = inr len';
        numbers = counted_numbers;
      }

module _ (k : ℕ) where
  -- one call of Add
  add-Keeps :
      (item : SearchResultItem) (pq : PriorityQueue) (total : (PriorityQueueItem → Bool) → ℕ)
      → pq.max_size ≡ pos k
      → is_number (item_of item) ≡ true
      → Keeps k pq.queue total
      → Keeps k (add item pq).queue (λ p. bit (p (item_of item)) + total p)
        × ((add item pq).max_size ≡ pos k)
  unfolding add
  add-Keeps item pq total e g v =
      let x = item_of item in
      let len = (pushed_lem k pq.queue total v x g).2 in
      elim (Bool-cases (ltb_ℤ (pos k) (pos (length (Heap.push less x pq.queue))))) [
        | inl over ↦
            rw (e, over) (pop-Keeps k pq.queue total v x g (let s = v.size in ground arith), refl)
        | inr room ↦ rw (e, room) (push-Keeps k pq.queue total v x g (ground arith), refl)
      ]

  pub add_all-Keeps :
      (items : List SearchResultItem) (pq : PriorityQueue) (total : (PriorityQueueItem → Bool) → ℕ)
      → pq.max_size ≡ pos k
      → all (λ item. not (float32_nan item.score)) items ≡ true
      → Keeps k pq.queue total
      → Keeps k (add_all items pq).queue (λ p. count p (map item_of items) + total p)
  unfolding add_all count
  add_all-Keeps [] pq total e g v = subst (Keeps k pq.queue) (fun_ext (λ p. omega arith)) v
  add_all-Keeps (item ∷ items) pq total e g v =
      let (v', e') = add-Keeps item pq total e (ground arith) v in
      subst (Keeps k (add_all items (add item pq)).queue) (fun_ext (λ p. omega arith)) (
        add_all-Keeps items (add item pq) (λ p. bit (p (item_of item)) + total p) e' (ground arith)
          v')

  -- The bounded queue, after any items with numbers for scores, holds as many as fit, and the
  -- others, which it dropped, have no score above a kept one: it keeps the highest scores.
  pub add_all-highest :
      (items : List SearchResultItem)
      → all (λ item. not (float32_nan item.score)) items ≡ true
      → (kept : List PriorityQueueItem) × (dropped : List PriorityQueueItem) × ((add_all items
            (new_priority_queue (pos k))).queue
          ≡ kept)
        × ((p : PriorityQueueItem → Bool)
            → count p kept + count p dropped ≡ count p (map item_of items))
        × (length kept ≡ min k (length items))
        × All (λ d. All (λ x. score_rank d ≤ score_rank x) kept) dropped
  unfolding count
  add_all-highest items g =
      let start : Keeps k [] (λ p. 0) = record {
        heap = λ c p q. absurd (omega arith);
        size = omega arith;
        dropped = [];
        counted = λ p. refl;
        highest = tt;
        full = inl refl;
        numbers = refl;
      } in
      let v = add_all-Keeps items (new_priority_queue (pos k)) (λ p. 0) refl g start in
      let kept = (add_all items (new_priority_queue (pos k))).queue in
      (
        kept,
        v.dropped,
        refl,
        λ p. omega (arith, v.counted p),
        (let s = v.size in
            let f = v.full in
            omega (
              arith,
              v.counted (λ x. true),
              length-eq-count kept,
              length-eq-count v.dropped,
              length-eq-count (map item_of items),
              length-map item_of items,
            )),
        v.highest,
      )
