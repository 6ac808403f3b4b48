-- ===== src/Edge/Heap/PushPop.antt =====
-- heap.Push and heap.Pop and the heap order.
use coltt.Prelude.{
  ℕ, zero, suc, ◌+◌, ◌-◌, ◌/◌, ◌≤◌, ◌<◌, ◌≡◌, refl, ◌∙◌, Bool, true, not, some, List, [], ◌∷◌, ◌++◌,
  length, length-append, length-take_le, get_elem?, take, All, arith, ltb,
}
use coltt.Prelude.Count.{bit, count, SameItems, count-append, count-take, All-of_count}
use coltt.Edge.Heap.{swap, push, pop, down}
use coltt.Edge.Heap.Order.{
  key_at, IsHeap, AllGood, root_least, get_elem?-inside, get_elem?-swap, length-swap,
  swap-SameItems, key_at-swap,
}
use coltt.Edge.Heap.Up.{up_restores}
use coltt.Edge.Heap.Down.{down_restores}

module _ {A : Type 0} where
  get_elem?-append : (a b : List A) (i : ℕ) → i < length a → get_elem? (a ++ b) i ≡ get_elem? a i
  get_elem?-append [] b i h = absurd (omega arith)
  get_elem?-append (x ∷ a) b zero h = refl
  get_elem?-append (x ∷ a) b (suc i) h = get_elem?-append a b i (omega arith)

  get_elem?-take : (n : ℕ) (a : List A) (i : ℕ) → i < n → get_elem? (take n a) i ≡ get_elem? a i
  get_elem?-take zero a i h = absurd (omega arith)
  get_elem?-take (suc n) [] i h = refl
  get_elem?-take (suc n) (x ∷ a) zero h = refl
  get_elem?-take (suc n) (x ∷ a) (suc i) h = get_elem?-take n a i (omega arith)

  -- A list whose every place reaches the bound has no item below it.
  pub none_below :
      (key : A → ℕ) (t : ℕ) (a : List A)
      → ((i : ℕ) → i < length a → t ≤ key_at key a i)
      → count (λ x. ltb (key x) t) a ≡ 0
  unfolding count
  none_below key t [] h = refl
  none_below key t (x ∷ a) h =
      let first = h 0 (omega arith) in
      ground (arith, none_below key t a (λ i p. h (suc i) (omega arith)))

module _ {A : Type 0} (key : A → ℕ) (less : A → A → Bool) (good : A → Bool)
    (agrees : (x y : A) → good x ≡ true → good y ≡ true → less x y ≡ ltb (key x) (key y)) where
  pub push_restores :
      (x : A) (a : List A)
      → IsHeap key (length a) a
      → AllGood good (x ∷ a)
      → IsHeap key (length a + 1) (push less x a) × SameItems (push less x a) (x ∷ a)
  unfolding push count
  push_restores x a h g =
      let b = a ++ x ∷ [] in
      let same : SameItems b (x ∷ a) = λ p. omega (arith, count-append p a (x ∷ [])) in
      let before = λ (i : ℕ). get_elem?-append a (x ∷ []) i in
      let (heap, items) =
        up_restores key less good agrees (length a + 1) b (length a)
          (record {
            inside = omega arith;
            size = length-append a (x ∷ []);
            edges = λ c p q r. ground (arith, before c, before ((c - 1) / 2), h c);
            bridged = λ c p q r t. absurd (omega arith);
          })
          (same (λ y. not (good y)) ∙ g) in
      (heap, λ p. items p ∙ same p)

  pub pop_restores :
      (a : List A) (n : ℕ)
      → length a ≡ suc n
      → IsHeap key (suc n) a
      → AllGood good a
      → (m : A) × ((pop less a).0 ≡ some m)
        × IsHeap key n (pop less a).1
        × (length (pop less a).1 ≡ n)
        × ((p : A → Bool) → bit (p m) + count p (pop less a).1 ≡ count p a)
        × All (λ x. key m ≤ key x) (pop less a).1
  unfolding pop
  pop_restores a n e h g =
      let last : length a - 1 ≡ n = omega arith in
      let s = swap a 0 n in
      let hn : n < length a = omega arith in
      let h0 : 0 < length a = omega arith in
      let same = swap-SameItems a 0 n h0 hn in
      let at = λ (c : ℕ). key_at-swap key a 0 n c h0 hn in
      let (heap, items, len, past) =
        down_restores key less good agrees n s 0
          (record {
            size = omega (arith, length-swap a 0 n h0 hn);
            edges = λ c p q r. ground (arith, at c, at ((c - 1) / 2), h c);
            bridged = λ c p q r t. absurd (omega arith);
          })
          (same (λ y. not (good y)) ∙ g) in
      let b = down less s 0 n in
      let size : length b ≡ suc n = len ∙ length-swap a 0 n h0 hn ∙ e in
      let (m, em) = get_elem?-inside a 0 h0 in
      let top : get_elem? b n ≡ some m =
        past n (omega arith) ∙ ground (arith, get_elem?-swap a 0 n h0 hn n, em) in
      let taken : (p : A → Bool) → bit (p m) + count p (take n b) ≡ count p a =
        λ p. omega (arith, count-take p n b m size top, items p, same p) in
      let least : count (λ x. ltb (key x) (key m)) a ≡ 0 =
        none_below key (key m) a (λ i q. ground (arith, root_least key (suc n) a i h, em)) in
      rw last (
        m,
        top,
        λ c p q. ground (arith, get_elem?-take n b c, get_elem?-take n b ((c - 1) / 2), heap c),
        length-take_le n b (omega arith),
        taken,
        All-of_count key (key m) (take n b) (omega (arith, taken (λ x. ltb (key x) (key m)))),
      )
