-- ===== src/Edge/Heap/Items.antt =====
-- The loops of the heap only move items, whatever the order is.
use coltt.Prelude.{
  ℕ, zero, suc, ◌+◌, ◌-◌, ◌*◌, ◌/◌, ◌≤◌, ◌<◌, ◌≡◌, refl, ◌∙◌, Bool, not, ◌||◌, some, List, [], ◌∷◌,
  ◌++◌, length, length-append, length-take_le, arith, ltb, Bool-cases, inl, inr, ◌==◌,
}
use coltt.Prelude.Count.{bit, count, SameItems, count-append, count-take}
use coltt.Edge.Heap.{swap, push, pop, up, up_loop, down, down_loop, smaller_child, less_at}
use coltt.Edge.Heap.Order.{get_elem?-inside, length-swap, swap-SameItems}

module _ {A : Type 0} (less : A → A → Bool) where
  -- Items have moved and nothing else.
  pub record Moved (a b : List A) : Type 0 where
    pub same : SameItems b a
    pub size : length b ≡ length a

  Moved-refl : (a : List A) → Moved a a
  Moved-refl a = record { same = λ p. refl; size = refl }

  Moved-trans : (a b c : List A) → Moved a b → Moved b c → Moved a c
  Moved-trans a b c u v = record { same = λ p. v.same p ∙ u.same p; size = v.size ∙ u.size }

  swap-Moved : (a : List A) (i j : ℕ) → i < length a → j < length a → Moved a (swap a i j)
  swap-Moved a i j h k = record { same = swap-SameItems a i j h k; size = length-swap a i j h k }

  up_loop-Moved : (fuel : ℕ) (a : List A) (j : ℕ) → j < length a → Moved a (up_loop less fuel a j)
  unfolding up_loop
  up_loop-Moved zero a j h = Moved-refl a
  up_loop-Moved (suc fuel) a j h =
      elim (Bool-cases ((j - 1) / 2 == j || not (less_at less a j ((j - 1) / 2)))) [
        | inl stop ↦ rw stop (Moved-refl a)
        | inr go ↦
            let moved = swap-Moved a ((j - 1) / 2) j (omega arith) h in
            rw go (
              Moved-trans a (swap a ((j - 1) / 2) j) _ moved (
                up_loop-Moved fuel (swap a ((j - 1) / 2) j) ((j - 1) / 2)
                  (let e = moved.size in omega arith)))
      ]

  down_loop-Moved :
      (fuel n : ℕ) (a : List A) (i : ℕ) → n ≤ length a → Moved a (down_loop less fuel a i n)
  unfolding down_loop
  down_loop-Moved zero n a i h = Moved-refl a
  down_loop-Moved (suc fuel) n a i h =
      let j = smaller_child less a i n in
      elim (Bool-cases (not (ltb (2 * i + 1) n) || not (less_at less a j i))) [
        | inl stop ↦ rw stop (Moved-refl a)
        | inr go ↦
            let inside : (i < length a) × (j < length a) = unfold smaller_child in ground arith in
            let moved = swap-Moved a i j inside.0 inside.1 in
            rw go (
              Moved-trans a (swap a i j) _ moved
                (down_loop-Moved fuel n (swap a i j) j (let e = moved.size in omega arith)))
      ]

  pub down-Moved : (a : List A) (i n : ℕ) → n ≤ length a → Moved a (down less a i n)
  unfolding down
  down-Moved a i n h = down_loop-Moved (n + 1) n a i h

  pub push-Moved : (x : A) (a : List A) → Moved (x ∷ a) (push less x a)
  unfolding push up count
  push-Moved x a =
      let b = a ++ x ∷ [] in
      let size = length-append a (x ∷ []) in
      let lifted = up_loop-Moved (length a + 1) b (length a) (omega arith) in
      record {
        same = λ p. lifted.same p ∙ (omega (arith, count-append p a (x ∷ [])));
        size = let e = lifted.size in omega arith;
      }

  -- heap.Pop on a heap with items hands out one of them.
  pub record Popped (a : List A) (m : A) (rest : List A) : Type 0 where
    pub size : length a ≡ suc (length rest)
    pub same : (p : A → Bool) → bit (p m) + count p rest ≡ count p a

  pub pop-Popped :
      (a : List A) → 0 < length a → (m : A) × ((pop less a).0 ≡ some m) × Popped a m (pop less a).1
  unfolding pop
  pop-Popped a h =
      let n = length a - 1 in
      let s = swap a 0 n in
      let swapped = swap-Moved a 0 n h (omega arith) in
      let sunk = down-Moved s 0 n (let e = swapped.size in omega arith) in
      let b = down less s 0 n in
      let e : length b ≡ suc n = let x = sunk.size in let y = swapped.size in omega arith in
      let (m, top) = get_elem?-inside b n (omega arith) in
      (
        m,
        top,
        record {
          size = omega (arith, length-take_le n b);
          same = λ p. omega (arith, count-take p n b m e top, sunk.same p, swapped.same p);
        },
      )
