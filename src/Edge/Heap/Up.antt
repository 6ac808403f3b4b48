-- ===== src/Edge/Heap/Up.antt =====
-- The loop that lifts a new item to its place.
use coltt.Prelude.{
  ℕ, zero, suc, ◌+◌, ◌-◌, ◌/◌, ◌≤◌, ◌<◌, ◌≡◌, ◌≢◌, refl, ◌∙◌, Bool, true, not, ◌||◌, List, length,
  arith, ltb, ◌==◌, Bool-cases, inl, inr,
}
use coltt.Prelude.Count.{SameItems}
use coltt.Edge.Heap.{swap, up_loop, up}
use coltt.Edge.Heap.Order.{
  key_at, IsHeap, key_at-swap, AllGood, less_at_lem, length-swap, swap-SameItems,
}

module _ {A : Type 0} (key : A → ℕ) where
  -- Only the edge above `j` may be out of order.
  pub record UpInv (n : ℕ) (a : List A) (j : ℕ) : Type 0 where
    pub inside : j < n
    pub size : length a ≡ n
    pub edges : (c : ℕ) → 0 < c → c < n → c ≢ j → key_at key a ((c - 1) / 2) ≤ key_at key a c
    pub bridged :
        (c : ℕ)
        → 0 < c
        → c < n
        → (c - 1) / 2 ≡ j
        → 0 < j
        → key_at key a ((j - 1) / 2) ≤ key_at key a c

  swap-UpInv :
      (n : ℕ) (a : List A) (j : ℕ)
      → UpInv n a j
      → 0 < j
      → key_at key a j < key_at key a ((j - 1) / 2)
      → UpInv n (swap a ((j - 1) / 2) j) ((j - 1) / 2)
  swap-UpInv n a j v pos below =
      let i = (j - 1) / 2 in
      let hi : i < length a = let s = v.inside in let t = v.size in omega arith in
      let hj : j < length a = let s = v.inside in let t = v.size in omega arith in
      let at = λ (c : ℕ). key_at-swap key a i j c hi hj in
      record {
        inside = let s = v.inside in omega arith;
        size = length-swap a i j hi hj ∙ v.size;
        edges =
            λ c p q r. ground (arith, at c, at ((c - 1) / 2), v.edges c, v.edges i, v.bridged c);
        bridged =
            λ c p q r t. ground (arith, at c, at ((i - 1) / 2), v.edges c, v.edges i, v.edges j);
      }

  module _ (less : A → A → Bool) (good : A → Bool)
      (agrees : (x y : A) → good x ≡ true → good y ≡ true → less x y ≡ ltb (key x) (key y)) where
    up_loop_restores :
        (fuel n : ℕ) (a : List A) (j : ℕ)
        → j < fuel
        → UpInv n a j
        → AllGood good a
        → IsHeap key n (up_loop less fuel a j) × SameItems (up_loop less fuel a j) a
    unfolding up_loop
    up_loop_restores zero n a j f v g = absurd (omega arith)
    up_loop_restores (suc fuel) n a j f v g =
        let i = (j - 1) / 2 in
        let hj : j < length a = let s = v.inside in let t = v.size in omega arith in
        let hi : i < length a = omega arith in
        rw (less_at_lem key less good agrees a j i g hj hi)
          (elim (Bool-cases (i == j || not (ltb (key_at key a j) (key_at key a i)))) [
            | inl stop ↦ rw stop (λ c p q. ground (arith, v.edges c), λ p. refl)
            | inr go ↦
                let pos : 0 < j = ground arith in
                let below : key_at key a j < key_at key a i = ground arith in
                let same = swap-SameItems a i j hi hj in
                let (heap, items) =
                  up_loop_restores fuel n (swap a i j) i (omega arith)
                    (swap-UpInv n a j v pos below) (same (λ x. not (good x)) ∙ g) in
                rw go (heap, λ p. items p ∙ same p)
          ])

    pub up_restores :
        (n : ℕ) (a : List A) (j : ℕ)
        → UpInv n a j
        → AllGood good a
        → IsHeap key n (up less a j) × SameItems (up less a j) a
    unfolding up
    up_restores n a j v g = up_loop_restores (j + 1) n a j (omega arith) v g
