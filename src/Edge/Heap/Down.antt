-- ===== src/Edge/Heap/Down.antt =====
-- The loop that sinks the item at the root to its place among the first `n` items.
use coltt.Prelude.{
  ℕ, zero, suc, ◌+◌, ◌-◌, ◌*◌, ◌/◌, ◌≤◌, ◌<◌, ◌≡◌, ◌≢◌, refl, ◌∙◌, Bool, true, not, ◌⊎◌, List,
  length, get_elem?, arith, ltb, Bool-cases, inl, inr,
}
use coltt.Prelude.Count.{SameItems}
use coltt.Edge.Heap.{swap, smaller_child, down_loop, down}
use coltt.Edge.Heap.Order.{
  key_at, IsHeap, key_at-swap, AllGood, less_at_lem, length-swap, swap-SameItems, get_elem?-swap,
}

module _ {A : Type 0} (key : A → ℕ) where
  -- Only the edges below `i` may be out of order.
  pub record DownInv (n : ℕ) (a : List A) (i : ℕ) : Type 0 where
    pub size : n ≤ length a
    pub edges :
        (c : ℕ) → 0 < c → c < n → (c - 1) / 2 ≢ i → key_at key a ((c - 1) / 2) ≤ key_at key a c
    pub bridged :
        (c : ℕ)
        → 0 < c
        → c < n
        → (c - 1) / 2 ≡ i
        → 0 < i
        → key_at key a ((i - 1) / 2) ≤ key_at key a c

  -- `m` is the child of `i` with the lower key.
  record IsSmallerChild (n : ℕ) (a : List A) (i m : ℕ) : Type 0 where
    inside : m < n
    child : (m ≡ 2 * i + 1) ⊎ (m ≡ 2 * i + 2)
    least : (c : ℕ) → 0 < c → c < n → (c - 1) / 2 ≡ i → key_at key a m ≤ key_at key a c

  swap-DownInv :
      (n : ℕ) (a : List A) (i m : ℕ)
      → DownInv n a i
      → IsSmallerChild n a i m
      → key_at key a m < key_at key a i
      → DownInv n (swap a i m) m
  swap-DownInv n a i m v s below =
      let hm : m < length a = let x = s.inside in let y = v.size in omega arith in
      let hi : i < length a = let x = s.child in omega arith in
      let at = λ (c : ℕ). key_at-swap key a i m c hi hm in
      record {
        size = let y = v.size in omega (arith, length-swap a i m hi hm);
        edges = λ c p q r.
            ground
              (arith, at c, at ((c - 1) / 2), v.edges c, v.bridged m, s.least c, s.child, s.inside);
        bridged = λ c p q r t. ground (arith, at c, at ((m - 1) / 2), v.edges c, s.child);
      }

  module _ (less : A → A → Bool) (good : A → Bool)
      (agrees : (x y : A) → good x ≡ true → good y ≡ true → less x y ≡ ltb (key x) (key y)) where
    smaller_child-IsSmallerChild :
        (n : ℕ) (a : List A) (i : ℕ)
        → n ≤ length a
        → AllGood good a
        → 2 * i + 1 < n
        → IsSmallerChild n a i (smaller_child less a i n)
    unfolding smaller_child
    smaller_child-IsSmallerChild n a i size g h =
        let e = less_at_lem key less good agrees a (2 * i + 2) (2 * i + 1) g in
        record {
          inside = ground arith;
          child = ground arith;
          least = λ c p q r.
              let side : (c ≡ 2 * i + 1) ⊎ (c ≡ 2 * i + 2) = omega arith in ground (arith, e, side);
        }

    down_loop_restores :
        (fuel n : ℕ) (a : List A) (i : ℕ)
        → n < fuel + i
        → DownInv n a i
        → AllGood good a
        → IsHeap key n (down_loop less fuel a i n)
          × SameItems (down_loop less fuel a i n) a
          × (length (down_loop less fuel a i n) ≡ length a)
          × ((c : ℕ) → n ≤ c → get_elem? (down_loop less fuel a i n) c ≡ get_elem? a c)
    unfolding down_loop
    down_loop_restores zero n a i f v g =
        (λ c p q. v.edges c p q (omega arith), λ p. refl, refl, λ c p. refl)
    down_loop_restores (suc fuel) n a i f v g = elim (Bool-cases (ltb (2 * i + 1) n)) [
      | inl more ↦
          let m = smaller_child less a i n in
          let s = smaller_child-IsSmallerChild n a i v.size g (ground arith) in
          let hm : m < length a = let x = s.inside in let y = v.size in omega arith in
          let hi : i < length a = let x = v.size in ground arith in
          let lem = less_at_lem key less good agrees a m i g hm hi in
          elim (Bool-cases (ltb (key_at key a m) (key_at key a i))) [
            | inl below ↦
                let same = swap-SameItems a i m hi hm in
                let r =
                  down_loop_restores fuel n (swap a i m) m (let x = s.child in omega arith)
                    (swap-DownInv n a i m v s (ground arith)) (same (λ x. not (good x)) ∙ g) in
                rw (more, lem, below)
                  (
                    r.0,
                    λ p. r.1 p ∙ same p,
                    r.2 ∙ length-swap a i m hi hm,
                    λ c p.
                        r.3 c p
                        ∙ (let x = s.inside in ground (arith, get_elem?-swap a i m hi hm c)),
                  )
            | inr settled ↦
                rw (more, lem, settled)
                  (λ c p q. ground (arith, v.edges c, s.least c), λ p. refl, refl, λ c p. refl)
          ]
      | inr leaf ↦ rw leaf (λ c p q. ground (arith, v.edges c), λ p. refl, refl, λ c p. refl)
    ]

    pub down_restores :
        (n : ℕ) (a : List A) (i : ℕ)
        → DownInv n a i
        → AllGood good a
        → IsHeap key n (down less a i n)
          × SameItems (down less a i n) a
          × (length (down less a i n) ≡ length a)
          × ((c : ℕ) → n ≤ c → get_elem? (down less a i n) c ≡ get_elem? a c)
    unfolding down
    down_restores n a i v g = down_loop_restores (n + 1) n a i (omega arith) v g
