-- ===== src/Edge/Heap/Order.antt =====
-- The order of the heap, and what a swap does to it.
use coltt.Prelude.{
  ℕ, zero, suc, ◌-◌, ◌/◌, ◌≤◌, ◌<◌, ◌≡◌, refl, ◌∙◌, Bool, true, not, Option, none, some, List, [],
  ◌∷◌, length, get_elem?, set, length-set, arith, ltb, ◌==◌, if◌then◌else◌,
}
use coltt.Prelude.Count.{bit, count, SameItems, count-set, count-get}
use coltt.Edge.Heap.{swap, swap_items, less_at, less_items}

module _ {A : Type 0} where
  pub get_elem?-inside : (a : List A) (i : ℕ) → i < length a → (x : A) × (get_elem? a i ≡ some x)
  get_elem?-inside [] i h = absurd (omega arith)
  get_elem?-inside (x ∷ a) zero h = (x, refl)
  get_elem?-inside (x ∷ a) (suc i) h = get_elem?-inside a i (omega arith)

  get_elem?-set :
      (a : List A) (i j : ℕ) (v : A)
      → i < length a
      → get_elem? (set a i v) j ≡ (if i == j then some v else get_elem? a j)
  get_elem?-set [] i j v h = absurd (omega arith)
  get_elem?-set (x ∷ a) zero zero v h = refl
  get_elem?-set (x ∷ a) zero (suc j) v h = ground arith
  get_elem?-set (x ∷ a) (suc i) zero v h = ground arith
  get_elem?-set (x ∷ a) (suc i) (suc j) v h = ground (arith, get_elem?-set a i j v)

  module _ (a : List A) (i j : ℕ) (hi : i < length a) (hj : j < length a) where
    pub get_elem?-swap :
        (c : ℕ)
        → get_elem? (swap a i j) c
          ≡ (if j == c then get_elem? a i else if i == c then get_elem? a j else get_elem? a c)
    unfolding swap
    get_elem?-swap c =
        let (x, ex) = get_elem?-inside a i hi in
        let (y, ey) = get_elem?-inside a j hj in
        rw (ex, ey, swap_items)
          (ground (
            arith,
            get_elem?-set (set a i y) j c x,
            get_elem?-set a i c y,
            length-set a i y,
            ex,
            ey,
          ))

    pub length-swap : length (swap a i j) ≡ length a
    unfolding swap
    length-swap =
        let (x, ex) = get_elem?-inside a i hi in
        let (y, ey) = get_elem?-inside a j hj in
        rw (ex, ey, swap_items) (length-set (set a i y) j x ∙ length-set a i y)

    pub swap-SameItems : SameItems (swap a i j) a
    unfolding swap
    swap-SameItems p =
        let (x, ex) = get_elem?-inside a i hi in
        let (y, ey) = get_elem?-inside a j hj in
        let (z, ez) = get_elem?-inside (set a i y) j (omega (arith, length-set a i y)) in
        let same : bit (p z) ≡ bit (p y) = ground (arith, get_elem?-set a i j y, ez, ey) in
        rw (ex, ey, swap_items)
          (omega (arith, same, count-set p (set a i y) j x z ez, count-set p a i y x ex))

-- `less` compares the keys of good items; other items (such as a NaN score) have no place in
-- the order.
-- Every item is good.
abbrev pub AllGood : {A : Type 0} → (A → Bool) → List A → Type 0
AllGood good a = count (λ x. not (good x)) a ≡ 0

module _ {A : Type 0} (key : A → ℕ) where
  abbrev pub key_of : Option A → ℕ
  key_of none = 0
  key_of (some x) = key x

  abbrev pub key_at : List A → ℕ → ℕ
  key_at a i = key_of (get_elem? a i)

  -- Among the first `n` items no child is below its parent.
  abbrev pub IsHeap : ℕ → List A → Type 0
  IsHeap n a = (c : ℕ) → 0 < c → c < n → key_at a ((c - 1) / 2) ≤ key_at a c

  pub key_at-swap :
      (a : List A) (i j c : ℕ)
      → i < length a
      → j < length a
      → key_at (swap a i j) c
        ≡ (if j == c then key_at a i else if i == c then key_at a j else key_at a c)
  key_at-swap a i j c hi hj = ground (arith, get_elem?-swap a i j hi hj c)

  root_least_below :
      (k n : ℕ) (a : List A) (i : ℕ) → IsHeap n a → i < k → i < n → key_at a 0 ≤ key_at a i
  root_least_below zero n a i h f p = absurd (omega arith)
  root_least_below (suc k) n a zero h f p = omega arith
  root_least_below (suc k) n a (suc i) h f p = omega (
    arith,
    h (suc i) (omega arith) p,
    root_least_below k n a ((suc i - 1) / 2) h (omega arith) (omega arith),
  )

  -- No item of a heap is below its root.
  pub root_least : (n : ℕ) (a : List A) (i : ℕ) → IsHeap n a → i < n → key_at a 0 ≤ key_at a i
  root_least n a i h p = root_least_below (suc i) n a i h (omega arith) p

  module _ (less : A → A → Bool) (good : A → Bool)
      (agrees : (x y : A) → good x ≡ true → good y ≡ true → less x y ≡ ltb (key x) (key y)) where
    good_at : (a : List A) (i : ℕ) (x : A) → AllGood good a → get_elem? a i ≡ some x → good x ≡ true
    good_at a i x g e = ground (arith, count-get (λ y. not (good y)) a i x e)

    pub less_at_lem :
        (a : List A) (i j : ℕ)
        → AllGood good a
        → i < length a
        → j < length a
        → less_at less a i j ≡ ltb (key_at a i) (key_at a j)
    unfolding less_at
    less_at_lem a i j g hi hj =
        let (x, ex) = get_elem?-inside a i hi in
        let (y, ey) = get_elem?-inside a j hj in
        rw (ex, ey, less_items) (agrees x y (good_at a i x g ex) (good_at a j y g ey))
