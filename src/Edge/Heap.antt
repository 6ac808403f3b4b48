-- ===== src/Edge/Heap.antt =====
-- container/heap over a slice, as edge/priorityqueue/priority_queue.go uses it: Less and Swap by
-- index, and the two loops. An index outside the slice, at which Go panics, leaves the slice here.
pub mod Order
pub mod Up
pub mod Down
pub mod PushPop
pub mod Items
use coltt.Prelude.{
  ℕ, zero, suc, ◌+◌, ◌-◌, ◌*◌, ◌/◌, Bool, true, false, not, ◌&&◌, ◌||◌, Option, none, some, List,
  [], ◌∷◌, ◌++◌, length, get_elem?, set, take, ltb, ◌==◌, if◌then◌else◌,
}

module _ {A : Type 0} where
  swap_items : List A → ℕ → ℕ → Option A → Option A → List A
  swap_items a i j (some x) (some y) = set (set a i y) j x
  swap_items a i j x y = a

  -- pq[i], pq[j] = pq[j], pq[i]
  unfoldable pub swap : List A → ℕ → ℕ → List A
  unfolding swap_items
  swap a i j = swap_items a i j (get_elem? a i) (get_elem? a j)

  module _ (less : A → A → Bool) where
    less_items : Option A → Option A → Bool
    less_items (some x) (some y) = less x y
    less_items x y = false

    -- h.Less(i, j)
    unfoldable pub less_at : List A → ℕ → ℕ → Bool
    unfolding less_items
    less_at a i j = less_items (get_elem? a i) (get_elem? a j)

    -- (j - 1) / 2, which is 0 at the root
    abbrev pub parent : ℕ → ℕ
    parent j = (j - 1) / 2

    up_loop : ℕ → List A → ℕ → List A
    up_loop zero a j = a
    up_loop (suc fuel) a j =
        let rest = up_loop fuel (swap a (parent j) j) (parent j) in
        if parent j == j || not (less_at a j (parent j)) then a else rest

    unfoldable pub up : List A → ℕ → List A
    unfolding up_loop less_at
    up a j = up_loop (j + 1) a j

    -- the smaller of the children of `i` among the first `n` items
    smaller_child : List A → ℕ → ℕ → ℕ
    smaller_child a i n =
        if ltb (2 * i + 2) n && less_at a (2 * i + 2) (2 * i + 1) then 2 * i + 2 else 2 * i + 1

    down_loop : ℕ → List A → ℕ → ℕ → List A
    down_loop zero a i n = a
    down_loop (suc fuel) a i n =
        let j = smaller_child a i n in
        let rest = down_loop fuel (swap a i j) j n in
        if not (ltb (2 * i + 1) n) || not (less_at a j i) then a else rest

    unfoldable pub down : List A → ℕ → ℕ → List A
    unfolding down_loop smaller_child less_at
    down a i n = down_loop (n + 1) a i n

    -- heap.Push
    unfoldable pub push : A → List A → List A
    push x a = up (a ++ x ∷ []) (length a)

    -- heap.Pop: the item and the rest; no item where the slice is empty, at which it panics
    unfoldable pub pop : List A → Option A × List A
    pop a = let n = length a - 1 in let b = down (swap a 0 n) 0 n in (get_elem? b n, take n b)
