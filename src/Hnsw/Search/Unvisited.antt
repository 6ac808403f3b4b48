-- ===== src/Hnsw/Search/Unvisited.antt =====
-- The vertices that the search of a level has not visited, by which it ends.
use coltt.Prelude.{
  ℕ, zero, suc, ◌≤◌, ◌<◌, ◌≡◌, inl, inr, false, not, List, [], ◌∷◌, arith, ◌==◌, ==_iff, Bool-cases,
}
use coltt.Prelude.Count.{count, count_mono}
use coltt.Hnsw.{Ref}
use coltt.Hnsw.Search.{seen}

refs : ℕ → List Ref
refs zero = []
refs (suc n) = n ∷ refs n

-- how many of the first `n` vertices are not visited
unfoldable pub unvisited : ℕ → List Ref → ℕ
unfolding refs
unvisited n visited = count (λ r. not (seen r visited)) (refs n)

pub unvisited-cons :
    (n : ℕ) (r : Ref) (visited : List Ref)
    → r < n
    → seen r visited ≡ false
    → unvisited n (r ∷ visited) < unvisited n visited
unfolding unvisited refs count
unvisited-cons zero r visited h e = absurd (omega arith)
unvisited-cons (suc n) r visited h e = elim (Bool-cases (r == n)) [
  | inl last ↦
      let same : r ≡ n = (==_iff r n).0 last in
      let mono =
        count_mono (λ x. not (seen x (r ∷ visited))) (λ x. not (seen x visited))
          (λ x p. ground arith) (refs n) in
      let e' : seen n visited ≡ false = rw (← same) e in rw (last, e') (omega arith)
  | inr before ↦ rw before (omega (arith, unvisited-cons n r visited (ground arith) e))
]

pub unvisited-nil : (n : ℕ) → unvisited n [] ≤ n
unfolding unvisited refs count
unvisited-nil zero = omega arith
unvisited-nil (suc n) = omega (arith, unvisited-nil n)
