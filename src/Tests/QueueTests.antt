-- ===== src/Tests/QueueTests.antt =====
-- The bounded queue at concrete inputs.
use coltt.Prelude.{ℕ, ◌+◌, ◌≤◌, ◌≡◌, refl, Bool, List, [], ◌∷◌, map, length, min, All}
use coltt.Prelude.Count.{count}
use coltt.Prelude.Float.{float32_ltb}
use coltt.Prelude.Int.{pos}
use coltt.Edge.Heap.{push, pop, up, down, swap}
use coltt.Edge.Queue.{SearchResultItem, PriorityQueueItem, new_priority_queue, add, add_all, values}
use coltt.Edge.Queue.TopK.{score_rank, item_of, add_all-highest}

-- Scores 1.0, 0.5 and 2.0.
abbrev result : ℕ → ℕ → SearchResultItem
result id score = record { id = id; metadata = []; score = score }

abbrev results : List SearchResultItem
results = result 1 0x3f800000 ∷ result 2 0x3f000000 ∷ result 3 0x40000000 ∷ []

add_all-highest_example :
    (kept : List PriorityQueueItem) × (dropped : List PriorityQueueItem) × ((add_all results
        (new_priority_queue (pos 2))).queue
      ≡ kept)
    × ((p : PriorityQueueItem → Bool)
        → count p kept + count p dropped ≡ count p (map item_of results))
    × (length kept ≡ min 2 (length results))
    × All (λ d. All (λ x. score_rank d ≤ score_rank x) kept) dropped
add_all-highest_example = add_all-highest 2 results refl

-- The result with the least score, the nearest vector, is dropped.
drops_least : map (λ x. x.id) (values (add_all results (new_priority_queue (pos 2)))) ≡ 1 ∷ 3 ∷ []
unfolding values add_all add push pop up down swap float32_ltb
drops_least = refl
