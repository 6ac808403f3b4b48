-- ===== src/Edge/Queue/Selection.antt =====
-- The selection of results with the highest scores, told by counts, so that selections from parts
-- can be put together.
use coltt.Prelude.{
  ℕ, ◌≤◌, ◌≡◌, refl, ap, ◌⊎◌, inl, inr, Bool, true, false, not, List, [], ◌∷◌, length, All, all,
  map, min, arith, Bool-cases, ltb, if◌then◌else◌,
}
use coltt.Prelude.Int.{pos}
use coltt.Prelude.Float.{float32_nan, float32_rank}
use coltt.Prelude.Count.{count, length-eq-count}
use coltt.Edge.Queue.{SearchResultItem, PriorityQueueItem, new_priority_queue, add_all, values}
use coltt.Edge.Queue.TopK.{score_rank, item_of, reaches_from, add_all-highest}

-- The score is the bound or above.
abbrev pub reaches : ℕ → SearchResultItem → Bool
reaches t item = not (ltb (float32_rank item.score) t)

-- At most `k` of the items are kept: of those above any bound, all or as many as fit.
pub record Selects (k : ℕ) (items kept : List SearchResultItem) : Type 0 where
  pub part : (p : SearchResultItem → Bool) → count p kept ≤ count p items
  pub highest : (t : ℕ) → count (reaches t) kept ≡ min k (count (reaches t) items)

module _ {A B : Type 0} where
  pub count-map :
      (f : A → B) (p : B → Bool) (xs : List A) → count p (map f xs) ≡ count (λ x. p (f x)) xs
  unfolding count
  count-map f p [] = refl
  count-map f p (x ∷ xs) = omega (arith, count-map f p xs)

module _ {A : Type 0} where
  count_same :
      (p q : A → Bool) (xs : List A)
      → count (λ x. if p x then not (q x) else q x) xs ≡ 0
      → count p xs ≡ count q xs
  unfolding count
  count_same p q [] h = refl
  count_same p q (x ∷ xs) h = ground (arith, count_same p q xs)

  count_none : (p : A → Bool) (xs : List A) → ((x : A) → p x ≡ false) → count p xs ≡ 0
  unfolding count
  count_none p [] h = refl
  count_none p (x ∷ xs) h = ground (arith, h x, count_none p xs h)

  count-All :
      (key : A → ℕ) (t : ℕ) (xs : List A)
      → All (λ x. t ≤ key x) xs
      → count (λ x. not (ltb (key x) t)) xs ≡ length xs
  unfolding count
  count-All key t [] h = refl
  count-All key t (x ∷ xs) h = ground (arith, h.0, count-All key t xs h.1)

  count-length : (p : A → Bool) (xs : List A) → count p xs ≤ length xs
  unfolding count
  count-length p [] = omega arith
  count-length p (x ∷ xs) = ground (arith, count-length p xs)

-- If a dropped item reaches the bound, every kept item does.
kept_reach :
    (t : ℕ) (kept dropped : List PriorityQueueItem)
    → All (λ d. All (λ x. score_rank d ≤ score_rank x) kept) dropped
    → (count (λ x. not (ltb (score_rank x) t)) dropped ≡ 0)
      ⊎ (count (λ x. not (ltb (score_rank x) t)) kept ≡ length kept)
unfolding count
kept_reach t kept [] h = inl refl
kept_reach t kept (d ∷ dropped) (least, h) = elim (Bool-cases (ltb (score_rank d) t)) [
  | inl below ↦ let r = kept_reach t kept dropped h in ground arith
  | inr above ↦
      inr (count-All score_rank t kept (reaches_from t kept (score_rank d) (ground arith) least))
]

module _ (k : ℕ) (items : List SearchResultItem)
    (g : all (λ item. not (float32_nan item.score)) items ≡ true) where
  abbrev queue_of : List PriorityQueueItem
  queue_of = (add_all items (new_priority_queue (pos k))).queue

  abbrev incoherent : ℕ → PriorityQueueItem → Bool
  incoherent t x =
      let p = reaches t x.value in let q = not (ltb (score_rank x) t) in if p then not q else q

  -- A queued item is queued by its score.
  coherent : (t : ℕ) → count (incoherent t) queue_of ≡ 0
  coherent t =
      let (kept, dropped, e, counted, len, h) = add_all-highest k items g in
      rw e (
        omega (
          arith,
          counted (incoherent t),
          count-map item_of (incoherent t) items,
          count_none (λ x. incoherent t (item_of x)) items (λ x. ground arith),
        ))

  -- The bounded queue selects the items of the highest scores.
  pub values-Selects : Selects k items (values (add_all items (new_priority_queue (pos k))))
  unfolding values
  values-Selects =
      let (kept, dropped, e, counted, len, h) = add_all-highest k items g in
      record {
        part = λ p. omega (
          arith,
          count-map (λ x. x.value) p queue_of,
          ap (count (λ x. p x.value)) e,
          counted (λ x. p x.value),
          count-map item_of (λ x. p x.value) items,
        );
        highest = λ t.
            let q = λ (x : PriorityQueueItem). not (ltb (score_rank x) t) in
            let one_side = kept_reach t kept dropped h in
            let bound = count-length q kept in
            omega (
              arith,
              count-map (λ x. x.value) (reaches t) queue_of,
              count_same (λ x. reaches t x.value) q queue_of (coherent t),
              ap (count q) e,
              counted q,
              count-map item_of q items,
              len,
              one_side,
              bound,
              length-eq-count dropped,
              counted (λ x. true),
              count-length q dropped,
              length-eq-count kept,
              count-map item_of (λ x. true) items,
              length-eq-count items,
            );
      }
