-- ===== src/Edge/Space/Search/Filtered.antt =====
-- What a search with a filter selects.
use coltt.Prelude.{
  ◌≤◌, ℕ, zero, suc, ◌+◌, ◌≡◌, refl, ◌∙◌, ap, sym, Bool, true, false, ◌&&◌, List, [], ◌∷◌, any, min,
  arith, if◌then◌else◌, Bool-cases, Option-cases, inl, inr, ◌==◌, ltb, leb, Option, some, none,
}
use coltt.Prelude.Bytes.{Bytes}
use coltt.Prelude.Dict
use coltt.Prelude.Dict.{nat_key}
use coltt.Prelude.Int.{pos}
use coltt.Prelude.Float.{Floats, float32_nan}
use coltt.Prelude.Outcome.{ok}
use coltt.Prelude.Count.{count, count-append}
use coltt.Inverted.Filter.{FilterExpression}
use coltt.Inverted.Index.{BitmapIndex}
use coltt.Inverted.Roaring.{Roaring}
use coltt.Inverted.Index.Postings.{bitmaps}
use coltt.Inverted.Search.Meaning.{answers, meets}
use coltt.Inverted.Search.Total.{search_with_expression-total, search_with_expression_once}
use coltt.Edge.Sharding.{shard_vertex-lt}
use coltt.Edge.Queue.{SearchResultItem, Sorter, Ascending}
use coltt.Edge.Queue.Selection.{Selects, reaches}
use coltt.Edge.Space.{
  Quantization, Vector, ENode, NoneVecSpace, stored_vector, node_at, shard_of, shard_map,
}
use coltt.Edge.Space.Search.{
  Similarity, comparable_node, candidates_comparable, collect, candidate_items, found_item,
  filterable_vertex_search,
}
use coltt.Edge.Space.Search.Collected.{
  items_from, all_numbers, numbers_by_count, count-numbers, collect-Selects,
}
use coltt.Edge.Space.Search.Highest.{hit}

module _ {B : Type 0} (similarity : Similarity) (target : Vector) (vertex : NoneVecSpace B) where
  found_hit : ℕ → Option ENode → List SearchResultItem → List SearchResultItem
  found_hit id none hits = hits
  found_hit id (some node) hits = hit similarity target vertex.distance (id, node) ∷ hits

  -- The hits of the vertices with the given ids; an id without a vertex has none.
  unfoldable pub found_items : List ℕ → List SearchResultItem
  unfolding found_hit
  found_items [] = []
  found_items (id ∷ ids) = found_hit id (node_at vertex id) (found_items ids)

  found_item-hit :
      (id : ℕ) (o : Option ENode) (items : List SearchResultItem)
      → found_item similarity target vertex id o items ≡ found_hit id o items
  unfolding found_item found_hit
  found_item-hit id none items = refl
  found_item-hit id (some node) items = refl

  count-found_hit :
      (p : SearchResultItem → Bool) (id : ℕ) (o : Option ENode) (items : List SearchResultItem)
      → count p (found_hit id o items) ≡ count p (found_hit id o []) + count p items
  unfolding count found_hit
  count-found_hit p id none items = omega arith
  count-found_hit p id (some node) items = omega arith

  abbrev between : ℕ → ℕ → ℕ → Bool
  between n shard x = leb shard x && ltb x (shard + n)

  abbrev shards_of : List ℕ → ℕ → List SearchResultItem
  shards_of ids shard = candidate_items similarity target vertex ids shard

  count-shard :
      (p : SearchResultItem → Bool) (id : ℕ) (ids : List ℕ) (shard : ℕ)
      → count p (shards_of (id ∷ ids) shard)
        ≡ (if shard_of id == shard then count p (found_hit id (node_at vertex id) []) else 0)
          + count p (shards_of ids shard)
  unfolding candidate_items node_at
  count-shard p id ids shard = elim (Bool-cases (shard_of id == shard)) [
    | inl here ↦
        let e : shard_of id ≡ shard = ground arith in
        let same : Dict.lookup id (shard_map vertex shard) ≡ node_at vertex id =
          ap (λ i. Dict.lookup id (shard_map vertex i)) (sym e) in
        rw (here, same, found_item-hit id (node_at vertex id) (shards_of ids shard))
          (count-found_hit p id (node_at vertex id) (shards_of ids shard))
    | inr away ↦ rw away (omega arith)
  ]

  -- A candidate is searched for in one shard, so in none or one of a range of them.
  count-shards :
      (p : SearchResultItem → Bool) (id : ℕ) (ids : List ℕ) (n shard : ℕ)
      → count p (items_from (shards_of (id ∷ ids)) n shard)
        ≡ (if between n shard (shard_of id)
            then count p (found_hit id (node_at vertex id) [])
            else 0)
          + count p (items_from (shards_of ids) n shard)
  unfolding items_from
  count-shards p id ids zero shard = ground arith
  count-shards p id ids (suc n) shard = ground (
    arith,
    count-append p (shards_of (id ∷ ids) shard) (items_from (shards_of (id ∷ ids)) n (suc shard)),
    count-append p (shards_of ids shard) (items_from (shards_of ids) n (suc shard)),
    count-shard p id ids shard,
    count-shards p id ids n (suc shard),
  )

  count-none :
      (p : SearchResultItem → Bool) (n shard : ℕ) → count p (items_from (shards_of []) n shard) ≡ 0
  unfolding items_from candidate_items count
  count-none p zero shard = refl
  count-none p (suc n) shard = count-none p n (suc shard)

  count-candidates :
      (p : SearchResultItem → Bool) (ids : List ℕ)
      → count p (items_from (shards_of ids) 16 0) ≡ count p (found_items ids)
  unfolding found_items count
  count-candidates p [] = count-none p 16 0
  count-candidates p (id ∷ ids) = ground (
    arith,
    count-shards p id ids 16 0,
    shard_vertex-lt id 16 (omega arith),
    count-candidates p ids,
    count-found_hit p id (node_at vertex id) (found_items ids),
  )

  Selects-candidates :
      (k : ℕ) (ids : List ℕ) (kept : List SearchResultItem)
      → Selects k (items_from (shards_of ids) 16 0) kept
      → Selects k (found_items ids) kept
  Selects-candidates k ids kept s = record {
    part = λ p. omega (arith, s.part p, count-candidates p ids);
    highest = λ t. s.highest t ∙ ap (min k) (count-candidates (reaches t) ids);
  }

  candidate_numbers :
      (ids : List ℕ)
      → all_numbers (found_items ids) ≡ true
      → all_numbers (items_from (shards_of ids) 16 0) ≡ true
  candidate_numbers ids g =
      let nan = λ (x : SearchResultItem). float32_nan x.score in
      numbers_by_count (items_from (shards_of ids) 16 0)
        (count-candidates nan ids ∙ count-numbers (found_items ids) g)

module _ {B : Type 0} (similarity : Similarity) where
  found_numbers :
      (target : Vector) (vertex : NoneVecSpace B)
      → ((uid : ℕ) (node : ENode)
          → node_at vertex uid ≡ some node
          → float32_nan (similarity.score target node.vector vertex.distance) ≡ false)
      → (ids : List ℕ) → all_numbers (found_items similarity target vertex ids) ≡ true
  unfolding found_items found_hit
  found_numbers target vertex g [] = refl
  found_numbers target vertex g (id ∷ ids) = elim (Option-cases (node_at vertex id)) [
    | inl e ↦ rw (e, found_hit) (found_numbers target vertex g ids)
    | inr (node, e) ↦ rw (e, found_hit) (rw (g id node e) (found_numbers target vertex g ids))
  ]

  found_hit-index :
      (target : Vector) (vertex : NoneVecSpace B) (idx : BitmapIndex B) (id : ℕ) (o : Option ENode)
      (items : List SearchResultItem)
      → found_hit similarity target (record vertex { inverted_index = idx }) id o items
        ≡ found_hit similarity target vertex id o items
  unfolding found_hit
  found_hit-index target vertex idx id none items = refl
  found_hit-index target vertex idx id (some node) items = refl

  found_items-index :
      (target : Vector) (vertex : NoneVecSpace B) (idx : BitmapIndex B) (ids : List ℕ)
      → found_items similarity target (record vertex { inverted_index = idx }) ids
        ≡ found_items similarity target vertex ids
  unfolding found_items node_at
  found_items-index target vertex idx [] = refl
  found_items-index target vertex idx (id ∷ ids) = rw (found_items-index target vertex idx ids) (
      found_hit-index target vertex idx id (node_at vertex id)
        (found_items similarity target vertex ids))

  candidates_fit :
      (target : Vector) (vertex : NoneVecSpace B) (idx : BitmapIndex B)
      → ((uid : ℕ) (node : ENode)
          → node_at vertex uid ≡ some node
          → similarity.comparable target node.vector ≡ true)
      → (ids : List ℕ)
      → candidates_comparable similarity target (record vertex { inverted_index = idx }) ids ≡ true
  unfolding candidates_comparable comparable_node node_at
  candidates_fit target vertex idx fits [] = refl
  candidates_fit target vertex idx fits (id ∷ ids) = elim (Option-cases (node_at vertex id)) [
    | inl e ↦ rw (e, comparable_node) (candidates_fit target vertex idx fits ids)
    | inr (node, e) ↦
        rw (e, comparable_node) (rw (fits id node e) (candidates_fit target vertex idx fits ids))
  ]

module _ {B : Type 0} (similarity : Similarity) ⦃floats : Floats⦄ ⦃quantization : Quantization⦄
    ⦃roaring : Roaring B⦄ ⦃sorter : Sorter⦄ where
  -- If the expression can be evaluated over the index, the target can be compared with the vector of
  -- every vertex, and no similarity is a NaN, then FilterableVertexSearch for `k` results succeeds in
  -- both modes and leaves every bitmap as it was. It returns, in ascending order of their scores and
  -- with their ids, metadata and similarities, those of the highest scores among the vertices whose
  -- ids meet the expression, each once: above any bound all, or `k` where there are more.
  pub filterable_vertex_search-highest :
      (filter : FilterExpression) (target : Vector) (k : ℕ) (high_cpu : Bool)
      (vertex : NoneVecSpace B)
      → answers (λ key. bitmaps key vertex.inverted_index) filter ≡ true
      → ((uid : ℕ) (node : ENode)
          → node_at vertex uid ≡ some node
          → similarity.comparable (stored_vector vertex.distance target) node.vector ≡ true)
      → ((uid : ℕ) (node : ENode)
          → node_at vertex uid ≡ some node
          → float32_nan
              (similarity.score (stored_vector vertex.distance target) node.vector vertex.distance)
            ≡ false)
      → (ids : List ℕ) × (kept : List SearchResultItem) × (idx : BitmapIndex B)
        × (filterable_vertex_search similarity filter target (pos k) high_cpu vertex
            ≡ (ok kept, record vertex { inverted_index = idx }))
        × ((key : Bytes) → bitmaps key idx ≡ bitmaps key vertex.inverted_index)
        × ((id : ℕ)
            → any (λ i. i == id) ids ≡ meets (λ key. bitmaps key vertex.inverted_index) filter id)
        × ((id : ℕ) → count (λ i. i == id) ids ≤ 1)
        × Selects k (found_items similarity (stored_vector vertex.distance target) vertex ids) kept
        × Ascending kept
  unfolding filterable_vertex_search
  filterable_vertex_search-highest filter target k high_cpu vertex h fits g =
      let (ids, idx, found, exact, same) =
        search_with_expression-total filter vertex.inverted_index h in
      let wanted = stored_vector vertex.distance target in
      let vertex' : NoneVecSpace B = record vertex { inverted_index = idx } in
      let moved = found_items-index similarity wanted vertex idx ids in
      let items = candidate_items similarity wanted vertex' ids in
      let (s, asc) = collect-Selects k items high_cpu (
        candidate_numbers similarity wanted vertex' ids
          (rw moved (found_numbers similarity wanted vertex g ids))) in
      (
        ids,
        collect items (pos k) high_cpu,
        idx,
        rw (found, candidates_fit similarity wanted vertex idx fits ids) refl,
        same,
        exact,
        search_with_expression_once filter vertex.inverted_index idx ids found,
        rw⁻¹ moved (Selects-candidates similarity wanted vertex' k ids _ s),
        asc,
      )
