-- ===== src/Edge/Space/Search/Highest.antt =====
-- What VertexSearch returns, beside the vertices of the space.
use coltt.Prelude.{
  ℕ, zero, suc, ap, subst, map, length, get_or, ◌≡◌, refl, ◌∙◌, sym, Bool, true, ◌&&◌, List, [],
  ◌∷◌, ◌++◌, all, arith,
}
use coltt.Prelude.Int.{pos}
use coltt.Prelude.Float.{Floats}
use coltt.Prelude.Outcome.{ok}
use coltt.Edge.Queue.{SearchResultItem, Sorter, Ascending}
use coltt.Edge.Queue.Selection.{Selects}
use coltt.Edge.Space.{Quantization, Vector, ENode, DistanceSpace, NoneVecSpace, stored_vector}
use coltt.Edge.Space.Search.{Similarity, all_comparable, collect, shard_items, vertex_search}
use coltt.Edge.Space.Search.Collected.{items_from, all_numbers, collect-Selects}

-- all the entries of the maps
abbrev pub concat : {A : Type 0} → List (List A) → List A
concat [] = []
concat (m ∷ ms) = m ++ concat ms

all-append :
    {A : Type 0} (p : A → Bool) (xs ys : List A) → all p (xs ++ ys) ≡ (all p xs && all p ys)
all-append p [] ys = refl
all-append p (x ∷ xs) ys = ground (arith, all-append p xs ys)

all-concat : {A : Type 0} (p : A → Bool) (ms : List (List A)) → all p (concat ms) ≡ all (all p) ms
all-concat p [] = refl
all-concat p (m ∷ ms) = all-append p m (concat ms) ∙ ap (λ b. all p m && b) (all-concat p ms)

items_from-suc :
    (items : ℕ → List SearchResultItem) (n shard : ℕ)
    → items_from items n (suc shard) ≡ items_from (λ i. items (suc i)) n shard
unfolding items_from
items_from-suc items zero shard = refl
items_from-suc items (suc n) shard =
    ap (λ rest. items (suc shard) ++ rest) (items_from-suc items n (suc shard))

module _ {A : Type 0} (f : A → SearchResultItem) where
  map-append : (xs ys : List A) → map f (xs ++ ys) ≡ map f xs ++ map f ys
  map-append [] ys = refl
  map-append (x ∷ xs) ys = ap (λ rest. f x ∷ rest) (map-append xs ys)

  items_from-concat :
      (ms : List (List A))
      → items_from (λ i. map f (get_or ms i [])) (length ms) 0 ≡ map f (concat ms)
  unfolding items_from
  items_from-concat [] = refl
  items_from-concat (m ∷ ms) =
      ap (λ rest. map f m ++ rest)
        (items_from-suc (λ i. map f (get_or (m ∷ ms) i [])) (length ms) 0 ∙ items_from-concat ms)
      ∙ sym (map-append m (concat ms))

module _ (similarity : Similarity) where
  -- what a search shows of a vertex: its id, its metadata, and its similarity to the target
  abbrev pub hit : Vector → DistanceSpace → ℕ × ENode → SearchResultItem
  hit wanted kind (uid, node) = record {
    id = uid;
    metadata = node.metadata;
    score = similarity.score wanted node.vector kind;
  }

  module _ {B : Type 0} ⦃floats : Floats⦄ ⦃quantization : Quantization⦄ where
    -- The hits of all the vertices of the space.
    abbrev pub vertex_hits : Vector → NoneVecSpace B → List SearchResultItem
    vertex_hits target vertex =
        map (hit (stored_vector vertex.distance target) vertex.distance) (concat vertex.vertices)

    -- The target can be compared with each of them.
    abbrev pub fits_all : Vector → NoneVecSpace B → Bool
    fits_all target vertex =
        all (λ e. similarity.comparable (stored_vector vertex.distance target) e.1.vector)
          (concat vertex.vertices)

    shard_items-hits :
        (target : Vector) (vertex : NoneVecSpace B)
        → length vertex.vertices ≡ 16
        → items_from (shard_items similarity (stored_vector vertex.distance target) vertex) 16 0
          ≡ vertex_hits target vertex
    unfolding shard_items
    shard_items-hits target vertex sixteen =
        let wanted = stored_vector vertex.distance target in
        ap (λ n. items_from (shard_items similarity wanted vertex) n 0) (sym sixteen)
        ∙ items_from-concat (hit wanted vertex.distance) vertex.vertices

    -- On a space with its 16 shards, if the target can be compared with the vector of every vertex and
    -- no similarity is a NaN, VertexSearch for `k` results returns vertices of the space with their
    -- ids, metadata and similarities, in ascending order of their scores, and in both modes: of the
    -- vertices whose score is at or above any bound, it returns all where there are at most `k`, and
    -- `k` where there are more.
    pub vertex_search-highest :
        ⦃sorter : Sorter⦄
        → (target : Vector) (k : ℕ) (high_cpu : Bool) (vertex : NoneVecSpace B)
        → length vertex.vertices ≡ 16
        → fits_all target vertex ≡ true
        → all_numbers (vertex_hits target vertex) ≡ true
        → (kept : List SearchResultItem) × (vertex_search similarity target (pos k) high_cpu vertex
            ≡ ok kept)
          × Selects k (vertex_hits target vertex) kept
          × Ascending kept
    unfolding vertex_search all_comparable
    vertex_search-highest target k high_cpu vertex sixteen fits g =
        let wanted = stored_vector vertex.distance target in
        let items = shard_items similarity wanted vertex in
        let same = shard_items-hits target vertex sixteen in
        let each =
          sym (all-concat (λ e. similarity.comparable wanted e.1.vector) vertex.vertices) ∙ fits in
        let (s, asc) = collect-Selects k items high_cpu (ap all_numbers same ∙ g) in
        (
          collect items (pos k) high_cpu,
          rw each refl,
          subst (λ hits. Selects k hits (collect items (pos k) high_cpu)) same s,
          asc,
        )
