-- ===== src/Edge/Spaces/Page.antt =====
-- How many candidates Search returns.
use coltt.Prelude.{
  ℕ, suc, all, not, length-map, ◌+◌, ◌%◌, ◌^◌, ◌<◌, ◌≡◌, refl, ◌∙◌, ap, Bool, true, false, some,
  List, [], ◌∷◌, length, min, arith, ltb, if◌then◌else◌, ◌==◌,
}
use coltt.Prelude.Bytes.{bytes_eq_refl}
use coltt.Prelude.Dict
use coltt.Prelude.Dict.{Dict, bytes_key}
use coltt.Prelude.Int.{pos}
use coltt.Prelude.Count.{count}
use coltt.Prelude.Float.{Floats}
use coltt.Prelude.Outcome.{Outcome, ok, err, panic}
use coltt.Inverted.Index.{Metadata}
use coltt.Inverted.Roaring.{Roaring}
use coltt.Edge.Queue.{SearchResultItem, Sorter}
use coltt.Edge.Queue.Selection.{Selects, reaches, count-map}
use coltt.Edge.Space.{ENode, stored_vector}
use coltt.Edge.Query.{unset, query_expr_analyzer}
use coltt.Edge.Space.Search.{vertex_search}
use coltt.Edge.Space.Search.Collected.{all_numbers}
use coltt.Edge.Space.Search.Highest.{concat, hit, vertex_hits, fits_all, vertex_search-highest}
use coltt.Edge.Storage.{Json}
use coltt.Edge.Vectorstore.{on_space}
use coltt.Edge.Collections.{
  ◌>>=◌, reads, EdgeState, has_collection, already_load_collection, authorization, on_spaces,
}
use coltt.Edge.Collections.Candidates.{Candidate, candidates, score_helper}
use coltt.Edge.Collections.Restored.{on_space-ok}
use coltt.Edge.Collections.Stored.{read_space-some}
use coltt.Edge.Collections.Vertices.{SearchIndex, search, search_items, space_distance}
use coltt.Edge.Spaces.{Quantizers, AnySpace, any_space, quantization_for}

count-reaches : (xs : List SearchResultItem) → count (reaches 0) xs ≡ length xs
unfolding count
count-reaches [] = refl
count-reaches (x ∷ xs) = ground (arith, count-reaches xs)

Selects-length :
    (k : ℕ) (items kept : List SearchResultItem)
    → Selects k items kept
    → length kept ≡ min k (length items)
Selects-length k items kept s = rw⁻¹ (count-reaches items, count-reaches kept) (s.highest 0)

abbrev is_ok : Outcome Metadata → Bool
is_ok (ok m) = true
is_ok (err e) = false
is_ok panic = false

-- structpb.NewStruct takes the metadata.
abbrev pub takes : (Metadata → Outcome Metadata) → Metadata → Bool
takes new_struct m = is_ok (new_struct m)

is_ok-value : (r : Outcome Metadata) → is_ok r ≡ true → (m : Metadata) × (r ≡ ok m)
is_ok-value (ok m) h = (m, refl)
is_ok-value (err e) h = cc
is_ok-value panic h = cc

candidates-cons :
    ⦃floats : Floats⦄ (new_struct : Metadata → Outcome Metadata) (cosine : Bool)
    (item : SearchResultItem) (items : List SearchResultItem) (m : Metadata) (cs : List Candidate)
    → new_struct item.metadata ≡ ok m
    → candidates new_struct cosine items ≡ ok cs
    → candidates new_struct cosine (item ∷ items)
      ≡ ok (record { metadata = m; score = score_helper item.score cosine } ∷ cs)
unfolding candidates
candidates-cons new_struct cosine item items m cs e f = rw (e, f) refl

candidates-total :
    ⦃floats : Floats⦄ (new_struct : Metadata → Outcome Metadata) (cosine : Bool)
    (items : List SearchResultItem)
    → count (λ item. not (takes new_struct item.metadata)) items ≡ 0
    → (cs : List Candidate) × (candidates new_struct cosine items ≡ ok cs)
      × (length cs ≡ length items)
unfolding candidates count
candidates-total new_struct cosine [] h = ([], refl, refl)
candidates-total new_struct cosine (item ∷ items) h =
    let (m, e) = is_ok-value (new_struct item.metadata) (ground arith) in
    let (cs, f, n) = candidates-total new_struct cosine items (omega arith) in
    let c : Candidate = record { metadata = m; score = score_helper item.score cosine } in
    (c ∷ cs, candidates-cons new_struct cosine item items m cs e f, ap suc n)

count-all :
    {A : Type 0} (p : A → Bool) (xs : List A) → all p xs ≡ true → count (λ x. not (p x)) xs ≡ 0
unfolding count
count-all p [] h = refl
count-all p (x ∷ xs) h = ground (arith, count-all p xs)

module _ {B : Type 0} ⦃floats : Floats⦄ ⦃roaring : Roaring B⦄ ⦃sorter : Sorter⦄
    ⦃quantizers : Quantizers⦄ ⦃json : Json⦄ where
  -- the vertices of the space, with their ids
  abbrev pub vertices_of : AnySpace B → List (ℕ × ENode)
  vertices_of any = concat any.space.vertices

  abbrev pub all_hits : SearchIndex → AnySpace B → List SearchResultItem
  all_hits req any =
      vertex_hits (quantizers.similarity any.quantization)
        ⦃quantization = quantization_for any.quantization⦄ req.vector any.space

  abbrev pub comparable : SearchIndex → AnySpace B → Bool
  comparable req any =
      fits_all (quantizers.similarity any.quantization)
        ⦃quantization = quantization_for any.quantization⦄ req.vector any.space

  -- Search without a filter on a loaded collection whose space has its 16 shards and its locks
  -- succeeds if the target can be compared with every vertex, no similarity is a NaN, the metadata of
  -- every vertex can be put in a reply, and limit + offset is below 2 ^ 63. It returns limit + offset
  -- candidates, or as many as there are vertices where they are fewer: the offset is not taken off.
  pub length-search :
      {S : Type 0} (new_struct : Metadata → Outcome Metadata) (req : SearchIndex) (any : AnySpace B)
      (s : EdgeState (AnySpace B) S)
      → has_collection req.collection_name s ≡ true
      → already_load_collection req.collection_name s ≡ true
      → Dict.lookup req.collection_name s.spaces ≡ some any
      → any.has_locks ≡ true
      → length any.space.vertices ≡ 16
      → req.filter_expression ≡ unset
      → req.limit + req.offset < 2 ^ 63
      → comparable req any ≡ true
      → all_numbers (all_hits req any) ≡ true
      → all (λ e. takes new_struct e.1.metadata) (vertices_of any) ≡ true
      → (cs : List Candidate) × ((search new_struct req s).0 ≡ ok cs)
        × (length cs ≡ min (req.limit + req.offset) (length (vertices_of any)))
  unfolding search ◌>>=◌ reads authorization query_expr_analyzer search_items on_spaces
      space_distance
  length-search new_struct req any s has load there locks sixteen plain short fits numbers structs =
      let name = req.collection_name in
      let k = req.limit + req.offset in
      let cut : k % 2 ^ 64 ≡ k = omega arith in
      let small : ltb k (2 ^ 63) ≡ true = ground arith in
      let q = quantizers.similarity any.quantization in
      let hits = all_hits req any in
      let (items, ran, chosen, sorted) =
        vertex_search-highest q ⦃quantization = quantization_for any.quantization⦄ req.vector k
          req.high_resource_avaliable any.space sixteen fits numbers in
      let refused = λ (item : SearchResultItem). not (takes new_struct item.metadata) in
      let all_taken = count-all (λ (e : ℕ × ENode). takes new_struct e.1.metadata) _ structs in
      let part = chosen.part refused in
      let wanted =
        stored_vector ⦃quantization = quantization_for any.quantization⦄ any.space.distance
          req.vector in
      let mapped = count-map (hit q wanted any.space.distance) refused (vertices_of any) in
      let (cs, e, n) =
        candidates-total new_struct (any.space.vertex_metadata.distance == 0) items
          (omega (arith, part, mapped, all_taken)) in
      let still : Dict.lookup name (Dict.modify name any s.spaces) ≡ some any =
        ground (arith, Dict.lookup-modify name name any s.spaces any there, bytes_eq_refl name) in
      let after = Dict.modify name any s.spaces in
      let found =
        vertex_search q ⦃quantization = quantization_for any.quantization⦄ req.vector (pos k)
          req.high_resource_avaliable any.space in
      let searched : on_space name
            (any_space.vertex_search req.vector (pos k) req.high_resource_avaliable) s.spaces
          ≡ (ok items, after) =
        on_space-ok name (any_space.vertex_search req.vector (pos k) req.high_resource_avaliable)
          s.spaces any there
        ∙ ap (λ (b : Bool). (if b then found else panic, after)) locks
        ∙ ap (λ r. (r, after)) ran in
      (
        cs,
        rw
            (
              has,
              load,
              plain,
              cut,
              small,
              searched,
              read_space-some name (λ (v : AnySpace B). ok v.space.vertex_metadata.distance)
                  (Dict.modify name any s.spaces) any still,
              e,
            )
            refl,
        n
            ∙ Selects-length k hits items chosen
            ∙ ap (min k) (length-map (hit q wanted any.space.distance) (vertices_of any)),
      )
