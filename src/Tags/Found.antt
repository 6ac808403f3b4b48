-- ===== src/Tags/Found.antt =====
-- What the searches of pkg/index find.
use coltt.Prelude.{
  ℕ, ◌≡◌, refl, ◌∙◌, ap, Bool, ◌&&◌, ◌||◌, none, some, List, [], ◌∷◌, any, all, arith, ◌==◌,
  Option-cases, inl, inr,
}
use coltt.Prelude.Bytes.{Bytes}
use coltt.Prelude.Dict
use coltt.Prelude.Dict.{Dict, bytes_key}
use coltt.Inverted.Roaring.{Roaring}
use coltt.Inverted.Index.Postings.{bitmap_has}
use coltt.Tags.{TagIndex, get_tags, and_tags, ids_of, add_many, search_wit_candidates, pure_search}
use coltt.Tags.Held.{held, tags-get_tags, tags_at-get_tags}

module _ {B : Type 0} ⦃roaring : Roaring B⦄ where
  -- The id is held under every key and value of the filter.
  unfoldable pub meets_all : TagIndex B → Dict Bytes Bytes → ℕ → Bool
  meets_all idx filter id = all (λ e. held idx e.0 e.1 id) filter

  -- The same ids are held.
  abbrev pub SameTags : TagIndex B → TagIndex B → Type 0
  SameTags idx idx' = (k v : Bytes) (j : ℕ) → held idx' k v j ≡ held idx k v j

  held-get_tags : (key : Bytes) (idx : TagIndex B) → SameTags idx (get_tags key idx).1
  unfolding held
  held-get_tags key idx k v j =
      ap (λ m. bitmap_has (Dict.lookup v m) j) (tags_at-get_tags key k idx)

  has-get_tags :
      (key value : Bytes) (idx : TagIndex B) (id : ℕ)
      → bitmap_has (Dict.lookup value (get_tags key idx).0) id ≡ held idx key value id
  unfolding held
  has-get_tags key value idx id =
      ap (λ m. bitmap_has (Dict.lookup value m) id) (tags-get_tags key idx)

  meets_all-SameTags :
      (idx idx' : TagIndex B) (filter : Dict Bytes Bytes) (id : ℕ)
      → SameTags idx idx'
      → meets_all idx' filter id ≡ meets_all idx filter id
  unfolding meets_all
  meets_all-SameTags idx idx' [] id s = refl
  meets_all-SameTags idx idx' ((key, value) ∷ filter) id s =
      ground (arith, s key value id, meets_all-SameTags idx idx' filter id s)

  module _ (key value : Bytes) (filter : Dict Bytes Bytes) (idx : TagIndex B) where
    and_tags-none :
        (r : B)
        → Dict.lookup value (get_tags key idx).0 ≡ none
        → and_tags ((key, value) ∷ filter) r idx ≡ (none, (get_tags key idx).1)
    unfolding and_tags
    and_tags-none r e = rw (e, and_tags) refl

    and_tags-some :
        (r bm : B)
        → Dict.lookup value (get_tags key idx).0 ≡ some bm
        → and_tags ((key, value) ∷ filter) r idx
          ≡ and_tags filter (roaring.and r bm) (get_tags key idx).1
    unfolding and_tags
    and_tags-some r bm e = rw (e, and_tags) refl

    pure_search-none :
        Dict.lookup value (get_tags key idx).0 ≡ none
        → pure_search ((key, value) ∷ filter) idx ≡ ([], (get_tags key idx).1)
    unfolding pure_search
    pure_search-none e = rw (e, pure_search) refl

    pure_search-some :
        (bm : B)
        → Dict.lookup value (get_tags key idx).0 ≡ some bm
        → pure_search ((key, value) ∷ filter) idx ≡ ids_of (and_tags filter bm (get_tags key idx).1)
    unfolding pure_search
    pure_search-some bm e = rw (e, pure_search) refl

  and_tags_lem :
      (filter : Dict Bytes Bytes) (r : B) (idx : TagIndex B)
      → ((id : ℕ)
          → any (λ i. i == id) (ids_of (and_tags filter r idx)).0
            ≡ (roaring.contains r id && meets_all idx filter id))
        × SameTags idx (ids_of (and_tags filter r idx)).1
  unfolding meets_all
  and_tags_lem [] r idx = (
    λ id. unfold and_tags in ground (arith, roaring.any-to_array id r),
    λ k v j. unfold and_tags in refl,
  )
  and_tags_lem ((key, value) ∷ filter) r idx =
      let (m, idx') = get_tags key idx in
      let same = held-get_tags key idx in
      elim (Option-cases (Dict.lookup value m)) [
        | inl e ↦ (
          λ id.
              rw (and_tags-none key value filter idx r e)
                (ground (arith, e, has-get_tags key value idx id)),
          λ k v j. rw (and_tags-none key value filter idx r e) (same k v j),
        )
        | inr (bm, e) ↦
            let (found, kept) = and_tags_lem filter (roaring.and r bm) idx' in
            (
              λ id. rw (and_tags-some key value filter idx r bm e) (
                  ground (
                    arith,
                    e,
                    found id,
                    has-get_tags key value idx id,
                    roaring.contains-and id r bm,
                    meets_all-SameTags idx idx' filter id same,
                  )),
              λ k v j. rw (and_tags-some key value filter idx r bm e) (kept k v j ∙ same k v j),
            )
      ]

  contains-add_many :
      (ids : List ℕ) (b : B) (id : ℕ)
      → roaring.contains (add_many ids b) id ≡ (any (λ i. i == id) ids || roaring.contains b id)
  unfolding add_many
  contains-add_many [] b id = refl
  contains-add_many (i ∷ ids) b id =
      ground (arith, contains-add_many ids (roaring.add i b) id, roaring.contains-add i id b)

  -- SearchWitCandidates returns exactly the candidates that are held under every key and value of
  -- the filter, all of them where the filter is empty, and the index holds the same afterwards.
  pub search_wit_candidates-exact :
      (ids : List ℕ) (filter : Dict Bytes Bytes) (idx : TagIndex B)
      → ((id : ℕ)
          → any (λ i. i == id) (search_wit_candidates ids filter idx).0
            ≡ (any (λ i. i == id) ids && meets_all idx filter id))
        × SameTags idx (search_wit_candidates ids filter idx).1
  unfolding search_wit_candidates meets_all
  search_wit_candidates-exact ids [] idx = (λ id. ground arith, λ k v j. refl)
  search_wit_candidates-exact ids (e ∷ filter) idx =
      let (found, kept) = and_tags_lem (e ∷ filter) (add_many ids roaring.new) idx in
      (
        λ id.
            found id
            ∙ ap (λ c. c && meets_all idx (e ∷ filter) id)
                (ground (arith, contains-add_many ids roaring.new id, roaring.contains-new id)),
        kept,
      )

  -- PureSearch with a filter that is not empty returns exactly the ids that are held under every
  -- key and value of it, and the index holds the same afterwards.
  pub pure_search-exact :
      (key value : Bytes) (filter : Dict Bytes Bytes) (idx : TagIndex B)
      → ((id : ℕ)
          → any (λ i. i == id) (pure_search ((key, value) ∷ filter) idx).0
            ≡ meets_all idx ((key, value) ∷ filter) id)
        × SameTags idx (pure_search ((key, value) ∷ filter) idx).1
  unfolding meets_all
  pure_search-exact key value filter idx =
      let (m, idx') = get_tags key idx in
      let same = held-get_tags key idx in
      elim (Option-cases (Dict.lookup value m)) [
        | inl e ↦ (
          λ id.
              rw (pure_search-none key value filter idx e)
                (ground (arith, e, has-get_tags key value idx id)),
          λ k v j. rw (pure_search-none key value filter idx e) (same k v j),
        )
        | inr (bm, e) ↦
            let (found, kept) = and_tags_lem filter bm idx' in
            (
              λ id. rw (pure_search-some key value filter idx bm e) (
                  ground (
                    arith,
                    e,
                    found id,
                    has-get_tags key value idx id,
                    meets_all-SameTags idx idx' filter id same,
                  )),
              λ k v j. rw (pure_search-some key value filter idx bm e) (kept k v j ∙ same k v j),
            )
      ]
