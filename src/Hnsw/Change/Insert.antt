-- ===== src/Hnsw/Change/Insert.antt =====
-- Insert keeps the shape, and stores the vertex.
use coltt.Prelude.{
  ◌⊎◌, ◌≢◌, Bool-cases, ℕ, ◌+◌, ◌%◌, ◌^◌, ◌<◌, ◌≤◌, ◌≡◌, refl, ap, subst, ◌∙◌, sym, inl, inr, true,
  Option, none, some, length, arith, ◌==◌, if◌then◌else◌,
}
use coltt.Prelude.Float.{Floats}
use coltt.Prelude.Outcome.{ok, err, item_already_exists}
use coltt.Edge.Space.{Vector, normalized}
use coltt.Inverted.Index.{Metadata}
use coltt.Hnsw.{Distances, Hnsw, Ref, vertex_at, new_hnsw_vertex, get_vertex}
use coltt.Hnsw.Shape.{reaches, IsWell, bare}
use coltt.Hnsw.Shape.Edges.{Next, Next-refl, Next-reaches}
use coltt.Hnsw.Shape.Shards.{
  with_vertex-IsWell, with_vertex-reaches, vertex_at-with, get_vertex-with, length-with,
}
use coltt.Hnsw.Change.{with_vertex, store_vertex, insert_from, insert}
use coltt.Hnsw.Change.Link.{Mutual, comparable_as, Meets, Linked, link-Linked}

-- Another entrypoint, on the ground level.
pub entrypoint-IsWell :
    (g : Hnsw) (top : Option Ref)
    → IsWell g
    → ((r : Ref) → top ≡ some r → reaches g 0 r ≡ true)
    → IsWell (record g { entrypoint = top })
unfolding get_vertex
entrypoint-IsWell g top w on = record {
  sized = w.sized;
  targets = w.targets;
  entry = on;
  shards = w.shards;
  stored = w.stored;
  live = w.live;
}

-- The vertex can be got by its id, and the others are as they were but for their edges.
pub record Inserted (h : Hnsw) (id : ℕ) (vector : Vector) (metadata : Metadata) (g : Hnsw)
    : Type 0 where
  pub well : IsWell g
  pub got : (j : ℕ) → get_vertex j g ≡ (if id == j then some (length h.store) else get_vertex j h)
  pub vector_same : (vertex_at g (length h.store)).vector ≡ vector
  pub metadata_same : (vertex_at g (length h.store)).metadata ≡ metadata
  pub others : (r : Ref) → r < length h.store → bare (vertex_at g r) ≡ bare (vertex_at h r)
  pub counted : g.len ≡ (h.len + 1) % 2 ^ 64
  pub kind : g.distancer ≡ h.distancer
  pub size : length g.store ≤ length h.store + 1
  pub entry : (r : Ref) × (g.entrypoint ≡ some r)

module _ (h : Hnsw) (w : IsWell h) (id : ℕ) (vector : Vector) (metadata : Metadata) (level : ℕ)
    (fresh : get_vertex id h ≡ none) where
  abbrev stored : Hnsw
  stored = with_vertex (new_hnsw_vertex id vector metadata level) h

  stored-IsWell : IsWell stored
  stored-IsWell = with_vertex-IsWell h w id vector metadata level fresh

  new-reaches : reaches stored 0 (length h.store) ≡ true
  new-reaches = let size = length-with h w id vector metadata level fresh in ground arith

  linked-Inserted :
      (g : Hnsw) (top : Ref)
      → Next stored g
      → reaches g 0 top ≡ true
      → Inserted h id vector metadata (record g { entrypoint = some top })
  unfolding get_vertex with_vertex
  linked-Inserted g top n on =
      let k = n.keeps in
      let at = vertex_at-with h w id vector metadata level fresh in
      let at_new : vertex_at stored (length h.store) ≡ new_hnsw_vertex id vector metadata level =
        ground (arith, at (length h.store)) in
      let at_old : (r : Ref) → r < length h.store → vertex_at stored r ≡ vertex_at h r =
        λ r inside. ground (arith, at r) in
      let new : bare (vertex_at g (length h.store))
          ≡ bare (new_hnsw_vertex id vector metadata level) =
        k.vertex (length h.store) ∙ ap bare at_new in
      record {
        well = entrypoint-IsWell g (some top) n.well (λ r e. cc);
        got = λ j.
            ap (λ x. get_vertex j x) k.rest ∙ get_vertex-with h w id vector metadata level fresh j;
        vector_same = ap (λ v. v.vector) new;
        metadata_same = ap (λ v. v.metadata) new;
        others = λ r inside. k.vertex r ∙ ap bare (at_old r inside);
        counted = ap (λ x. x.len) k.rest;
        kind = ap (λ x. x.distancer) k.rest;
        size = let s = k.size in omega (arith, length-with h w id vector metadata level fresh);
        entry = (top, refl);
      }

  Linked-Inserted :
      (g : Hnsw) (top : Ref)
      → h.entrypoint ≡ some top
      → Linked (length h.store) stored g
      → Inserted h id vector metadata g
  unfolding with_vertex
  Linked-Inserted g top entry v =
      let n = v.next in
      let k = n.keeps in
      let at = λ (x : Ref) (e : v.top ≡ some x) (on : reaches v.linked 0 x ≡ true).
        subst (Inserted h id vector metadata)
          (sym (v.same ∙ ap (λ t. record v.linked { entrypoint = t }) e))
          (linked-Inserted v.linked x n on) in
      elim v.which [
        | inl old ↦ at top (old ∙ ap (λ x. x.entrypoint) k.rest ∙ entry) (
            Next-reaches n 0 top
              (with_vertex-reaches h w id vector metadata level fresh 0 top (w.entry top entry)))
        | inr new ↦ at (length h.store) new (Next-reaches n 0 (length h.store) new-reaches)
      ]

module _ ⦃floats : Floats⦄ ⦃space : Distances⦄ (h : Hnsw) (w : IsWell h) (id : ℕ) (value : Vector)
    (metadata : Metadata) (level : ℕ) where
  abbrev vector : Vector
  vector = normalized h.distancer value

  insert_by :
      (top : Option Ref)
      → h.entrypoint ≡ top
      → insert id value metadata level h ≡ insert_from top id vector metadata level h
  unfolding insert
  insert_by top e = ap (λ o. insert_from o id vector metadata level h) e

  insert_from-exists :
      (top : Option Ref) (r : Ref)
      → get_vertex id h ≡ some r
      → insert_from top id vector metadata level h ≡ err item_already_exists
  unfolding insert_from store_vertex
  insert_from-exists none r e = rw (e, store_vertex) refl
  insert_from-exists (some top) r e = rw (e, store_vertex) refl

  -- An id that is in use is refused.
  pub insert-exists :
      (r : Ref)
      → get_vertex id h ≡ some r
      → insert id value metadata level h ≡ err item_already_exists
  insert-exists r e = insert_by h.entrypoint refl ∙ insert_from-exists h.entrypoint r e

  old_or_new :
      (new_level : ℕ) (fresh : get_vertex id h ≡ none) (r : Ref)
      → ((vertex_at (stored h w id vector metadata new_level fresh) r).vector ≡ vector)
        ⊎ (((vertex_at (stored h w id vector metadata new_level fresh) r).vector
              ≡ (vertex_at h r).vector)
            × (r ≢ length h.store))
  old_or_new new_level fresh r =
      let at = ap (λ v. v.vector) (vertex_at-with h w id vector metadata new_level fresh r) in
      elim (Bool-cases (length h.store == r)) [
        | inl e ↦ inl (at ∙ rw e refl)
        | inr e ↦ inr (at ∙ rw e refl, λ same. ground arith)
      ]

  stored-Mutual :
      (new_level : ℕ)
      → Meets h vector
      → (fresh : get_vertex id h ≡ none) → Mutual (stored h w id vector metadata new_level fresh)
  stored-Mutual new_level meets fresh r in_r s in_s =
      let size = length-with h w id vector metadata new_level fresh in
      elim (old_or_new new_level fresh r) [
        | inl new ↦ elim (old_or_new new_level fresh s) [
          | inl new' ↦ comparable_as new new' meets.self
          | inr (old', other') ↦ comparable_as new old' (meets.ahead s (omega arith))
        ]
        | inr (old, other) ↦ elim (old_or_new new_level fresh s) [
          | inl new' ↦ comparable_as old new' (meets.back r (omega arith))
          | inr (old', other') ↦ comparable_as old old' (meets.near r (omega arith) s (omega arith))
        ]
      ]

  insert_from-Inserted :
      (top : Option Ref)
      → h.entrypoint ≡ top
      → Meets h vector
      → get_vertex id h ≡ none
      → (g : Hnsw) × (insert_from top id vector metadata level h ≡ ok g)
        × Inserted h id vector metadata g
  unfolding insert_from store_vertex
  insert_from-Inserted none entry meets fresh =
      let r = length h.store in
      let g = stored h w id vector metadata 0 fresh in
      let w' = stored-IsWell h w id vector metadata 0 fresh in
      (
        record g { entrypoint = some r },
        rw (fresh, store_vertex) refl,
        linked-Inserted h w id vector metadata 0 fresh g r (Next-refl g w')
            (new-reaches h w id vector metadata 0 fresh),
      )
  insert_from-Inserted (some top) entry meets fresh =
      let r = length h.store in
      let g = stored h w id vector metadata level fresh in
      let w' = stored-IsWell h w id vector metadata level fresh in
      let in_r = new-reaches h w id vector metadata level fresh in
      let on = with_vertex-reaches h w id vector metadata level fresh 0 top (w.entry top entry) in
      let (g', e, v) =
        link-Linked r top g w' (stored-Mutual level meets fresh) (ground arith) (ground arith) in
      (
        g',
        rw (fresh, store_vertex, e) refl,
        Linked-Inserted h w id vector metadata level fresh g' top entry v,
      )

  -- On a well-formed index, Insert under an id that is not in use, of a vector that can be compared
  -- with those of the index, which can be compared with each other, returns, and the index is
  -- well-formed after it. The vertex is found by its id, with its vector, normalized for the cosine
  -- distance, and its metadata; every other id finds what it found before; no other vertex has changed
  -- but for its edges; the length is one more, and there is an entrypoint.
  pub insert-Inserted :
      Meets h (normalized h.distancer value)
      → get_vertex id h ≡ none
      → (g : Hnsw) × (insert id value metadata level h ≡ ok g)
        × Inserted h id (normalized h.distancer value) metadata g
  insert-Inserted meets fresh =
      let (g, e, v) = insert_from-Inserted h.entrypoint refl meets fresh in
      (g, insert_by h.entrypoint refl ∙ e, v)
