-- ===== src/Hnsw/Change/Link.antt =====
-- A new vertex is stored and linked, and the shape stays.
use coltt.Prelude.{
  ap, ◌<◌, ℕ, zero, suc, ◌+◌, ◌-◌, ◌≤◌, ◌≡◌, ◌∙◌, refl, ◌⊎◌, true, Option, some, length, min, arith,
  ltb, leb, Bool-cases, inl, inr,
}
use coltt.Prelude.Outcome.{ok}
use coltt.Edge.Space.{Vector}
use coltt.Hnsw.{Distances, Hnsw, Ref, vertex_at}
use coltt.Hnsw.Queue.Items.{AllGood-Part}
use coltt.Hnsw.Shape.{reaches, IsWell, Keeps, Keeps-level, AllGood-weaken}
use coltt.Hnsw.Shape.Edges.{Next, Does, Next-trans, Next-refl}
use coltt.Hnsw.Search.{select_by, distance_to, descend}
use coltt.Hnsw.Search.Answers.{select_by-Part}
use coltt.Hnsw.Search.Walk.{Comparable, measured-ok, descend-Arrives}
use coltt.Hnsw.Search.Level.{fine, search_level-Found}
use coltt.Hnsw.Change.{m_max_at, link_level, link_levels, link}
use coltt.Hnsw.Change.Prune.{stands, Walks, connect_all-Walks}

-- Linking writes edges, and the entrypoint where the vertex has the highest level.
pub record Linked (r : Ref) (g h : Hnsw) : Type 0 where
  pub linked : Hnsw
  pub next : Next g linked
  pub top : Option Ref
  pub same : h ≡ record linked { entrypoint = top }
  pub which : (top ≡ linked.entrypoint) ⊎ (top ≡ some r)

-- The vectors of any two vertices can be compared.
abbrev pub Mutual : ⦃space : Distances⦄ → Hnsw → Type 0
Mutual h = (r : Ref) → r < length h.store → Comparable h (vertex_at h r).vector

module _ ⦃space : Distances⦄ where
  -- Two vertices with the vectors of two that can be compared.
  pub comparable_as :
      {a b c d : Vector} → a ≡ c → b ≡ d → space.comparable c d ≡ true → space.comparable a b ≡ true
  comparable_as {a} {b} {c} {d} e f h =
      ap (λ v. space.comparable v b) e ∙ ap (λ v. space.comparable c v) f ∙ h

  pub Keeps-Mutual : {g h : Hnsw} → Keeps g h → Mutual g → Mutual h
  Keeps-Mutual k near r in_r s in_s =
      let size = k.size in
      comparable_as (ap (λ v. v.vector) (k.vertex r)) (ap (λ v. v.vector) (k.vertex s))
        (near r (omega arith) s (omega arith))

  -- A vector that can be compared with all, and all with it.
  pub record Meets (h : Hnsw) (vector : Vector) : Type 0 where
    pub near : Mutual h
    pub ahead : Comparable h vector
    pub back :
        (r : Ref) → r < length h.store → space.comparable (vertex_at h r).vector vector ≡ true
    pub self : space.comparable vector vector ≡ true

  link_level-Walks :
      (r : Ref) (level : ℕ) (start : Ref) (h : Hnsw)
      → IsWell h
      → Mutual h
      → reaches h level r ≡ true
      → reaches h level start ≡ true
      → Walks r level (m_max_at h.config level) h (link_level r level start h)
  unfolding link_level
  link_level-Walks r level start h w near on at =
      let vector = (vertex_at h r).vector in
      let fits = near r (ground arith) in
      let (found, searched, v) =
        search_level-Found h w vector fits level start h.config.ef_construction start
          (ground arith) in
      let selected = select_by h.config found h.config.m in
      let all =
        AllGood-Part (stands h level) h.config.m found selected
          (select_by-Part h.config found h.config.m)
          (AllGood-weaken (fine h vector level start) (stands h level) found (λ x p. ground arith)
            v.each) in
      rw searched (
        connect_all-Walks r level (m_max_at h.config level) (length selected) selected start h refl
          w on at all)

  link_levels-Does :
      (n : ℕ) (r start : Ref) (h : Hnsw)
      → IsWell h
      → Mutual h
      → ltb r (length h.store) ≡ true
      → ltb start (length h.store) ≡ true
      → n ≤ (vertex_at h r).level + 1
      → n ≤ (vertex_at h start).level + 1
      → Does h (link_levels n r start h)
  unfolding link_levels
  link_levels-Does zero r start h w near in_r in_s top_r top_s = (h, refl, Next-refl h w)
  link_levels-Does (suc n) r start h w near in_r in_s top_r top_s =
      let (s, h1, e1, at, n1) = link_level-Walks r n start h w near (ground arith) (ground arith) in
      let k = n1.keeps in
      let size = k.size in
      let (h2, e2, n2) =
        link_levels-Does n r s h1 n1.well (Keeps-Mutual n1.keeps near) (ground arith) (ground arith)
          (omega (arith, Keeps-level n1.keeps r)) (ground arith) in
      (h2, rw (e1, e2) refl, Next-trans h h1 h2 n1 n2)

  -- The descent ends on a vertex, also where the new one has the higher level.
  descend-stored :
      (h : Hnsw) (query : Vector) (entry : Ref) (level : ℕ)
      → IsWell h
      → Comparable h query
      → ltb entry (length h.store) ≡ true
      → (s : Ref) × (d : ℕ) × (descend h query
            ((vertex_at h entry).level - level)
            level
            entry
            (distance_to h query entry)
          ≡ ok (s, d))
        × (ltb s (length h.store) ≡ true)
  unfolding descend
  descend-stored h query entry level w fits stored =
      let top = (vertex_at h entry).level in
      elim (Bool-cases (leb top level)) [
        | inl low ↦
            let e : top - level ≡ 0 = ground arith in
            rw e (entry, distance_to h query entry, refl, stored)
        | inr high ↦
            let (s, d, e, at) =
              descend-Arrives h w query fits entry (top - level) level entry
                (distance_to h query entry) (ground arith) in
            (s, d, e, ground arith)
      ]

  pub link-Linked :
      (r entry : Ref) (h : Hnsw)
      → IsWell h
      → Mutual h
      → ltb r (length h.store) ≡ true
      → ltb entry (length h.store) ≡ true
      → (h' : Hnsw) × (link r entry h ≡ ok h') × Linked r h h'
  unfolding link
  link-Linked r entry h w near in_r in_e =
      let vertex = vertex_at h r in
      let fits = near r (ground arith) in
      let (s, d, walked, stored) = descend-stored h vertex.vector entry vertex.level w fits in_e in
      let n = min (vertex_at h s).level vertex.level + 1 in
      let (h1, e1, n1) = link_levels-Does n r s h w near in_r stored (omega arith) (omega arith) in
      rw (measured-ok h w vertex.vector fits entry in_e, walked, e1)
        (elim (Bool-cases (ltb (vertex_at h entry).level vertex.level)) [
          | inl higher ↦ rw higher (
            record h1 { entrypoint = some r },
            refl,
            record { linked = h1; next = n1; top = some r; same = refl; which = inr refl },
          )
          | inr lower ↦ rw lower (
            h1,
            refl,
            record { linked = h1; next = n1; top = h1.entrypoint; same = refl; which = inl refl },
          )
        ])
