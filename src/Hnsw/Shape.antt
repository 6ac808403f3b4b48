-- ===== src/Hnsw/Shape.antt =====
-- The shape of the graph: every edge set of a level leads to vertices of that level, and the
-- shards hold the vertices that are not deleted.
pub mod Edges
pub mod Shards
use coltt.Prelude.{
  ℕ, zero, suc, ◌+◌, ◌≤◌, ◌<◌, ◌≡◌, refl, ap, ◌∙◌, sym, Bool, true, false, not, ◌&&◌, Option, none,
  some, List, [], ◌∷◌, length, get_or, set, get_or-set, length-set, arith, ltb, leb, ◌==◌,
  Bool-cases, inl, inr, if◌then◌else◌,
}
use coltt.Prelude.Count.{bit, count}
use coltt.Prelude.Dict
use coltt.Prelude.Dict.{Dict, nat_key}
use coltt.Prelude.Outcome.{Outcome, ok, panic, ◌>>=◌}
use coltt.Edge.Heap.Order.{AllGood}
use coltt.Hnsw.{
  Hnsw, HnswVertex, HnswEdgeSet, Ref, vertex_at, blank, edges_of, put_edges, set_edges, add_edge,
  remove_edge, get_vertex,
}

-- The vertex has edges on the level.
abbrev pub reaches : Hnsw → ℕ → Ref → Bool
reaches h level r = ltb r (length h.store) && leb level (vertex_at h r).level

abbrev pub edges_at : Hnsw → Ref → ℕ → HnswEdgeSet
edges_at h r level = get_or (vertex_at h r).edges level []

abbrev pub leads : Hnsw → ℕ → Ref × ℕ → Bool
leads h level e = reaches h level e.0

pub record IsWell (h : Hnsw) : Type 0 where
  pub sized : (r : Ref) → length (vertex_at h r).edges ≡ (vertex_at h r).level + 1
  pub targets : (r : Ref) (level : ℕ) → AllGood (leads h level) (edges_at h r level)
  pub entry : (r : Ref) → h.entrypoint ≡ some r → reaches h 0 r ≡ true
  pub shards : length h.vertices ≡ 16
  pub stored :
      (id : ℕ) (r : Ref)
      → get_vertex id h ≡ some r
      → (r < length h.store) × ((vertex_at h r).id ≡ id) × ((vertex_at h r).deleted ≡ false)
  pub live :
      (r : Ref)
      → r < length h.store
      → (vertex_at h r).deleted ≡ false
      → get_vertex (vertex_at h r).id h ≡ some r

abbrev pub bare : HnswVertex → HnswVertex
bare v = record v { edges = [] }

-- Only edges differ.
pub record Keeps (g h : Hnsw) : Type 0 where
  pub size : length h.store ≡ length g.store
  pub vertex : (r : Ref) → bare (vertex_at h r) ≡ bare (vertex_at g r)
  pub rest : record h { store = [] } ≡ record g { store = [] }

pub AllGood-weaken :
    {A : Type 0} (p q : A → Bool) (a : List A)
    → ((x : A) → p x ≡ true → q x ≡ true)
    → AllGood p a
    → AllGood q a
unfolding count
AllGood-weaken p q [] f g = refl
AllGood-weaken p q (x ∷ a) f g = ground (arith, f x, AllGood-weaken p q a f)

module _ (f g h : Hnsw) where
  pub Keeps-trans : Keeps f g → Keeps g h → Keeps f h
  Keeps-trans u v = record {
    size = v.size ∙ u.size;
    vertex = λ r. v.vertex r ∙ u.vertex r;
    rest = v.rest ∙ u.rest;
  }

pub Keeps-refl : (h : Hnsw) → Keeps h h
Keeps-refl h = record { size = refl; vertex = λ r. refl; rest = refl }

module _ {g h : Hnsw} (k : Keeps g h) where
  pub Keeps-level : (r : Ref) → (vertex_at h r).level ≡ (vertex_at g r).level
  Keeps-level r = ap (λ v. v.level) (k.vertex r)

  pub Keeps-reaches : (level : ℕ) (r : Ref) → reaches h level r ≡ reaches g level r
  Keeps-reaches level r = rw (k.size, Keeps-level r) refl

  -- What is about neither edges nor levels carries over.
  pub Keeps-IsWell :
      IsWell g
      → ((r : Ref) → length (vertex_at h r).edges ≡ (vertex_at h r).level + 1)
      → ((r : Ref) (level : ℕ) → AllGood (leads g level) (edges_at h r level))
      → IsWell h
  unfolding get_vertex
  Keeps-IsWell w sized targets =
      let vertices = ap (λ x. x.vertices) k.rest in
      let same : (id : ℕ) → get_vertex id h ≡ get_vertex id g = λ id. rw vertices refl in
      let ids : (r : Ref) → (vertex_at h r).id ≡ (vertex_at g r).id =
        λ r. ap (λ v. v.id) (k.vertex r) in
      let flags : (r : Ref) → (vertex_at h r).deleted ≡ (vertex_at g r).deleted =
        λ r. ap (λ v. v.deleted) (k.vertex r) in
      record {
        sized = sized;
        targets = λ r level.
            AllGood-weaken (leads g level) (leads h level) (edges_at h r level)
              (λ e p. Keeps-reaches level e.0 ∙ p) (targets r level);
        entry = λ r e. Keeps-reaches 0 r ∙ w.entry r (sym (ap (λ x. x.entrypoint) k.rest) ∙ e);
        shards = ap length vertices ∙ w.shards;
        stored = λ id r e.
            let (inside, name, flag) = w.stored id r (sym (same id) ∙ e) in
            (let s = k.size in omega arith, ids r ∙ name, flags r ∙ flag);
        live = λ r inside flag.
            rw (ids r, same) (w.live r (let s = k.size in omega arith) (sym (flags r) ∙ flag));
      }
