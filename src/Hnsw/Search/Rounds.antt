-- ===== src/Hnsw/Search/Rounds.antt =====
-- A round of the search of a level with room for every vertex.
use coltt.Prelude.{
  ℕ, ◌≤◌, ◌<◌, ◌≡◌, refl, ap, ◌∙◌, sym, inl, inr, Bool, true, false, not, some, List, [], ◌∷◌,
  length, get_elem?, any, arith, ltb, ◌==◌, ==_iff, Bool-cases,
}
use coltt.Prelude.Count.{bit, count, count-get, count_cover}
use coltt.Prelude.Float.{float32_ltb, float32_nan}
use coltt.Prelude.Outcome.{ok}
use coltt.Edge.Heap
use coltt.Edge.Heap.Order.{AllGood, root_least}
use coltt.Edge.Heap.Items.{pop-Popped}
use coltt.Edge.Heap.PushPop.{none_below}
use coltt.Edge.Space.{Vector}
use coltt.Hnsw.{Distances, Hnsw, HnswEdgeSet, Ref, vertex_at}
use coltt.Hnsw.Queue.{PriorityQueueItem, PriorityQueue, min_less, peek}
use coltt.Hnsw.Shape.{reaches, edges_at, IsWell}
use coltt.Hnsw.Search.Walk.{Comparable, edges_to_measure-ok}
use coltt.Hnsw.Search.Level.{is, fine, Searching, work, visit_all-Searches, peek-ok}
use coltt.Hnsw.Queue.Heaped.{max_key, is_number, max_agrees}
use coltt.Hnsw.Search.Exhaustive.{passed, Exhaustive, all_numbers, visit_all-Later}
use coltt.Hnsw.Search.{popped, LevelSearch, seen, distance_to, visit_all, round}

-- An edge to a vertex that is not deleted leads to a visited one.
pub passed-seen :
    (h : Hnsw) (visited : List Ref) (v : Ref) (edges : HnswEdgeSet)
    → AllGood (passed h visited) edges
    → any (λ e. e.0 == v) edges ≡ true
    → (vertex_at h v).deleted ≡ false
    → seen v visited ≡ true
unfolding count
passed-seen h visited v [] good at alive = cc
passed-seen h visited v ((r, d) ∷ edges) good at alive = elim (Bool-cases (r == v)) [
  | inl same ↦
      let e = (==_iff r v).0 same in
      let here : passed h visited (r, d) ≡ true = ground arith in
      let there : passed h visited (v, d) ≡ true = rw (← e) here in rw alive at there
  | inr other ↦ passed-seen h visited v edges (ground arith) (rw other at at) alive
]

module _ ⦃space : Distances⦄ (h : Hnsw) (w : IsWell h) (query : Vector) (fits : Comparable h query)
    (level : ℕ) (entry : Ref)
    (numbers : (r : Ref) → r < length h.store → float32_nan (distance_to h query r) ≡ false)
    (ef : ℕ) (roomy : length h.store ≤ ef) where
  abbrev pub all_closed : Ref → Bool
  all_closed u = false

  abbrev pub Full : LevelSearch → Type 0
  Full = Exhaustive h w query fits level entry numbers all_closed

  -- No candidate is farther than the worst result, so the search does not break.
  no_break :
      (s : LevelSearch) (m worst : PriorityQueueItem)
      → Searching h w query fits level entry s
      → Full s
      → fine h query level entry m ≡ true
      → seen m.value s.visited ≡ true
      → get_elem? s.results 0 ≡ some worst
      → float32_ltb worst.priority m.priority ≡ false
  no_break s m worst v x good known top =
      elim (Bool-cases (float32_ltb worst.priority m.priority)) [
        | inr stays ↦ stays
        | inl breaks ↦
            let all =
              all_numbers h w query fits level entry numbers all_closed s.results v.results in
            let of_m : m.priority ≡ distance_to h query m.value = ground arith in
            let m_number : is_number m ≡ true = rw (of_m, numbers m.value (ground arith)) refl in
            let w_number : is_number worst ≡ true =
              ground (arith, count-get (λ y. not (is_number y)) s.results 0 worst top) in
            let lower : ltb (max_key m) (max_key worst) ≡ true =
              sym (max_agrees m worst m_number w_number) ∙ breaks in
            let least = none_below max_key (max_key worst) s.results (λ i inside.
              let r = root_least max_key (length s.results) s.results i x.heap inside in
              rw top at r) in
            let covered =
              count_cover (is m.value) (λ y. not (fine h query level entry y))
                (λ y. ltb (max_key y) (max_key worst)) s.results
                (λ y same fits.
                  let at = (==_iff y.value m.value).0 same in
                  let of_y : y.priority ≡ distance_to h query y.value = ground arith in
                  let e : y.priority ≡ m.priority = of_y ∙ ap (distance_to h query) at ∙ sym of_m in
                  rw e lower) in
            let one = x.whole m.value ∙ ap bit known in
            let fine_all = v.results in absurd (omega arith)
      ]

  -- A round follows the edges of one candidate.
  pub record Round (s t : LevelSearch) : Type 0 where
    pub state : Searching h w query fits level entry t
    pub full : Full t
    pub less : work h w query fits level entry t < work h w query fits level entry s
    pub more : (u : Ref) → seen u s.visited ≡ true → seen u t.visited ≡ true

  top_of : (a : PriorityQueue) (x : PriorityQueueItem) → peek a ≡ ok x → get_elem? a 0 ≡ some x
  unfolding peek
  top_of [] x e = cc
  top_of (y ∷ a) x e = cc

  pub round-Round :
      (s : LevelSearch)
      → 0 < length s.candidates
      → Searching h w query fits level entry s
      → Full s
      → (t : LevelSearch) × (round h query ef level s ≡ ok (some t)) × Round s t
  unfolding round count
  round-Round s left v x =
      let (m, top, after) = pop-Popped min_less s.candidates left in
      let (worst, peeked) = peek-ok h w query fits level entry ef s.results v.some_result in
      let rest : LevelSearch = record s { candidates = (Heap.pop min_less s.candidates).1 } in
      let counted = after.same (λ y. not (fine h query level entry y)) in
      let counted' = after.same (λ y. not (seen y.value s.visited)) in
      let all_fine = v.candidates in
      let all_known = x.known in
      let good : fine h query level entry m ≡ true = ground arith in
      let known : seen m.value s.visited ≡ true = ground arith in
      let on : reaches h level m.value ≡ true = ground arith in
      let stays = no_break s m worst v x good known (top_of s.results worst peeked) in
      let edges = edges_at h m.value level in
      let state : Searching h w query fits level entry rest = record {
        candidates = omega arith;
        results = v.results;
        some_result = v.some_result;
        once = v.once;
      } in
      let open_m : Exhaustive h w query fits level entry numbers (λ u. u == m.value) rest = record {
        heap = x.heap;
        whole = x.whole;
        known = omega arith;
        room = x.room;
        closed = λ u e other. elim (x.closed u e refl) [
          | inl waits ↦
              let c = after.same (is u) in
              let apart : (m.value == u) ≡ false = ground arith in inl (ground arith)
          | inr done ↦ inr done
        ];
      } in
      let (later, all) =
        visit_all-Later h w query fits level entry numbers (λ u. u == m.value) ef roomy
          worst.priority edges rest (w.targets m.value level) state open_m in
      let t = visit_all h query ef worst.priority edges rest in
      let falls =
        visit_all-Searches h w query fits level entry ef worst.priority edges rest
          (w.targets m.value level) state in
      let f = later.full in
      (
        t,
        rw (top, popped, peeked, edges_to_measure-ok h w query fits m.value level on, stays) refl,
        record {
          state = later.state;
          full = record {
            heap = f.heap;
            whole = f.whole;
            known = f.known;
            room = f.room;
            closed = λ u e o. elim (Bool-cases (u == m.value)) [
              | inl same ↦ inr (rw ((==_iff u m.value).0 same) all)
              | inr other ↦ f.closed u e other
            ];
          };
          less = let a = falls.less in let b = after.size in omega arith;
          more = later.more;
        },
      )
