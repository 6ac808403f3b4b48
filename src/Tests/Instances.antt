-- ===== src/Tests/Instances.antt =====
-- A bitmap as a list of ids, and floats whose conversions serve the tests: each is total, and
-- exact on small whole numbers where a test says so.
use coltt.Prelude.{
  ℕ, zero, suc, ◌+◌, ◌≤◌, ap, sym, ◌∙◌, All, All-map, ltb, Bool-cases, inl, inr, ◌≡◌, refl, Bool,
  true, false, not, ◌&&◌, ◌||◌, none, some, List, [], ◌∷◌, ◌++◌, any, arith, ◌==◌, if◌then◌else◌,
}
use coltt.Prelude.Int.{pos, pos_part}
use coltt.Prelude.Float.{Floats, float32_rank}
use coltt.Prelude.Outcome.{ok}
use coltt.Prelude.Count.{count, bit, count_mono}
use coltt.Edge.Queue.{SearchResultItem, Sorter, Ascending}
use coltt.Edge.Space.{Quantization, no_quantization, SpaceMetadata}
use coltt.Edge.Analyzer.{IndexFeature}
use coltt.Edge.Storage.{Json}
use coltt.Inverted.Roaring.{Roaring}

abbrev pub has : List ℕ → ℕ → Bool
has b j = any (λ i. i == j) b

abbrev pub keep : (ℕ → Bool) → List ℕ → List ℕ
keep p [] = []
keep p (i ∷ b) = let rest = keep p b in if p i then i ∷ rest else rest

abbrev pub list_is_empty : List ℕ → Bool
list_is_empty [] = true
list_is_empty (i ∷ b) = false

pub has-keep : (p : ℕ → Bool) (j : ℕ) (b : List ℕ) → has (keep p b) j ≡ (p j && has b j)
has-keep p j [] = ground arith
has-keep p j (i ∷ b) = ground (arith, has-keep p j b)

pub has-append : (j : ℕ) (a b : List ℕ) → has (a ++ b) j ≡ (has a j || has b j)
has-append j [] b = refl
has-append j (i ∷ a) b = ground (arith, has-append j a b)

pub has-remove :
    (i j : ℕ) (b : List ℕ) → has (keep (λ k. not (i == k)) b) j ≡ (not (i == j) && has b j)
has-remove i j b = has-keep (λ k. not (i == k)) j b

pub has-and : (j : ℕ) (a b : List ℕ) → has (keep (has b) a) j ≡ (has a j && has b j)
has-and j a b = ground (arith, has-keep (has b) j a)

pub has_empty : (j : ℕ) (b : List ℕ) → list_is_empty b ≡ true → has b j ≡ false
has_empty j [] h = refl
has_empty j (i ∷ b) h = cc

-- each id of the list once
abbrev pub once : List ℕ → List ℕ
once [] = []
once (i ∷ b) = i ∷ keep (λ k. not (i == k)) (once b)

pub any-once : (j : ℕ) (b : List ℕ) → any (λ i. i == j) (once b) ≡ has b j
any-once j [] = refl
any-once j (i ∷ b) = ground (arith, has-keep (λ k. not (i == k)) j (once b), any-once j b)

count-keep : (p q : ℕ → Bool) (b : List ℕ) → count p (keep q b) ≡ count (λ i. p i && q i) b
unfolding count
count-keep p q [] = refl
count-keep p q (i ∷ b) = ground (arith, count-keep p q b)

count-keep_none :
    (i j : ℕ) (b : List ℕ) → (i == j) ≡ true → count (λ k. k == j && not (i == k)) b ≡ 0
unfolding count
count-keep_none i j [] e = refl
count-keep_none i j (k ∷ b) e = ground (arith, count-keep_none i j b e)

pub count-once : (j : ℕ) (b : List ℕ) → count (λ i. i == j) (once b) ≤ 1
unfolding count
count-once j [] = omega arith
count-once j (i ∷ b) =
    let kept = count-keep (λ k. k == j) (λ k. not (i == k)) (once b) in
    elim (Bool-cases (i == j)) [
      | inl e ↦ rw e (omega (arith, kept, count-keep_none i j (once b) e))
      | inr e ↦ rw e (
          omega (
            arith,
            kept,
            count-once j b,
            count_mono (λ k. k == j && not (i == k)) (λ k. k == j) (λ k p. ground arith) (once b),
          ))
    ]

instance abbrev pub list_roaring : Roaring (List ℕ)
list_roaring = record {
  new = [];
  contains = has;
  add = λ i b. i ∷ b;
  remove = λ i b. keep (λ k. not (i == k)) b;
  is_empty = list_is_empty;
  or = λ a b. a ++ b;
  and = λ a b. keep (has b) a;
  to_array = once;
  to_bytes = λ b. b;
  unmarshal_binary = λ s. some s;
  contains-new = λ j. refl;
  contains-add = λ i j b. refl;
  contains-remove = has-remove;
  contains_empty = has_empty;
  contains-or = has-append;
  contains-and = has-and;
  any-to_array = any-once;
  to_array_once = count-once;
  unmarshal_binary-to_bytes = λ b. refl;
}

-- The bits of the float64 of a whole number, for 0, 1 and 2; 3 stands for the rest.
abbrev pub small_float64 : ℕ → ℕ
small_float64 zero = 0
small_float64 (suc zero) = 0x3ff0000000000000
small_float64 (suc (suc zero)) = 0x4000000000000000
small_float64 n = 0x4008000000000000

instance abbrev pub test_floats : Floats
test_floats = record {
  float64_of_int = λ z. small_float64 (pos_part z);
  float64_of_float32 = λ x. if x == 0 then 0 else 0x3ff0000000000000;
  int_of_float64 = λ x. if x == 0 then pos 0 else pos 1;
  parse_float64 = λ s. none;
  parse_float32 = λ s. none;
  add32 = λ a b. a;
  sub32 = λ a b. a;
  mul32 = λ a b. a;
  div32 = λ a b. a;
  sqrt32 = λ a. a;
}

abbrev pub insert_item : SearchResultItem → List SearchResultItem → List SearchResultItem
insert_item x [] = x ∷ []
insert_item x (y ∷ ys) =
    let rest = insert_item x ys in
    if ltb (float32_rank y.score) (float32_rank x.score) then y ∷ rest else x ∷ y ∷ ys

abbrev pub sort_items : List SearchResultItem → List SearchResultItem
sort_items [] = []
sort_items (x ∷ xs) = insert_item x (sort_items xs)

count-insert_item :
    (p : SearchResultItem → Bool) (x : SearchResultItem) (ys : List SearchResultItem)
    → count p (insert_item x ys) ≡ bit (p x) + count p ys
unfolding count
count-insert_item p x [] = refl
count-insert_item p x (y ∷ ys) = ground (arith, count-insert_item p x ys)

pub count-sort_items :
    (p : SearchResultItem → Bool) (xs : List SearchResultItem)
    → count p (sort_items xs) ≡ count p xs
unfolding count
count-sort_items p [] = refl
count-sort_items p (x ∷ xs) =
    count-insert_item p x (sort_items xs) ∙ ap (λ n. bit (p x) + n) (count-sort_items p xs)

abbrev Above : ℕ → SearchResultItem → Type 0
Above t later = t ≤ float32_rank later.score

All-insert_item :
    (t : ℕ) (x : SearchResultItem) (ys : List SearchResultItem)
    → Above t x
    → All (Above t) ys
    → All (Above t) (insert_item x ys)
All-insert_item t x [] h a = (h, tt)
All-insert_item t x (y ∷ ys) h (b, a) =
    elim (Bool-cases (ltb (float32_rank y.score) (float32_rank x.score))) [
      | inl e ↦ rw e (b, All-insert_item t x ys h a)
      | inr e ↦ rw e (h, (b, a))
    ]

insert_item-Ascending :
    (x : SearchResultItem) (ys : List SearchResultItem)
    → Ascending ys
    → Ascending (insert_item x ys)
insert_item-Ascending x [] a = (tt, tt)
insert_item-Ascending x (y ∷ ys) (b, a) =
    elim (Bool-cases (ltb (float32_rank y.score) (float32_rank x.score))) [
      | inl e ↦ rw e (
        All-insert_item (float32_rank y.score) x ys (ground arith) b,
        insert_item-Ascending x ys a,
      )
      | inr e ↦
          let least : float32_rank x.score ≤ float32_rank y.score = ground arith in
          rw e ((least, All-map _ _ ys (λ z h. omega arith) b), (b, a))
    ]

pub sort_items-Ascending : (xs : List SearchResultItem) → Ascending (sort_items xs)
sort_items-Ascending [] = tt
sort_items-Ascending (x ∷ xs) = insert_item-Ascending x (sort_items xs) (sort_items-Ascending xs)

instance abbrev pub insertion_sort : Sorter
insertion_sort = record {
  sort_slice = sort_items;
  count-sort_slice = count-sort_items;
  sort_slice-Ascending = λ xs g. sort_items-Ascending xs;
}

instance abbrev pub plain_vectors : Quantization
plain_vectors = no_quantization

-- A collection of vectors of one element, with one column, and the JSON of it alone.
abbrev pub column : IndexFeature
column = record { index_name = b'k' ∷ []; index_type = 1; enable_null = false; primary_key = false }

abbrev pub design : SpaceMetadata
design = record {
  dim = 1;
  distance = 1;
  quantization = 0;
  index_type = (b'k' ∷ [], column) ∷ [];
  versioning = false;
}

instance abbrev pub one_design : Json
one_design = record {
  marshal = λ m. b'{' ∷ b'}' ∷ [];
  unmarshal = λ s. ok design;
  Encodes = λ m. m ≡ design;
  unmarshal-marshal = λ m e. ap ok (sym e);
}
