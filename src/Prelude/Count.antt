-- ===== src/Prelude/Count.antt =====
-- How many items of a list pass a test. Two lists hold the same items if every test passes on as
-- many of the one as of the other; the order of the items is forgotten.
use Prim.Native.Nat.{ℕ, zero, suc, ◌+◌, ◌≤◌, ◌<◌}
use mathlib.Core.Path.{◌≡◌, refl}
use mathlib.Core.Bool.{Bool, true, false, not}
use mathlib.Core.List.{List, [], ◌∷◌, ◌++◌}
use mathlib.Core.Option.{some}
use native.Mathlib.Omega.{arith}
use coltt.Prelude.Tests.{ltb}
use coltt.Prelude.Lists.{length, get_elem?, get_or, set, take, All}

abbrev pub bit : Bool → ℕ
bit true = 1
bit false = 0

module _ {A : Type 0} where
  unfoldable pub count : (A → Bool) → List A → ℕ
  count p [] = 0
  count p (x ∷ xs) = bit (p x) + count p xs

  abbrev pub SameItems : List A → List A → Type 0
  SameItems xs ys = (p : A → Bool) → count p xs ≡ count p ys

  pub count-append : (p : A → Bool) (xs ys : List A) → count p (xs ++ ys) ≡ count p xs + count p ys
  unfolding count
  count-append p [] ys = omega arith
  count-append p (x ∷ xs) ys = omega (arith, count-append p xs ys)

  -- A write trades the old item for the new one.
  pub count-set :
      (p : A → Bool) (xs : List A) (i : ℕ) (v x : A)
      → get_elem? xs i ≡ some x
      → count p (set xs i v) + bit (p x) ≡ count p xs + bit (p v)
  unfolding count
  count-set p [] i v x h = cc
  count-set p (y ∷ xs) zero v x h = ground arith
  count-set p (y ∷ xs) (suc i) v x h = omega (arith, count-set p xs i v x h)

  pub count-take :
      (p : A → Bool) (n : ℕ) (xs : List A) (x : A)
      → length xs ≡ suc n
      → get_elem? xs n ≡ some x
      → count p (take n xs) + bit (p x) ≡ count p xs
  unfolding count
  count-take p zero (y ∷ []) x h e = ground arith
  count-take p zero (y ∷ z ∷ xs) x h e = absurd (omega arith)
  count-take p (suc n) (y ∷ xs) x h e = omega (arith, count-take p n xs x (omega arith) e)
  count-take p n [] x h e = cc

  pub count-get :
      (p : A → Bool) (xs : List A) (i : ℕ) (x : A)
      → get_elem? xs i ≡ some x
      → bit (p x) ≤ count p xs
  unfolding count
  count-get p [] i x h = cc
  count-get p (y ∷ xs) zero x h = ground arith
  count-get p (y ∷ xs) (suc i) x h = omega (arith, count-get p xs i x h)

  pub length-eq-count : (xs : List A) → length xs ≡ count (λ x. true) xs
  unfolding count
  length-eq-count [] = refl
  length-eq-count (x ∷ xs) = omega (arith, length-eq-count xs)

  -- No item is below the bound: each reaches it.
  pub All-of_count :
      (key : A → ℕ) (t : ℕ) (xs : List A)
      → count (λ x. ltb (key x) t) xs ≡ 0
      → All (λ x. t ≤ key x) xs
  unfolding count
  All-of_count key t [] h = tt
  All-of_count key t (x ∷ xs) h = (ground arith, All-of_count key t xs (omega arith))

  pub count_of_All :
      (key : A → ℕ) (t : ℕ) (xs : List A)
      → All (λ x. t ≤ key x) xs
      → count (λ x. ltb (key x) t) xs ≡ 0
  unfolding count
  count_of_All key t [] h = refl
  count_of_All key t (x ∷ xs) h = ground (arith, h.0, count_of_All key t xs h.1)

module _ {A : Type 0} (p q : A → Bool) (weaker : (x : A) → p x ≡ true → q x ≡ true) where
  pub count_mono : (xs : List A) → count p xs ≤ count q xs
  unfolding count
  count_mono [] = omega arith
  count_mono (x ∷ xs) = ground (arith, weaker x, count_mono xs)

  -- Some item passes only the weaker test.
  pub count_lt :
      (xs : List A) (i : ℕ) (d : A)
      → i < length xs
      → q (get_or xs i d) ≡ true
      → p (get_or xs i d) ≡ false
      → count p xs < count q xs
  unfolding count
  count_lt [] i d h e f = absurd (omega arith)
  count_lt (x ∷ xs) zero d h e f = ground (arith, count_mono xs)
  count_lt (x ∷ xs) (suc i) d h e f = ground (arith, weaker x, count_lt xs i d)

module _ {A : Type 0} where
  -- What passes one test passes one of two others.
  pub count_cover :
      (p q r : A → Bool) (xs : List A)
      → ((x : A) → p x ≡ true → q x ≡ false → r x ≡ true)
      → count p xs ≤ count q xs + count r xs
  unfolding count
  count_cover p q r [] h = omega arith
  count_cover p q r (x ∷ xs) h = ground (arith, h x, count_cover p q r xs h)

  pub count_complement :
      (p : A → Bool) (xs : List A) → count p xs + count (λ x. not (p x)) xs ≡ length xs
  unfolding count
  count_complement p [] = omega arith
  count_complement p (x ∷ xs) = ground (arith, count_complement p xs)
