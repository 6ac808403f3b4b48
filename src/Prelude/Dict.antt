-- ===== src/Prelude/Dict.antt =====
-- Go maps as association lists; the order of the list is one order in which `range` may visit
-- the entries, so a theorem for every list holds for every order. A key need not equal itself
-- (a NaN does not): equality of keys is symmetric and transitive.
pub mod Keys
use mathlib.Core.Path.{◌≡◌, refl}
use mathlib.Core.Bool.{Bool, true}
use mathlib.Core.List.{List, [], ◌∷◌}
use mathlib.Core.Option.{Option, none, some}
use Prim.Native.Nat.{ℕ}
use native.Mathlib.Omega.{arith}
use coltt.Prelude.Tests.{◌==◌, if◌then◌else◌}
use coltt.Prelude.Bytes.{Bytes, bytes_eq, bytes_eq_sym, bytes_eq_trans}

pub record Key (K : Type 0) : Type 0 where
  pub beq : K → K → Bool
  pub beq_sym : (a b : K) → beq a b ≡ beq b a
  pub beq_trans : (a b c : K) → beq a b ≡ true → beq b c ≡ beq a c

abbrev pub Dict : Type 0 → Type 0 → Type 0
Dict K V = List (K × V)

module _ {K V : Type 0} ⦃key : Key K⦄ where
  -- m[k], with its `ok`
  unfoldable pub lookup : K → Dict K V → Option V
  lookup k [] = none
  lookup k ((j, v) ∷ m) = if key.beq j k then some v else lookup k m

  -- m[k] = v
  unfoldable pub insert : K → V → Dict K V → Dict K V
  insert k v [] = (k, v) ∷ []
  insert k v ((j, w) ∷ m) = if key.beq j k then (k, v) ∷ m else (j, w) ∷ insert k v m

  -- delete(m, k): every entry with the key goes, and a map has at most one
  unfoldable pub remove : K → Dict K V → Dict K V
  remove k [] = []
  remove k ((j, w) ∷ m) = let rest = remove k m in if key.beq j k then rest else (j, w) ∷ rest

  -- a write through the pointer that m[k] holds: the key stays as it is
  unfoldable pub modify : K → V → Dict K V → Dict K V
  modify k v [] = []
  modify k v ((j, w) ∷ m) = if key.beq j k then (j, v) ∷ m else (j, w) ∷ modify k v m

  pub lookup-insert :
      (k j : K) (v : V) (m : Dict K V)
      → lookup j (insert k v m) ≡ (if key.beq k j then some v else lookup j m)
  unfolding lookup insert
  lookup-insert k j v [] = refl
  lookup-insert k j v ((i, w) ∷ m) =
      ground
        (arith, lookup-insert k j v m, key.beq_sym k j, key.beq_trans i j k, key.beq_trans i k j)

  pub lookup-remove :
      (k j : K) (m : Dict K V) → lookup j (remove k m) ≡ (if key.beq k j then none else lookup j m)
  unfolding lookup remove
  lookup-remove k j [] = ground arith
  lookup-remove k j ((i, w) ∷ m) =
      ground (arith, lookup-remove k j m, key.beq_sym k j, key.beq_trans i j k, key.beq_trans i k j)

  pub lookup-modify :
      (k j : K) (v : V) (m : Dict K V) (w : V)
      → lookup k m ≡ some w
      → lookup j (modify k v m) ≡ (if key.beq k j then some v else lookup j m)
  unfolding lookup modify
  lookup-modify k j v [] w h = ground arith
  lookup-modify k j v ((i, u) ∷ m) w h = ground (
    arith,
    lookup-modify k j v m w,
    key.beq_sym k j,
    key.beq_sym i k,
    key.beq_trans i j k,
    key.beq_trans i k j,
    key.beq_trans k i j,
  )

  -- Equal keys find the same entry.
  pub lookup-beq : (j k : K) (m : Dict K V) → key.beq j k ≡ true → lookup j m ≡ lookup k m
  unfolding lookup
  lookup-beq j k [] h = refl
  lookup-beq j k ((i, w) ∷ m) h =
      ground (arith, lookup-beq j k m, key.beq_trans i j k, key.beq_trans i k j, key.beq_sym j k)

instance abbrev pub bytes_key : Key Bytes
bytes_key = record { beq = bytes_eq; beq_sym = bytes_eq_sym; beq_trans = bytes_eq_trans }

pub nat_beq_sym : (a b : ℕ) → (a == b) ≡ (b == a)
nat_beq_sym a b = ground arith

pub nat_beq_trans : (a b c : ℕ) → (a == b) ≡ true → (b == c) ≡ (a == c)
nat_beq_trans a b c h = ground arith

abbrev pub nat_beq : ℕ → ℕ → Bool
nat_beq a b = a == b

instance abbrev pub nat_key : Key ℕ
nat_key = record { beq = nat_beq; beq_sym = nat_beq_sym; beq_trans = nat_beq_trans }
