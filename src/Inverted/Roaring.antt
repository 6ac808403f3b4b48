-- ===== src/Inverted/Roaring.antt =====
-- The calls of github.com/RoaringBitmap/roaring/v2/roaring64 that the package makes, as an
-- interface: a bitmap is a set of node ids, observed by Contains.
use coltt.Prelude.{ℕ, ◌≤◌, ◌≡◌, Bool, true, false, not, ◌&&◌, ◌||◌, List, Option, some, any, ◌==◌}
use coltt.Prelude.Count.{count}
use coltt.Prelude.Bytes.{Bytes}

pub record Roaring (B : Type 0) : Type 0 where
  pub new : B
  pub contains : B → ℕ → Bool
  pub add : ℕ → B → B
  pub remove : ℕ → B → B
  pub is_empty : B → Bool
  -- a.Or(b) and a.And(b); the receiver is the first
  pub or : B → B → B
  pub and : B → B → B
  pub to_array : B → List ℕ
  pub to_bytes : B → Bytes
  pub unmarshal_binary : Bytes → Option B
  -- the documented behaviour
  pub contains-new : (j : ℕ) → contains new j ≡ false
  pub contains-add : (i j : ℕ) (b : B) → contains (add i b) j ≡ (i == j || contains b j)
  pub contains-remove : (i j : ℕ) (b : B) → contains (remove i b) j ≡ (not (i == j) && contains b j)
  pub contains_empty : (j : ℕ) (b : B) → is_empty b ≡ true → contains b j ≡ false
  pub contains-or : (j : ℕ) (a b : B) → contains (or a b) j ≡ (contains a j || contains b j)
  pub contains-and : (j : ℕ) (a b : B) → contains (and a b) j ≡ (contains a j && contains b j)
  pub any-to_array : (j : ℕ) (b : B) → any (λ i. i == j) (to_array b) ≡ contains b j
  pub to_array_once : (j : ℕ) (b : B) → count (λ i. i == j) (to_array b) ≤ 1
  pub unmarshal_binary-to_bytes : (b : B) → unmarshal_binary (to_bytes b) ≡ some b
