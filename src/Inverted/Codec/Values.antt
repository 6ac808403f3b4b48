-- ===== src/Inverted/Codec/Values.antt =====
-- writeValue and readValue (pkg/inverted/save.go) one after the other.
use coltt.Prelude.{
  ℕ, ◌<◌, ◌≤◌, ◌^◌, ◌≡◌, refl, true, false, [], ◌∷◌, ◌++◌, length, arith, ltb, Bool-cases, inl, inr,
}
use mathlib.Core.List.{append_assoc}
use coltt.Prelude.Bytes.{Bytes}
use coltt.Prelude.Binary.{be, read_byte, read_be-be, read_full-append, int64_bits, bits_int64}
use coltt.Prelude.Int.{ℤ, pos, negsuc}
use coltt.Prelude.Float.{Floats}
use coltt.Prelude.Outcome.{ok}
use coltt.Inverted.Value.{Value, null, int, int64, float32, float64, string, bool, composite}
use coltt.Inverted.Codec.{write_value, read_value}

abbrev pub InInt64 : ℤ → Type 0
InInt64 (pos n) = n < 2 ^ 63
InInt64 (negsuc n) = n < 2 ^ 63

-- The value is one that Go's types can hold.
abbrev pub InRange : Value → Type 0
InRange (int z) = InInt64 z
InRange (int64 z) = InInt64 z
InRange (float32 x) = x < 2 ^ 32
InRange (float64 x) = x < 2 ^ 64
InRange v = Unit

module _ ⦃floats : Floats⦄ where
  -- The value that a stored one comes back as: every integer as int64, every float as float64.
  abbrev pub stored : Value → Value
  stored (int z) = int64 z
  stored (float32 x) = float64 (floats.float64_of_float32 x)
  stored v = v

pub int64_bits_lt : (z : ℤ) → InInt64 z → (int64_bits z < 256 ^ 8) × (bits_int64 (int64_bits z) ≡ z)
int64_bits_lt (pos n) h = (omega arith, ground arith)
int64_bits_lt (negsuc n) h = (omega arith, ground arith)

written : {x s : Bytes} → ok x ≡ ok s → x ≡ s
written h = cc

module _ ⦃floats : Floats⦄
    (widens : (x : ℕ) → x < 2 ^ 32 → floats.float64_of_float32 x < 2 ^ 64) where
  -- What writeValue wrote, readValue reads back and leaves what follows: the same value, but for
  -- the widths of its number.
  pub read_value-write_value :
      (v : Value) (s rest : Bytes)
      → InRange v
      → write_value v ≡ ok s
      → read_value (s ++ rest) ≡ ok (stored v, rest)
  unfolding write_value read_value read_byte
  read_value-write_value (int z) s rest r h =
      rw (← written h)
        (rw (read_be-be 8 (int64_bits z) rest (int64_bits_lt z r).0, (int64_bits_lt z r).1))
  read_value-write_value (int64 z) s rest r h =
      rw (← written h)
        (rw (read_be-be 8 (int64_bits z) rest (int64_bits_lt z r).0, (int64_bits_lt z r).1))
  read_value-write_value (float32 x) s rest r h =
      rw (← written h)
        (rw (read_be-be 8 (floats.float64_of_float32 x) rest (omega (arith, widens x r))))
  read_value-write_value (float64 x) s rest r h =
      rw (← written h) (rw (read_be-be 8 x rest (omega arith)))
  read_value-write_value (string t) s rest r h = elim (Bool-cases (ltb 65535 (length t))) [
    | inl long ↦ ground arith
    | inr fits ↦
        let e : 2 ∷ (be 2 (length t) ++ t) ≡ s = written (rw fits at h) in
        rw (← e) (
          rw (
            append_assoc (be 2 (length t)) t rest,
            read_be-be 2 (length t) (t ++ rest) (ground arith),
            read_full-append t rest,
          ))
  ]
  read_value-write_value (bool true) s rest r h = rw (← written h)
  read_value-write_value (bool false) s rest r h = rw (← written h)
  read_value-write_value null s rest r h = cc
  read_value-write_value composite s rest r h = cc

-- The values that come back as they were: no int, no float32, no nil and no list or map, and no
-- string of more than 65535 bytes.
abbrev pub Storable : Value → Type 0
Storable (int64 z) = InInt64 z
Storable (float64 x) = x < 2 ^ 64
Storable (string s) = length s ≤ 65535
Storable (bool b) = Unit
Storable v = ⊥

module _ ⦃floats : Floats⦄ where
  pub write_value-total :
      (v : Value)
      → Storable v
      → (s : Bytes) × (write_value v ≡ ok s)
        × ((rest : Bytes) → read_value (s ++ rest) ≡ ok (v, rest))
  unfolding write_value read_value read_byte
  write_value-total (int64 z) h = (
    0 ∷ be 8 (int64_bits z),
    refl,
    λ rest. rw (read_be-be 8 (int64_bits z) rest (int64_bits_lt z h).0, (int64_bits_lt z h).1),
  )
  write_value-total (float64 x) h =
      (1 ∷ be 8 x, refl, λ rest. rw (read_be-be 8 x rest (omega arith)))
  write_value-total (string t) h = (
    2 ∷ (be 2 (length t) ++ t),
    ground arith,
    λ rest. rw (
      append_assoc (be 2 (length t)) t rest,
      read_be-be 2 (length t) (t ++ rest) (omega arith),
      read_full-append t rest,
    ),
  )
  write_value-total (bool true) h = (3 ∷ 1 ∷ [], refl, λ rest. refl)
  write_value-total (bool false) h = (3 ∷ 0 ∷ [], refl, λ rest. refl)
  write_value-total null h = absurd h
  write_value-total (int z) h = absurd h
  write_value-total (float32 x) h = absurd h
  write_value-total composite h = absurd h
