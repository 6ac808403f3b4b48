-- ===== src/Prelude/Binary.antt =====
-- encoding/binary and io.ReadFull over byte strings: fixed-width numbers in both byte orders, and
-- reads that consume a prefix or report the end of the data.
use Prim.Native.Nat.{ℕ, zero, suc, ◌+◌, ◌*◌, ◌-◌, ◌/◌, ◌%◌, ◌^◌, ◌<◌}
use native.Mathlib.Nat.{pow-suc}
use mathlib.Core.Path.{◌≡◌, refl, ap, ◌∙◌}
use mathlib.Core.List.{[], ◌∷◌, ◌++◌}
use native.Mathlib.Omega.{arith}
use coltt.Prelude.Tests.{ltb, if◌then◌else◌}
use coltt.Prelude.Lists.{length}
use coltt.Prelude.Bytes.{Bytes}
use coltt.Prelude.Outcome.{Outcome, ok, err, ◌>>=◌, unexpected_eof}
use coltt.Prelude.Int.{ℤ, pos, negsuc}

-- The lowest `w` bytes of a number, the highest first, before `tail`.
be_loop : ℕ → ℕ → Bytes → Bytes
be_loop zero n tail = tail
be_loop (suc w) n tail = be_loop w (n / 256) (n % 256 ∷ tail)

unfoldable pub be : ℕ → ℕ → Bytes
unfolding be_loop
be w n = be_loop w n []

unfoldable pub le : ℕ → ℕ → Bytes
le zero n = []
le (suc w) n = n % 256 ∷ le w (n / 256)

be_value : ℕ → Bytes → ℕ
be_value acc [] = acc
be_value acc (c ∷ s) = be_value (acc * 256 + c) s

le_value : Bytes → ℕ
le_value [] = 0
le_value (c ∷ s) = c + 256 * le_value s

push_byte : ℕ → Outcome (Bytes × Bytes) → Outcome (Bytes × Bytes)
push_byte c (ok (s, rest)) = ok (c ∷ s, rest)
push_byte c r = r

-- io.ReadFull of `n` bytes: the bytes and what is left
unfoldable pub read_full : ℕ → Bytes → Outcome (Bytes × Bytes)
unfolding push_byte
read_full zero s = ok ([], s)
read_full (suc n) [] = err unexpected_eof
read_full (suc n) (c ∷ s) = push_byte c (read_full n s)

unfoldable pub read_be : ℕ → Bytes → Outcome (ℕ × Bytes)
unfolding be_value
read_be w s = do (b, rest) ← read_full w s; ok (be_value 0 b, rest)

unfoldable pub read_le : ℕ → Bytes → Outcome (ℕ × Bytes)
unfolding le_value
read_le w s = do (b, rest) ← read_full w s; ok (le_value b, rest)

unfoldable pub read_byte : Bytes → Outcome (ℕ × Bytes)
read_byte [] = err unexpected_eof
read_byte (c ∷ s) = ok (c, s)

-- An int64 as its two's complement pattern, and back.
abbrev pub int64_bits : ℤ → ℕ
int64_bits (pos n) = n
int64_bits (negsuc n) = 2 ^ 64 - 1 - n

abbrev pub bits_int64 : ℕ → ℤ
bits_int64 w = if ltb w (2 ^ 63) then pos w else negsuc (2 ^ 64 - 1 - w)

length-be_loop : (w n : ℕ) (tail : Bytes) → length (be_loop w n tail) ≡ w + length tail
unfolding be_loop
length-be_loop zero n tail = omega arith
length-be_loop (suc w) n tail = omega (arith, length-be_loop w (n / 256) (n % 256 ∷ tail))

length-be : (w n : ℕ) → length (be w n) ≡ w
unfolding be
length-be w n = omega (arith, length-be_loop w n [])

length-le : (w n : ℕ) → length (le w n) ≡ w
unfolding le
length-le zero n = refl
length-le (suc w) n = ap suc (length-le w (n / 256))

be_value-be_loop :
    (w n acc : ℕ) (tail : Bytes)
    → n < 256 ^ w
    → be_value acc (be_loop w n tail) ≡ be_value (acc * 256 ^ w + n) tail
unfolding be_loop be_value
be_value-be_loop zero n acc tail h = ap (λ a. be_value a tail) (omega arith)
be_value-be_loop (suc w) n acc tail h =
    be_value-be_loop w (n / 256) acc (n % 256 ∷ tail) (omega (arith, pow-suc 256 w))
    ∙ ap (λ a. be_value a tail) (omega (arith, ap (λ (t : ℕ). acc * t) (pow-suc 256 w)))

le_value-le : (w n : ℕ) → n < 256 ^ w → le_value (le w n) ≡ n
unfolding le le_value
le_value-le zero n h = omega arith
le_value-le (suc w) n h = omega (arith, le_value-le w (n / 256) (omega (arith, pow-suc 256 w)))

pub read_full-append : (s rest : Bytes) → read_full (length s) (s ++ rest) ≡ ok (s, rest)
unfolding read_full
read_full-append [] rest = refl
read_full-append (c ∷ s) rest = rw (read_full-append s rest)

read_full-append_of :
    (n : ℕ) (s rest : Bytes) → length s ≡ n → read_full n (s ++ rest) ≡ ok (s, rest)
read_full-append_of n s rest e = rw (← e) (read_full-append s rest)

-- What was written at a width that holds it is read back.
pub read_be-be : (w n : ℕ) (rest : Bytes) → n < 256 ^ w → read_be w (be w n ++ rest) ≡ ok (n, rest)
unfolding read_be be
read_be-be w n rest h =
    rw (read_full-append_of w (be w n) rest (length-be w n))
      (ap (λ (v : ℕ). ok (v, rest)) (be_value-be_loop w n 0 [] h ∙ omega arith))

pub read_le-le : (w n : ℕ) (rest : Bytes) → n < 256 ^ w → read_le w (le w n ++ rest) ≡ ok (n, rest)
unfolding read_le
read_le-le w n rest h =
    rw (read_full-append_of w (le w n) rest (length-le w n))
      (ap (λ (v : ℕ). ok (v, rest)) (le_value-le w n h))

-- An int64 survives its pattern.
pub bits_int64-int64_bits :
    (n : ℕ)
    → n < 2 ^ 63
    → (bits_int64 (int64_bits (pos n)) ≡ pos n) × (bits_int64 (int64_bits (negsuc n)) ≡ negsuc n)
bits_int64-int64_bits n h = (ground arith, ground arith)
