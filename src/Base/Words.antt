-- ===== src/Base/Words.antt =====
-- Byte strings: equality, and the memory image of a 64-bit word on a little-endian machine.
use Prim.Native.Nat.{ℕ, zero, suc, ◌+◌, ◌*◌, ◌/◌, ◌%◌, ◌^◌, ◌<◌}
use mathlib.Core.Path.{◌≡◌, refl, ap}
use mathlib.Core.Logic.{◌≢◌}
use mathlib.Core.Bool.{Bool, true, false, ◌&&◌}
use mathlib.Core.List.{List, [], ◌∷◌}
use native.Mathlib.Omega.{arith}
use native.Mathlib.Nat.{pow-suc}
use fusefs_block.Base.Tests.{◌==◌}
use fusefs_block.Base.Lists.{length}

abbrev pub Bytes : Type 0
Bytes = List ℕ

-- A NUL-terminated string, without its terminator.
abbrev pub CString : Type 0
CString = List ℕ

abbrev pub IsByte : ℕ → Type 0
IsByte b = b < 256

unfoldable pub bytes_eq : Bytes → Bytes → Bool
bytes_eq [] [] = true
bytes_eq [] (y ∷ ys) = false
bytes_eq (x ∷ xs) [] = false
bytes_eq (x ∷ xs) (y ∷ ys) = x == y && bytes_eq xs ys

pub bytes_eq_refl : (xs : Bytes) → bytes_eq xs xs ≡ true
unfolding bytes_eq
bytes_eq_refl [] = refl
bytes_eq_refl (x ∷ xs) = ground (arith, bytes_eq_refl xs)

pub bytes_eq→eq : (xs ys : Bytes) → bytes_eq xs ys ≡ true → xs ≡ ys
unfolding bytes_eq
bytes_eq→eq [] [] h = refl
bytes_eq→eq [] (y ∷ ys) h = cc
bytes_eq→eq (x ∷ xs) [] h = cc
bytes_eq→eq (x ∷ xs) (y ∷ ys) h = ground (arith, bytes_eq→eq xs ys)

pub ne→bytes_eq : (xs ys : Bytes) → xs ≢ ys → bytes_eq xs ys ≡ false
ne→bytes_eq xs ys h = ground (arith, bytes_eq→eq xs ys)

-- The `k` bytes of a number, lowest first, and the number that bytes stand for.
unfoldable pub word_bytes : ℕ → ℕ → Bytes
word_bytes zero n = []
word_bytes (suc k) n = n % 256 ∷ word_bytes k (n / 256)

unfoldable pub word_value : Bytes → ℕ
word_value [] = 0
word_value (b ∷ bs) = b + 256 * word_value bs

pub length-word_bytes : (k n : ℕ) → length (word_bytes k n) ≡ k
unfolding word_bytes
length-word_bytes zero n = refl
length-word_bytes (suc k) n = ap suc (length-word_bytes k (n / 256))

pub word_value-word_bytes : (k n : ℕ) → n < 256 ^ k → word_value (word_bytes k n) ≡ n
unfolding word_bytes word_value
word_value-word_bytes zero n h = omega arith
word_value-word_bytes (suc k) n h =
    omega (arith, word_value-word_bytes k (n / 256) (fits (rw pow-suc at h)))
  where
    fits : n < 256 ^ k * 256 → n / 256 < 256 ^ k
    fits g = omega arith
