-- ===== src/Posix/Overwrite.antt =====
-- The contents of a file after writes at offsets.

use mathlib.Core.List.{append-nil}
use fusefs_block.Base.{
  ℕ, zero, suc, ◌+◌, ◌≡◌, refl, sym, ap, ◌∙◌, [], ◌∷◌, ◌++◌, arith, length, take, drop, Bytes,
}
use fusefs_block.Posix.View.{overwrite}

-- A write at the end appends.
pub overwrite_end :
    (c : Bytes) (off : ℕ) (bs : Bytes) → off ≡ length c → overwrite c off bs ≡ c ++ bs
unfolding overwrite
overwrite_end [] off [] e = refl
overwrite_end (x ∷ c) off [] e = rw append-nil
overwrite_end [] zero (b ∷ bs) e = refl
overwrite_end [] (suc off) (b ∷ bs) e = absurd (omega arith)
overwrite_end (x ∷ c) zero (b ∷ bs) e = absurd (omega arith)
overwrite_end (x ∷ c) (suc off) (b ∷ bs) e =
    ap (λ t. x ∷ t) (overwrite_end c off (b ∷ bs) (omega arith))

pub overwrite-nil : (c : Bytes) (off : ℕ) → overwrite c off [] ≡ c
unfolding overwrite
overwrite-nil c off = refl

-- Two writes next to one another are one.
pub overwrite-overwrite :
    (c : Bytes) (off : ℕ) (xs ys : Bytes) (m : ℕ)
    → m ≡ off + length xs
    → overwrite (overwrite c off xs) m ys ≡ overwrite c off (xs ++ ys)
unfolding overwrite
overwrite-overwrite c off [] ys m e = let e' : m ≡ off = omega arith in rw e'
overwrite-overwrite c off (x ∷ xs) [] m e =
    overwrite-nil _ m ∙ ap (λ t. overwrite c off (x ∷ t)) (sym (append-nil xs))
overwrite-overwrite c zero (x ∷ xs) (y ∷ ys) zero e = absurd (omega arith)
overwrite-overwrite c (suc off) (x ∷ xs) (y ∷ ys) zero e = absurd (omega arith)
overwrite-overwrite [] zero (x ∷ xs) (y ∷ ys) (suc m) e =
    ap (λ t. x ∷ t) (overwrite_end xs m (y ∷ ys) (omega arith))
overwrite-overwrite (z ∷ c) zero (x ∷ xs) (y ∷ ys) (suc m) e =
    ap (λ t. x ∷ t) (overwrite-overwrite c zero xs (y ∷ ys) m (omega arith))
overwrite-overwrite [] (suc off) (x ∷ xs) (y ∷ ys) (suc m) e =
    ap (λ t. 0 ∷ t) (overwrite-overwrite [] off (x ∷ xs) (y ∷ ys) m (omega arith))
overwrite-overwrite (z ∷ c) (suc off) (x ∷ xs) (y ∷ ys) (suc m) e =
    ap (λ t. z ∷ t) (overwrite-overwrite c off (x ∷ xs) (y ∷ ys) m (omega arith))

-- A write of `ys` over the bytes `old` between `front` and `back`.
pub overwrite_middle :
    (front old back ys : Bytes) (off : ℕ)
    → off ≡ length front
    → length ys ≡ length old
    → overwrite (front ++ (old ++ back)) off ys ≡ front ++ (ys ++ back)
unfolding overwrite
overwrite_middle [] [] back [] off e h = refl
overwrite_middle [] (x ∷ old) back [] off e h = absurd (omega arith)
overwrite_middle [] [] back (y ∷ ys) off e h = absurd (omega arith)
overwrite_middle [] (x ∷ old) back (y ∷ ys) zero e h =
    ap (λ t. y ∷ t) (overwrite_middle [] old back ys zero refl (omega arith))
overwrite_middle [] (x ∷ old) back (y ∷ ys) (suc off) e h = absurd (omega arith)
overwrite_middle (z ∷ front) [] back [] off e h = refl
overwrite_middle (z ∷ front) (x ∷ old) back [] off e h = absurd (omega arith)
overwrite_middle (z ∷ front) old back (y ∷ ys) zero e h = absurd (omega arith)
overwrite_middle (z ∷ front) old back (y ∷ ys) (suc off) e h =
    ap (λ t. z ∷ t) (overwrite_middle front old back (y ∷ ys) off (omega arith) h)

overwrite-cons :
    (x : ℕ) (c : Bytes) (off : ℕ) (bs : Bytes)
    → overwrite (x ∷ c) (suc off) bs ≡ x ∷ overwrite c off bs
unfolding overwrite
overwrite-cons x c off [] = refl
overwrite-cons x c off (b ∷ bs) = refl

-- Writing what is there changes nothing.
pub overwrite_same : (c : Bytes) (off n : ℕ) → overwrite c off (take n (drop off c)) ≡ c
unfolding overwrite
overwrite_same [] zero zero = refl
overwrite_same [] zero (suc n) = refl
overwrite_same [] (suc off) zero = refl
overwrite_same [] (suc off) (suc n) = refl
overwrite_same (x ∷ c) zero zero = refl
overwrite_same (x ∷ c) zero (suc n) = ap (λ t. x ∷ t) (overwrite_same c zero n)
overwrite_same (x ∷ c) (suc off) n =
    overwrite-cons x c off (take n (drop off c)) ∙ ap (λ t. x ∷ t) (overwrite_same c off n)

-- A write at the start.
pub overwrite_start : (c bs : Bytes) → overwrite c 0 bs ≡ bs ++ drop (length bs) c
unfolding overwrite
overwrite_start c [] = refl
overwrite_start [] (b ∷ bs) = ap (λ t. b ∷ t) (sym (append-nil bs))
overwrite_start (x ∷ c) (b ∷ bs) = ap (λ t. b ∷ t) (overwrite_start c bs)
