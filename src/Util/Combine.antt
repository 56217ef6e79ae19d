-- ===== src/Util/Combine.antt =====
-- What `combine` of cfs/src/util.c makes of two paths.
use mathlib.Core.List.{append_assoc}
use fusefs_block.Base.{
  ℕ, suc, ◌+◌, ◌-◌, ◌≤◌, ◌≡◌, refl, ap, ◌∙◌, ◌≢◌, true, false, Option, some, [], ◌∷◌, ◌++◌, arith,
  ◌==◌, if◌then◌else◌, Bool-cases, inl, inr, length, length-append, CString,
}
use fusefs_block.Util.{
  dir_separator, text, ends_with_separator, starts_with_separator, skip_char, combine_text, combine,
}

-- The path without one separator at its end, and without one at its start.
unfoldable pub without_trailing : CString → CString
without_trailing [] = []
without_trailing (c ∷ []) = if c == dir_separator then [] else c ∷ []
without_trailing (c ∷ d ∷ s) = c ∷ without_trailing (d ∷ s)

unfoldable pub without_leading : CString → CString
without_leading [] = []
without_leading (c ∷ s) = if c == dir_separator then s else c ∷ s

ends_cons : (c d : ℕ) (s : CString) → ends_with_separator (c ∷ d ∷ s) ≡ ends_with_separator (d ∷ s)
unfolding ends_with_separator
ends_cons c d s =
    let e : suc (suc (length s)) - 1 ≡ suc (suc (length s) - 1) = omega arith in
    rw (e, ends_with_separator)

-- A last separator is what `without_trailing` takes away.
trailing_split :
    (c : ℕ) (s : CString)
    → ends_with_separator (c ∷ s) ≡ true
    → (c ∷ s) ≡ without_trailing (c ∷ s) ++ (dir_separator ∷ [])
unfolding without_trailing
trailing_split c [] h = unfold ends_with_separator in ground arith
trailing_split c (d ∷ s) h = ap (λ t. c ∷ t) (trailing_split d s (rw ends_cons at h))

trailing_none :
    (c : ℕ) (s : CString) → ends_with_separator (c ∷ s) ≡ false → without_trailing (c ∷ s) ≡ c ∷ s
unfolding without_trailing
trailing_none c [] h = unfold ends_with_separator in ground arith
trailing_none c (d ∷ s) h = ap (λ t. c ∷ t) (trailing_none d s (rw ends_cons at h))

-- Two paths that are not empty are joined by exactly one separator, whether the first
-- ends in one, the second begins with one, both or neither.
pub combine_joint :
    (p q : CString)
    → p ≢ []
    → q ≢ []
    → combine (some p) (some q) ≡ without_trailing p ++ (dir_separator ∷ without_leading q)
combine_joint [] q h g = absurd (h refl)
combine_joint (c ∷ p) [] h g = absurd (g refl)
combine_joint (c ∷ p) (d ∷ q) h g = elim (Bool-cases (ends_with_separator (c ∷ p))) [
  | inl e ↦
      unfold combine without_leading skip_char in
      rw e (
        ap (λ t. t ++ without_leading (d ∷ q)) (trailing_split c p e)
        ∙ append_assoc (without_trailing (c ∷ p)) (dir_separator ∷ []) _)
  | inr e ↦
      unfold combine without_leading starts_with_separator in
      rw (trailing_none c p e, e) (ground arith)
]

-- The joined path is at most one byte longer than its parts.
pub length-combine :
    (p q : Option CString) → length (combine p q) ≤ length (text p) + length (text q) + 1
unfolding combine combine_text starts_with_separator skip_char
length-combine p q = go (text p) (text q)
  where
    go : (p q : CString) → length (combine_text p q) ≤ length p + length q + 1
    go [] q = omega arith
    go (c ∷ p) [] = omega arith
    go (c ∷ p) (d ∷ q) =
        ground (
          arith,
          length-append p q,
          length-append p (d ∷ q),
          length-append p (dir_separator ∷ d ∷ q),
        )
