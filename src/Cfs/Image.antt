-- ===== src/Cfs/Image.antt =====
-- The contents of a CFS file, which cfs/src/cfs.c describes in its first comment: the magic
-- string, the size, the number of blocks, and the pairs of a block index and a hash.
use fusefs_block.Base.{
  ℕ, ◌+◌, ◌*◌, ◌≤◌, ◌≡◌, ◌≢◌, refl, sym, ap, ◌∙◌, Bool-cases, inl, inr, Option, none, some, arith,
  List, [], ◌∷◌, ◌++◌, All, ℤ, pos, ◌==ℤ◌, length, length-append, take, drop, take-append,
  drop-append, drop-drop, if◌then◌else◌, Bytes,
}
use mathlib.Core.List.{append_assoc, append-nil}
use fusefs_block.Posix.View.{overwrite}
use fusefs_block.Posix.Overwrite.{overwrite_middle}
use fusefs_block.Cfs.{magic, off_bytes}
use fusefs_block.Cfs.Pairs.{Pair, IsPair, pairs_bytes, search, length-off_bytes, after_pair}

pub record Image : Type 0 where
  pub size : ℤ
  pub pairs : List Pair

abbrev pub header_bytes : ℤ → ℕ → Bytes
header_bytes size n = (magic ++ (0 ∷ [])) ++ (off_bytes size ++ off_bytes (pos n))

unfoldable pub image_bytes : Image → Bytes
image_bytes image = header_bytes image.size (length image.pairs) ++ pairs_bytes image.pairs

-- The hash that belongs to an index.
unfoldable pub find_pair : ℤ → List Pair → Option Bytes
find_pair index [] = none
find_pair index (pair ∷ pairs) =
    if pair.index ==ℤ index then some pair.hash else find_pair index pairs

length-header_bytes : (size : ℤ) (n : ℕ) → length (header_bytes size n) ≡ 23
length-header_bytes size n = omega (
  arith,
  length-append (off_bytes size) (off_bytes (pos n)),
  length-off_bytes size,
  length-off_bytes (pos n),
)

pub length-pairs_bytes :
    (pairs : List Pair) → All IsPair pairs → length (pairs_bytes pairs) ≡ 28 * length pairs
unfolding pairs_bytes
length-pairs_bytes [] are = omega arith
length-pairs_bytes (pair ∷ pairs) (is, are) = omega (
  arith,
  length-append (off_bytes pair.index) (pair.hash ++ pairs_bytes pairs),
  length-append pair.hash (pairs_bytes pairs),
  length-off_bytes pair.index,
  is.hash_length,
  length-pairs_bytes pairs are,
)

pub length-image_bytes :
    (image : Image)
    → All IsPair image.pairs
    → length (image_bytes image) ≡ 23 + 28 * length image.pairs
unfolding image_bytes
length-image_bytes image are = omega (
  arith,
  length-append (header_bytes image.size (length image.pairs)) (pairs_bytes image.pairs),
  length-header_bytes image.size (length image.pairs),
  length-pairs_bytes image.pairs are,
)

-- The pairs stand behind the header.
pub drop-image_bytes : (image : Image) → drop 23 (image_bytes image) ≡ pairs_bytes image.pairs
unfolding image_bytes
drop-image_bytes image =
    drop-append 23 (header_bytes image.size (length image.pairs)) _
      (length-header_bytes image.size (length image.pairs))

pub pairs_bytes-append :
    (pairs : List Pair) (pair : Pair)
    → pairs_bytes (pairs ++ (pair ∷ [])) ≡ pairs_bytes pairs ++ (off_bytes pair.index ++ pair.hash)
unfolding pairs_bytes
pairs_bytes-append [] pair = ap (λ t. off_bytes pair.index ++ t) (append-nil pair.hash)
pairs_bytes-append (first ∷ pairs) pair =
    ap (λ t. off_bytes first.index ++ (first.hash ++ t)) (pairs_bytes-append pairs pair)
    ∙ ap (λ t. off_bytes first.index ++ t) (sym (append_assoc first.hash _ _))
    ∙ sym (append_assoc (off_bytes first.index) _ _)

-- Where an index is found, the search stops in front of its hash.
pub search_found :
    (index : ℤ) (pairs : List Pair) (o : ℕ) (c hash : Bytes)
    → find_pair index pairs ≡ some hash
    → All IsPair pairs
    → drop o c ≡ pairs_bytes pairs
    → (o' : ℕ) × (search index pairs o ≡ (pos 1, o'))
      × (take 20 (drop o' c) ≡ hash)
      × (o' + 20 ≤ o + 28 * length pairs)
      × (o ≤ o')
unfolding search find_pair pairs_bytes
search_found index [] o c hash h are rest = cc
search_found index (pair ∷ pairs) o c hash h (is, are) rest =
    elim (Bool-cases (pair.index ==ℤ index)) [
      | inl same ↦ (o + 8, rw same refl, hash_here (rw same at h), omega arith, omega arith)
      | inr other ↦
          let (o', e, t, le, ge) =
            search_found index pairs (o + 28) c hash (rw other at h) are
              (after_pair o c pair pairs is rest) in
          (o', rw other e, t, omega arith, omega arith)
    ]
  where
    inj : some pair.hash ≡ some hash → pair.hash ≡ hash
    inj e = cc

    hash_here : some pair.hash ≡ some hash → take 20 (drop (o + 8) c) ≡ hash
    hash_here e =
        ap (take 20) (
          sym (drop-drop 8 o c)
          ∙ ap (drop 8) rest
          ∙ drop-append 8 (off_bytes pair.index) _ (length-off_bytes pair.index))
        ∙ take-append 20 pair.hash _ is.hash_length
        ∙ inj e

pub search_absent :
    (index : ℤ) (pairs : List Pair) (o : ℕ)
    → find_pair index pairs ≡ none
    → search index pairs o ≡ (pos 0, o + 28 * length pairs)
unfolding search find_pair
search_absent index [] o h = ap (λ n. (pos 0, n)) (omega arith)
search_absent index (pair ∷ pairs) o h = elim (Bool-cases (pair.index ==ℤ index)) [
  | inl same ↦ absurd (some_ne (rw same at h))
  | inr other ↦
      rw other
        (search_absent index pairs (o + 28) (rw other at h) ∙ ap (λ n. (pos 0, n)) (omega arith))
]
  where
    some_ne : some pair.hash ≢ none
    some_ne e = cc

-- What is appended is found, and nothing else is found otherwise than before.
pub find_pair-append :
    (index : ℤ) (pairs : List Pair) (pair : Pair)
    → find_pair index (pairs ++ (pair ∷ [])) ≡ elim (find_pair index pairs) [
      | some hash ↦ some hash
      | none ↦ if pair.index ==ℤ index then some pair.hash else none
    ]
unfolding find_pair
find_pair-append index [] pair = refl
find_pair-append index (first ∷ pairs) pair = elim (Bool-cases (first.index ==ℤ index)) [
  | inl e ↦ rw e refl
  | inr e ↦ rw e (find_pair-append index pairs pair)
]

-- Writing the two numbers of the header.
pub overwrite_header :
    (size size' : ℤ) (n n' : ℕ) (back : Bytes)
    → overwrite (header_bytes size n ++ back) 7 (off_bytes size' ++ off_bytes (pos n'))
      ≡ header_bytes size' n' ++ back
overwrite_header size size' n n' back =
    overwrite_middle (magic ++ (0 ∷ [])) (off_bytes size ++ off_bytes (pos n)) back
      (off_bytes size' ++ off_bytes (pos n')) 7 refl
      (omega (
        arith,
        length-append (off_bytes size) (off_bytes (pos n)),
        length-append (off_bytes size') (off_bytes (pos n')),
        length-off_bytes size,
        length-off_bytes size',
        length-off_bytes (pos n),
        length-off_bytes (pos n'),
      ))
