-- ===== src/Fuse/Many.antt =====
-- The blocks of a request of cfs/src/bbfs.c that begins at the start of a block: their contents,
-- their names in the store, and the file after some of them are written.
pub mod Views
pub mod Write
pub mod Read
pub mod Contract
pub mod Session
use fusefs_block.Base.{
  ℕ, zero, suc, ◌+◌, ◌-◌, ◌*◌, ◌^◌, ◌≤◌, ◌<◌, ◌≡◌, ◌≢◌, refl, ap, ◌∙◌, none, some, arith, [], ◌∷◌,
  pos, ℤ, of_word, ◌==ℤ◌, false, Option, if◌then◌else◌, to_size-pos, length, length-append, take,
  min, Bytes, CString,
}
use mathlib.Core.Path.{subst}
use native.Mathlib.Decide.{dec_lt}
use fusefs_block.Storage.{BlkStore, block_path, block_size}
use fusefs_block.Cfs.{CfsFile, CfsBlock}
use fusefs_block.Cfs.Pairs.{IsPair}
use fusefs_block.Cfs.Image.{Image, find_pair, find_pair-append}
use fusefs_block.Cfs.Search.{Shows}
use fusefs_block.Cfs.Append.{grown_file, with_pair}
use fusefs_block.Cfs.Contract.{
  hash_of, IsWritable, grown_size, grown_file-Shows, find_pair-with_pair,
}
use fusefs_block.Fuse.Data.{write_block}
use fusefs_block.Fuse.Aligned.{whole_block, length-whole_block}

-- A request of `size` bytes of `buf` from the block `n` on, to a file at `p` that has `k` bytes.
pub record Transfer : Type 0 where
  pub sha1 : Bytes → Bytes
  pub storage : BlkStore
  pub buf : Bytes
  pub size : ℕ
  pub n : ℕ
  pub p : CString
  pub k : ℕ
  pub image : Image

module _ (r : Transfer) where
  -- The bytes in front of block `i`, and those in it.
  abbrev pub done : ℕ → ℕ
  done i = min r.size (block_size * i)

  abbrev pub part : ℕ → ℕ
  part i = min block_size (r.size - block_size * i)

  abbrev pub nth_block : ℕ → CfsBlock
  nth_block i = whole_block r.buf (block_size * i) (part i) (r.n + i)

  abbrev pub nth_hash : ℕ → Bytes
  nth_hash i = hash_of r.sha1 (nth_block i)

  abbrev pub nth_path : ℕ → CString
  nth_path i = block_path r.storage (nth_hash i)

  abbrev pub nth_bytes : ℕ → Bytes
  nth_bytes i = take (part i) (nth_block i).buffer

  -- The file and its entry in the table after `i` blocks are written.
  unfoldable pub written : ℕ → Image
  written zero = r.image
  written (suc i) = with_pair (written i) (pos (r.k + done (suc i))) (pos (r.n + i)) (nth_hash i)

  unfoldable pub grown : CfsFile → ℕ → CfsFile
  grown file zero = file
  grown file (suc i) = grown_file (grown file i) (part i)

-- The `m` blocks of a request can be written: they are not in the file, their names differ from
-- that of the file, blocks with the same name have the same bytes, and all sizes fit.
pub record AreWritable (r : Transfer) (m : ℕ) : Type 0 where
  pub most : r.size ≤ block_size * m
  pub tight : block_size * m < r.size + block_size
  pub within : r.size ≤ length r.buf
  pub hash_lengths : (i : ℕ) → i < m → length (nth_hash r i) ≡ 20
  pub apart : (i : ℕ) → i < m → r.p ≢ nth_path r i
  pub absent : (i : ℕ) → i < m → find_pair (pos (r.n + i)) r.image.pairs ≡ none
  pub no_collision :
      (i j : ℕ) → i < m → j < m → nth_path r i ≡ nth_path r j → nth_bytes r i ≡ nth_bytes r j
  pub indexes : r.n + m < 2 ^ 63
  pub fits : r.k + r.size < 2 ^ 63
  pub small : 23 + 28 * (length r.image.pairs + m + 2) < 2 ^ 31

pub length-written : (r : Transfer) (i : ℕ) → length (written r i).pairs ≡ length r.image.pairs + i
unfolding written
length-written r zero = omega arith
length-written r (suc i) = omega (
  arith,
  length-append (written r i).pairs (record { index = pos (r.n + i); hash = nth_hash r i } ∷ []),
  length-written r i,
)

-- A pair with another index does not matter.
find_pair-with_pair_ne :
    (image : Image) (size : ℤ) (a b : ℕ) (hash : Bytes)
    → a ≢ b
    → find_pair (pos b) (with_pair image size (pos a) hash).pairs ≡ find_pair (pos b) image.pairs
find_pair-with_pair_ne image size a b hash ne =
    find_pair-append (pos b) image.pairs _ ∙ unchanged (find_pair (pos b) image.pairs)
  where
    differ : (pos a ==ℤ pos b) ≡ false
    differ = ground arith

    unchanged :
        (found : Option Bytes)
        → elim found [ some old ↦ some old | none ↦ if pos a ==ℤ pos b then some hash else none ]
          ≡ found
    unchanged (some old) = refl
    unchanged none = rw differ refl

-- Blocks that are still to come are not in the file.
pub find_unwritten :
    (r : Transfer) (m : ℕ)
    → AreWritable r m
    → (i j : ℕ) → i ≤ j
    → j < m
    → find_pair (pos (r.n + j)) (written r i).pairs ≡ none
unfolding written
find_unwritten r m are zero j le lt = are.absent j lt
find_unwritten r m are (suc i) j le lt =
    find_pair-with_pair_ne (written r i) (pos (r.k + done r (suc i))) (r.n + i) (r.n + j)
      (nth_hash r i) (omega arith)
    ∙ find_unwritten r m are i j (omega arith) lt

-- A block is found where it was written.
pub find_written :
    (r : Transfer) (m : ℕ)
    → AreWritable r m
    → (i j : ℕ) → i ≤ m
    → j < i
    → find_pair (pos (r.n + j)) (written r i).pairs ≡ some (nth_hash r j)
unfolding written
find_written r m are zero j le lt = absurd (omega arith)
find_written r m are (suc i) j le lt = elim (dec_lt j i) [
  | yes before ↦
      find_pair-with_pair_ne (written r i) (pos (r.k + done r (suc i))) (r.n + i) (r.n + j)
        (nth_hash r i) (omega arith)
      ∙ find_written r m are i j (omega arith) before
  | no last ↦
      let same : j ≡ i = omega arith in
      rw same (
        find_pair-with_pair (written r i) (pos (r.k + done r (suc i))) (pos (r.n + i))
          (nth_hash r i) (find_unwritten r m are i i (omega arith) (omega arith)))
]

of_word-small : (n : ℕ) → n < 2 ^ 63 → of_word 64 n ≡ pos n
of_word-small n h = ground arith

-- The pair of a block fits its place in the file.
nth-IsPair :
    (r : Transfer) (m : ℕ)
    → AreWritable r m
    → (i : ℕ) → i < m
    → IsPair (record { index = pos (r.n + i); hash = nth_hash r i })
nth-IsPair r m are i lt = record {
  hash_length = are.hash_lengths i lt;
  index_fits =
      ap (of_word 64) (to_size-pos (r.n + i) (omega (arith, are.indexes)))
      ∙ of_word-small (r.n + i) (omega (arith, are.indexes));
  word_fits = omega (arith, are.indexes, to_size-pos (r.n + i) (omega (arith, are.indexes)));
}

-- Each block is one that can be written.
pub nth-IsWritable :
    (r : Transfer) (m : ℕ)
    → AreWritable r m
    → (i : ℕ) → i < m
    → IsWritable r.storage (nth_block r i) (nth_hash r i) r.p (r.k + done r i) (written r i)
unfolding write_block
nth-IsWritable r m are i lt = record {
  some_bytes = omega (arith, are.tight);
  at_most = omega arith;
  within =
      omega (arith, length-whole_block r.buf (block_size * i) (part r i) (r.n + i) (omega arith));
  pair = nth-IsPair r m are i lt;
  apart = are.apart i lt;
  fits = omega (arith, are.fits);
  small = omega (arith, are.small, length-written r i);
}

-- The entry of the table shows the file after each block.
pub grown-Shows :
    (r : Transfer) (m : ℕ)
    → AreWritable r m
    → (file : CfsFile) (fd : ℕ) → Shows file fd r.image
    → file.size ≡ pos r.k
    → (i : ℕ) → i ≤ m
    → Shows (grown r file i) fd (written r i) × ((grown r file i).size ≡ pos (r.k + done r i))
unfolding grown written
grown-Shows r m are file fd shows size zero le =
    (shows, size ∙ ap pos (let e : r.k ≡ r.k + done r 0 = omega arith in e))
grown-Shows r m are file fd shows size (suc i) le =
    let (shows', size') = grown-Shows r m are file fd shows size i (omega arith) in
    let total : r.k + done r i + part r i ≡ r.k + done r (suc i) = omega arith in
    let fits : r.k + done r i + part r i < 2 ^ 63 = omega (arith, are.fits) in
    (
      subst
          (λ n.
            Shows (grown_file (grown r file i) (part r i)) fd
              (with_pair (written r i) (pos n) (pos (r.n + i)) (nth_hash r i)))
          total
          (grown_file-Shows (grown r file i) fd (written r i) (r.k + done r i) (part r i)
            (pos (r.n + i)) (nth_hash r i) shows' size' fits (nth-IsPair r m are i (omega arith))
            (omega (arith, are.small, length-written r i))),
      grown_size (grown r file i) (r.k + done r i) (part r i) size' fits ∙ ap pos total,
    )
