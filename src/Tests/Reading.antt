-- ===== src/Tests/Reading.antt =====
-- `bb_read` of cfs/src/bbfs.c over a hole and a stored block, on a system in memory.
use fusefs_block.Base.{
  ℕ, suc, sym, ◌∙◌, ◌≤◌, ◌<◌, ◌≡◌, refl, some, none, [], ◌∷◌, ◌++◌, ◌==◌, if◌then◌else◌, arith, pos,
  replicate,
}
use mathlib.Core.Path.{subst}
use native.Mathlib.Decide.{dec_lt}
use fusefs_block.Posix.View.{overwrite, put_file_self, put_file_ne}
use fusefs_block.Posix.Runs.{Ends}
use fusefs_block.Posix.Memory.{memory_os, memory_os-IsPosix}
use fusefs_block.Io.Opened.{at_file}
use fusefs_block.Cfs.Image.{image_bytes, find_pair}
use fusefs_block.Fuse.Data.{bb_read}
use fusefs_block.Fuse.Reading.{Contents, contents_text, IsStored, IsBlock, IsFull}
use fusefs_block.Fuse.Reading.Contract.{bb_read_lem}
use fusefs_block.Tests.Whole.{whole_memory}
use fusefs_block.Tests.Blocks.{
  path, storage, old_hash, image, file, garbage, at_end, file-Shows, old_path, apart_old,
}
use fusefs_block.Tests.Present.{known_view, known-IsOpened, present}
use fusefs_block.Tests.Write.{table, registered}

-- Only block 5 is there, with one byte.
abbrev one_block : Contents
one_block n = if n == 5 then some (90 ∷ []) else none

old-IsStored : IsStored (memory_os-IsPosix none none) known_view storage path image 5 (90 ∷ [])
old-IsStored = record {
  hash = old_hash;
  refs = 1;
  found = present;
  hash_length = refl;
  usable = refl;
  apart = apart_old;
  known = put_file_self old_path _ _;
  some_bytes = omega arith;
  fits = omega arith;
}

one_block-IsBlock :
    (j : ℕ)
    → 4 ≤ j
    → j < 6
    → IsBlock (memory_os-IsPosix none none) known_view storage path image j (one_block j)
unfolding find_pair
one_block-IsBlock j le lt = elim (dec_lt j 5) [
  | yes before ↦
      subst
        (λ i. IsBlock (memory_os-IsPosix none none) known_view storage path image i (one_block i))
        (let e : 4 ≡ j = omega arith in e) refl
  | no last ↦
      subst
        (λ i. IsBlock (memory_os-IsPosix none none) known_view storage path image i (one_block i))
        (let e : 5 ≡ j = omega arith in e) old-IsStored
]

one_block-IsFull : (j : ℕ) → 4 ≤ j → suc j < 6 → IsFull (one_block j)
one_block-IsFull j le lt = subst (λ i. IsFull (one_block i)) (let e : 4 ≡ j = omega arith in e) tt

contents_text_is : contents_text one_block 2 4 4097 ≡ replicate 4096 0 ++ (90 ∷ [])
unfolding contents_text
contents_text_is = refl

bb_read_lem_example :
    (o : ℕ) × Ends
      (memory_os-IsPosix none none)
      2
      (bb_read (memory_os none none) 5000 garbage table (pos 3) (9 ∷ []) 4097 16384)
      (record { shown = known_view; signals = 2 })
      (pos 8192, overwrite (9 ∷ []) 0 (contents_text one_block 2 4 4097))
      (at_file known_view 3 path (image_bytes image) o)
bb_read_lem_example =
    bb_read_lem (memory_os-IsPosix none none) (whole_memory none) {signals = 2} 5000 (omega arith)
      known_view 3 path at_end known-IsOpened garbage table file image file-Shows (omega arith)
      (record { hash_length = refl; passed = refl }) (record { shown = known_view; signals = 2 })
      (9 ∷ []) one_block 4097 4 2 registered refl
      (put_file_ne old_path path _ _ (λ e. apart_old (sym e)) ∙ put_file_self _ _ _)
      one_block-IsBlock one_block-IsFull (omega arith) (omega arith) (omega arith) (omega arith)
      (omega arith)
