-- ===== src/Tests/Many.antt =====
-- A request of two blocks of cfs/src/bbfs.c on a system in memory.
use fusefs_block.Base.{
  ℕ, zero, suc, true, sym, ◌+◌, ◌*◌, ◌%◌, ◌<◌, ◌≡◌, ◌≢◌, refl, ap, ◌∙◌, none, inl, arith, pos,
  length, length-take, length-replicate, take, replicate, Bytes,
}
use fusefs_block.Util.{calculate_hash}
use fusefs_block.Storage.{block_path, block_size}
use fusefs_block.Storage.Names.{block_path-eq_iff}
use fusefs_block.Storage.Shared.{Keeps}
use fusefs_block.Posix.{◌>>=◌}
use fusefs_block.Posix.Runs.{Ends}
use fusefs_block.Io.Opened.{at_file}
use fusefs_block.Cfs.Search.{Shows}
use fusefs_block.Posix.View.{View, overwrite, put_file_self, put_file_ne}
use fusefs_block.Posix.Memory.{memory_os, memory_os-IsPosix}
use fusefs_block.Cfs.Image.{image_bytes, find_pair}
use fusefs_block.Fuse.Data.{write_block, put_entry, bb_write, bb_read}
use fusefs_block.Fuse.Aligned.{length-whole_block}
use fusefs_block.Fuse.Many.{
  Transfer, part, nth_block, nth_hash, nth_path, nth_bytes, written, grown, AreWritable,
}
use fusefs_block.Fuse.Many.Views.{Wrote}
use fusefs_block.Fuse.Many.Contract.{bb_write_blocks, bb_read-bb_write_blocks}
use fusefs_block.Tests.Whole.{whole_memory}
use fusefs_block.Tests.Blocks.{
  path, storage, image, file, garbage, at_end, view, memory, file-Shows, view-IsOpened, long, small,
}
use fusefs_block.Tests.Write.{table, registered}

-- A hash that tells blocks of different lengths apart.
abbrev pub by_length : Bytes → Bytes
by_length bytes = replicate 20 (length bytes % 256)

-- 5000 bytes from the block 6 on, to the file of 9 bytes.
abbrev pub two_blocks : Transfer
two_blocks = record {
  sha1 = by_length;
  storage = storage;
  buf = replicate 5000 7;
  size = 5000;
  n = 6;
  p = path;
  k = 9;
  image = image;
}

pub hash_is : (i : ℕ) → i < 2 → nth_hash two_blocks i ≡ replicate 20 (part two_blocks i % 256)
unfolding calculate_hash write_block
hash_is i lt =
    ap (λ n. replicate 20 (n % 256))
      (omega (
        arith,
        length-take (part two_blocks i) (nth_block two_blocks i).buffer,
        length-whole_block (replicate 5000 7) (block_size * i) (part two_blocks i) (6 + i)
            (omega arith),
      ))

path_is :
    (i : ℕ)
    → i < 2
    → nth_path two_blocks i ≡ block_path storage (replicate 20 (part two_blocks i % 256))
path_is i lt = ap (block_path storage) (hash_is i lt)

apart : (i : ℕ) → i < 2 → path ≢ nth_path two_blocks i
apart i lt e =
    long path (replicate 20 (part two_blocks i % 256)) (omega arith) refl
      (small (part two_blocks i % 256) 20 (omega arith)) (e ∙ path_is i lt)

-- The second block is shorter, and so has another hash.
names_differ : nth_path two_blocks 0 ≢ nth_path two_blocks 1
names_differ e =
    let same : take 19 (replicate 20 0) ≡ take 19 (replicate {A = ℕ} 20 136) =
      (block_path-eq_iff storage (replicate 20 0) (replicate 20 136)
          (λ e. absurd (omega (arith, ap length e))) refl (small 0 20 (omega arith)) refl
          (small 136 20 (omega arith))).0
        (sym (path_is 0 (omega arith)) ∙ e ∙ path_is 1 (omega arith)) in
    absurd (cc)

pub no_collision :
    (i j : ℕ)
    → i < 2
    → j < 2
    → nth_path two_blocks i ≡ nth_path two_blocks j
    → nth_bytes two_blocks i ≡ nth_bytes two_blocks j
no_collision zero zero li lj e = refl
no_collision zero (suc zero) li lj e = absurd (names_differ e)
no_collision (suc zero) zero li lj e = absurd (names_differ (sym e))
no_collision (suc zero) (suc zero) li lj e = refl
no_collision (suc (suc i)) j li lj e = absurd (omega arith)
no_collision zero (suc (suc j)) li lj e = absurd (omega arith)
no_collision (suc zero) (suc (suc j)) li lj e = absurd (omega arith)

absent : (i : ℕ) → i < 2 → find_pair (pos (6 + i)) image.pairs ≡ none
unfolding find_pair
absent i lt = ground arith

hash_lengths : (i : ℕ) → i < 2 → length (nth_hash two_blocks i) ≡ 20
hash_lengths i lt = ap length (hash_is i lt) ∙ length-replicate {A = ℕ} 20 (part two_blocks i % 256)

two_blocks-AreWritable : AreWritable two_blocks 2
two_blocks-AreWritable = record {
  most = omega arith;
  tight = omega arith;
  within = omega (arith, length-replicate {A = ℕ} 5000 7);
  hash_lengths = hash_lengths;
  apart = apart;
  absent = absent;
  no_collision = no_collision;
  indexes = omega arith;
  fits = omega arith;
  small = omega arith;
}

names_free : (i : ℕ) → i < 2 → Keeps view (nth_path two_blocks i) (nth_bytes two_blocks i)
names_free i lt = inl (put_file_ne path (nth_path two_blocks i) _ _ (apart i lt))

all_usable : (i : ℕ) → i < 2 → (memory_os-IsPosix none none).usable (nth_path two_blocks i) ≡ true
all_usable i lt = refl

bb_write_blocks_example :
    (w : View) × Wrote two_blocks 2 two_blocks-AreWritable view 3 w 2
    × Ends
        (memory_os-IsPosix none none)
        2
        (bb_write
          (memory_os none none)
          5000
          garbage
          by_length
          table
          (pos 3)
          (replicate 5000 7)
          5000
          24576)
        memory
        (pos 5000, put_entry table (pos 3) (grown two_blocks file 2))
        w
    × Shows (grown two_blocks file 2) 3 (written two_blocks 2)
    × ((grown two_blocks file 2).size ≡ pos 5009)
bb_write_blocks_example =
    bb_write_blocks (memory_os-IsPosix none none) (whole_memory none) 2 5000 (omega arith) garbage
      two_blocks 2 two_blocks-AreWritable table file 3 at_end registered file-Shows refl
      (omega arith) refl all_usable (omega arith) memory view-IsOpened (put_file_self _ _ _)
      names_free (omega arith)

bb_read-bb_write_blocks_example :
    (w : View) × Wrote two_blocks 2 two_blocks-AreWritable view 3 w 2
    × (o : ℕ) × Ends
        (memory_os-IsPosix none none)
        2
        (bb_write
            (memory_os none none)
            5000
            garbage
            by_length
            table
            (pos 3)
            (replicate 5000 7)
            5000
            24576
          >>= λ t.
              bb_read (memory_os none none) 5000 garbage t.1 (pos 3) (replicate 5000 0) 5000 24576)
        memory
        (pos 8192, overwrite (replicate 5000 0) 0 (take 5000 (replicate 5000 7)))
        (at_file w 3 path (image_bytes (written two_blocks 2)) o)
bb_read-bb_write_blocks_example =
    bb_read-bb_write_blocks (memory_os-IsPosix none none) (whole_memory none) 2 5000 (omega arith)
      garbage two_blocks 2 two_blocks-AreWritable table file 3 at_end registered file-Shows refl
      (omega arith) refl all_usable (omega arith) memory (replicate 5000 0) view-IsOpened
      (put_file_self _ _ _) names_free (record { hash_length = refl; passed = refl }) (omega arith)
