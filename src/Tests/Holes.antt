-- ===== src/Tests/Holes.antt =====
-- `bb_read` of cfs/src/bbfs.c behind the blocks of a file, on a system in memory.
use fusefs_block.Base.{ℕ, ◌≤◌, ◌≡◌, refl, none, arith, [], ◌∷◌, pos, replicate}
use fusefs_block.Posix.View.{overwrite, put_file_self}
use fusefs_block.Posix.Runs.{Ends}
use fusefs_block.Posix.Memory.{memory_os, memory_os-IsPosix}
use fusefs_block.Io.Opened.{at_file}
use fusefs_block.Cfs.Image.{image_bytes, find_pair}
use fusefs_block.Fuse.Data.{bb_read}
use fusefs_block.Fuse.Holes.{bb_read_hole}
use fusefs_block.Tests.Whole.{whole_memory}
use fusefs_block.Tests.Blocks.{
  path, image, file, garbage, at_end, view, memory, file-Shows, view-IsOpened,
}
use fusefs_block.Tests.Write.{table, registered}

-- The pair of the file has the index 5.
absent : (j : ℕ) → 6 ≤ j → find_pair (pos j) image.pairs ≡ none
unfolding find_pair
absent j h = ground arith

-- Two blocks are touched, and 5000 zeros are read.
bb_read_hole_example :
    (o : ℕ) × Ends
      (memory_os-IsPosix none none)
      2
      (bb_read (memory_os none none) 5000 garbage table (pos 3) (9 ∷ []) 5000 24576)
      memory
      (pos 8192, overwrite (9 ∷ []) 0 (replicate 5000 0))
      (at_file view 3 path (image_bytes image) o)
bb_read_hole_example =
    bb_read_hole (memory_os-IsPosix none none) (whole_memory none) {signals = 2} 5000 (omega arith)
      view 3 path at_end view-IsOpened garbage table file image file-Shows (omega arith) memory
      (9 ∷ []) 5000 6 2 registered refl (put_file_self _ _ _) absent (omega arith) (omega arith)
      (omega arith) (omega arith) (omega arith)
