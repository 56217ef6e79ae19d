-- ===== src/Tests/Inside.antt =====
-- `bb_write` of cfs/src/bbfs.c inside a block, on a system in memory.
use fusefs_block.Base.{ℕ, refl, none, inl, [], ◌∷◌, arith, pos, take, replicate, Bytes}
use fusefs_block.Posix.{◌>>=◌}
use fusefs_block.Posix.View.{overwrite, put_file_self, put_file_ne}
use fusefs_block.Posix.Runs.{Ends}
use fusefs_block.Posix.Memory.{memory_os, memory_os-IsPosix}
use fusefs_block.Io.Opened.{at_file}
use fusefs_block.Util.{calculate_hash}
use fusefs_block.Storage.{block_path}
use fusefs_block.Storage.Shared.{Keeps, after_store}
use fusefs_block.Cfs.Image.{image_bytes}
use fusefs_block.Cfs.Append.{with_pair}
use fusefs_block.Cfs.Contract.{hash_of, IsWritable}
use fusefs_block.Fuse.Data.{write_block, bb_write, bb_read}
use fusefs_block.Fuse.Inside.{inside_block, length-inside_block}
use fusefs_block.Fuse.Inside.Contract.{bb_read-bb_write_inside}
use fusefs_block.Tests.Whole.{whole_memory}
use fusefs_block.Tests.Blocks.{
  path, storage, image, file, garbage, sha1, at_end, view, memory, file-Shows, new_path, apart,
  view-IsOpened, new-IsPair, absent,
}
use fusefs_block.Tests.Write.{table, registered}

-- Two bytes behind the first three of a block.
abbrev text : Bytes
text = 65 ∷ 66 ∷ []

inside-IsWritable :
    IsWritable storage
      (inside_block text 3 2 2)
      (hash_of sha1 (inside_block text 3 2 2))
      path
      9
      image
unfolding calculate_hash write_block
inside-IsWritable = record {
  some_bytes = omega arith;
  at_most = omega arith;
  within = omega (arith, length-inside_block text 3 2 2 (omega arith) (omega arith));
  pair = new-IsPair;
  apart = apart;
  fits = omega arith;
  small = omega arith;
}

inside_name :
    Keeps view
      (block_path storage (hash_of sha1 (inside_block text 3 2 2)))
      (take 5 (inside_block text 3 2 2).buffer)
unfolding calculate_hash
inside_name = inl (put_file_ne path new_path _ _ apart)

bb_read-bb_write_inside_example :
    (o : ℕ) × Ends
      (memory_os-IsPosix none none)
      2
      (bb_write (memory_os none none) 5000 garbage sha1 table (pos 3) text 2 8195 >>= λ r.
        bb_read (memory_os none none) 5000 garbage r.1 (pos 3) (replicate 5 9) 5 8192)
      memory
      (pos 4096, overwrite (replicate 5 9) 0 (0 ∷ 0 ∷ 0 ∷ text))
      (at_file
        (after_store view
          (block_path storage (hash_of sha1 (inside_block text 3 2 2)))
          (take 5 (inside_block text 3 2 2).buffer)
          inside_name)
        3
        path
        (image_bytes (with_pair image (pos 14) (pos 2) (hash_of sha1 (inside_block text 3 2 2))))
        o)
bb_read-bb_write_inside_example =
    bb_read-bb_write_inside (memory_os-IsPosix none none) (whole_memory none) 2 5000 (omega arith)
      sha1 garbage table file image 9 3 path at_end text 3 2 2 registered file-Shows (omega arith)
      refl refl inside-IsWritable absent (omega arith) (omega arith) (omega arith) memory
      (replicate 5 9) (omega arith) view-IsOpened (put_file_self _ _ _) inside_name
      (record { hash_length = refl; passed = refl }) (omega arith)
