-- ===== src/Tests/ManySession.antt =====
-- A session of callbacks of cfs/src/bbfs.c with a request of two blocks, on a system in memory.
use fusefs_block.Base.{
  ℕ, ◌%◌, ◌<◌, ◌≡◌, ◌≢◌, refl, sym, ap, ◌∙◌, true, none, inl, arith, pos, length, length-replicate,
  take, replicate,
}
use mathlib.Core.Path.{subst}
use fusefs_block.Posix.{ok, rd_wr, ◌>>=◌, ◌>>◌}
use fusefs_block.Posix.View.{View, overwrite, put_file_ne}
use fusefs_block.Posix.Runs.{Ends}
use fusefs_block.Posix.Memory.{memory_os, memory_os-IsPosix, next_fd}
use fusefs_block.Io.Held.{holding}
use fusefs_block.Io.Opened.{at_file}
use fusefs_block.Storage.{block_path}
use fusefs_block.Storage.Shared.{Keeps}
use fusefs_block.Cfs.Table.{initial_state}
use fusefs_block.Cfs.Invariant.{initial-IsTable}
use fusefs_block.Cfs.Image.{image_bytes, find_pair}
use fusefs_block.Fuse.{bb_fullpath, bb_mknod, regular, bb_open}
use fusefs_block.Fuse.Data.{bb_write, bb_read}
use fusefs_block.Fuse.Many.{Transfer, part, nth_path, nth_bytes, written, AreWritable}
use fusefs_block.Fuse.Many.Views.{Wrote}
use fusefs_block.Fuse.Many.Session.{new_transfer, session_blocks}
use fusefs_block.Tests.Whole.{whole_memory}
use fusefs_block.Tests.Blocks.{storage, long, small}
use fusefs_block.Tests.Session.{
  rootdir, path, full, full_same, memory, garbage, made, start, unknown,
}
use fusefs_block.Tests.Many.{by_length, two_blocks, hash_is, no_collision}

-- The blocks of `two_blocks`, to a new file.
abbrev transfer : Transfer
transfer = new_transfer by_length start (bb_fullpath rootdir path) (replicate 5000 7) 5000 6

same_names : (i : ℕ) → nth_path transfer i ≡ nth_path two_blocks i
unfolding initial_state
same_names i = refl

apart : (i : ℕ) → i < 2 → bb_fullpath rootdir path ≢ nth_path transfer i
unfolding initial_state
apart i lt =
    subst (λ p. p ≢ nth_path transfer i) (sym full_same)
      (λ e.
        long full (replicate 20 (part two_blocks i % 256)) (omega arith) refl
          (small (part two_blocks i % 256) 20 (omega arith))
          (e ∙ ap (block_path storage) (hash_is i lt)))

transfer-AreWritable : AreWritable transfer 2
unfolding initial_state find_pair
transfer-AreWritable = record {
  most = omega arith;
  tight = omega arith;
  within = omega (arith, length-replicate {A = ℕ} 5000 7);
  hash_lengths =
      λ i lt. ap length (hash_is i lt) ∙ length-replicate {A = ℕ} 20 (part two_blocks i % 256);
  apart = apart;
  absent = λ i lt. refl;
  no_collision = no_collision;
  indexes = omega arith;
  fits = omega arith;
  small = omega arith;
}

abbrev opened_view : View
opened_view = holding made 3 (bb_fullpath rootdir path) rd_wr 23

names_free : (i : ℕ) → i < 2 → Keeps opened_view (nth_path transfer i) (nth_bytes transfer i)
names_free i lt =
    inl (put_file_ne (bb_fullpath rootdir path) (nth_path transfer i) _ _ (apart i lt))

all_usable : (i : ℕ) → i < 2 → (memory_os-IsPosix none none).usable (nth_path transfer i) ≡ true
all_usable i lt = refl

session_blocks_example :
    (w : View) × Wrote transfer 2 transfer-AreWritable opened_view 3 w 2
    × (o : ℕ) × Ends
        (memory_os-IsPosix none none)
        2
        (bb_mknod (memory_os none none) 5000 garbage rootdir path regular 420 (ok 0) (ok 0)
          >> (bb_open (memory_os none none) 5000 garbage rootdir start path >>= λ opened.
              bb_write
                (memory_os none none)
                5000
                garbage
                by_length
                opened.state
                opened.fh
                (replicate 5000 7)
                5000
                24576
              >>= λ t.
                  bb_read
                    (memory_os none none)
                    5000
                    garbage
                    t.1
                    opened.fh
                    (replicate 5000 0)
                    5000
                    24576))
        memory
        (pos 8192, overwrite (replicate 5000 0) 0 (take 5000 (replicate 5000 7)))
        (at_file w 3 (bb_fullpath rootdir path) (image_bytes (written transfer 2)) o)
unfolding next_fd initial_state
session_blocks_example =
    session_blocks (memory_os-IsPosix none none) (whole_memory none) 2 5000 (omega arith) by_length
      garbage rootdir path start 420 (ok 0) (ok 0) (replicate 5000 7) (replicate 5000 0) 5000 6 2
      refl refl (initial-IsTable garbage (pos 1024) storage) (omega arith)
      (record { hash_length = refl; passed = refl }) (omega arith) (omega arith) memory
      transfer-AreWritable refl unknown all_usable names_free (omega arith)
