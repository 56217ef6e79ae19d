-- ===== src/Fuse/Aligned.antt =====
-- `bb_write` and `bb_read` of cfs/src/bbfs.c within one block.
use fusefs_block.Base.{
  ℕ, suc, ◌+◌, ◌-◌, ◌/◌, ◌%◌, ◌≤◌, ◌<◌, ◌≡◌, ap, ◌∙◌, arith, ◌++◌, ℤ, pos, to_int, lt→ltb, le→ltb,
  length, length-take, length-drop, length-append, length-replicate, take, take-append, drop,
  replicate, min, Bytes,
}
use fusefs_block.Posix.{Posix}
use fusefs_block.Posix.View.{View, overwrite}
use fusefs_block.Posix.Overwrite.{overwrite_start}
use fusefs_block.Posix.Laws.{IsPosix}
use fusefs_block.Posix.Runs.{Runs, Runs-pure, Runs-bind}
use fusefs_block.Storage.{block_size}
use fusefs_block.Cfs.{CfsFile, CfsBlock, CfsState, Garbage, overlay}
use fusefs_block.Cfs.Blocks.{cfs_file_register_block, cfs_file_read_block}
use fusefs_block.Cfs.Load.{filled}
use fusefs_block.Fuse.Data.{zero_block, write_block, write_loop, read_loop}

-- The block that `bb_write` makes of `size` bytes of a buffer, from `index` on.
abbrev pub whole_block : Bytes → ℕ → ℕ → ℕ → CfsBlock
whole_block buf index size n = write_block zero_block buf index 0 size n

-- It has the length of a block.
pub length-whole_block :
    (buf : Bytes) (index size n : ℕ)
    → size ≤ block_size
    → length (whole_block buf index size n).buffer ≡ block_size
unfolding write_block zero_block
length-whole_block buf index size n h =
    ap length (overwrite_start (replicate block_size 0) (take (size - 0) (drop index buf)))
    ∙ omega (
      arith,
      length-append (take (size - 0) (drop index buf))
          (drop (length (take (size - 0) (drop index buf))) (replicate block_size 0)),
      length-drop {A = ℕ} (length (take (size - 0) (drop index buf))) (replicate block_size 0),
      length-replicate {A = ℕ} block_size 0,
      length-take (size - 0) (drop index buf),
    )

-- It begins with these bytes.
pub take-whole_block :
    (buf : Bytes) (index size n : ℕ)
    → index + size ≤ length buf
    → take size (whole_block buf index size n).buffer ≡ take size (drop index buf)
unfolding write_block
take-whole_block buf index size n h =
    ap (take size) (overwrite_start zero_block.buffer (take (size - 0) (drop index buf)))
    ∙ ap
        (λ k.
          take size
            (take k (drop index buf) ++ drop (length (take k (drop index buf))) zero_block.buffer))
        (let e : size - 0 ≡ size = omega arith in e)
    ∙ take-append size (take size (drop index buf)) _
        (omega (arith, length-take size (drop index buf), length-drop index buf))

module _ {os : Posix} (law : IsPosix os) {signals : ℕ} (fuel : ℕ) (garbage : Garbage)
    (state : CfsState) where
  -- One round at the start of a block.
  pub Runs-write_round :
      (sha1 : Bytes → Bytes) (rounds offset size current index n right : ℕ) (file file' : CfsFile)
      (buf : Bytes) (v u w : View) (r : ℤ) (a : CfsFile)
      → current % block_size ≡ 0
      → current / block_size ≡ n
      → current < offset + size
      → min block_size (0 + offset + size - current) ≡ right
      → Runs law signals
          (cfs_file_register_block os fuel sha1 garbage state.storage file
            (whole_block buf index right n))
          v
          (r, file')
          u
      → Runs law signals
          (write_loop os fuel garbage sha1 rounds state file' offset size
            (current + right)
            (index + (right - 0))
            buf)
          u
          a
          w
      → Runs law signals
          (write_loop os fuel garbage sha1 (suc rounds) state file offset size current index buf)
          v
          a
          w
  unfolding write_loop
  Runs-write_round sha1 rounds offset size current index n right file file' buf v u w r a start
        number more amount run rest =
      rw (write_loop, lt→ltb _ _ more, start, number, amount)
        (Runs-bind _ (Runs-pure _ _) (Runs-bind _ run rest))

  pub Runs-write_end :
      (sha1 : Bytes → Bytes) (rounds offset size current index : ℕ) (file : CfsFile) (buf : Bytes)
      (v : View)
      → offset + size ≤ current
      → Runs law signals
          (write_loop os fuel garbage sha1 (suc rounds) state file offset size current index buf)
          v
          file
          v
  unfolding write_loop
  Runs-write_end sha1 rounds offset size current index file buf v done =
      rw (write_loop, le→ltb _ _ done) (Runs-pure _ _)

  -- One round of a read at the start of a block that is found.
  pub Runs-read_round :
      (rounds offset size current index n : ℕ) (file : CfsFile) (buf : Bytes) (block : CfsBlock)
      (v u w : View) (a : ℤ × Bytes)
      → current % block_size ≡ 0
      → current / block_size ≡ n
      → current < offset + size
      → Runs law signals
          (cfs_file_read_block os fuel garbage state.storage file (pos n) zero_block)
          v
          (pos 1, block)
          u
      → Runs law signals
          (read_loop os fuel garbage rounds state file offset size
            (current + (block_size - 0))
            (index + (block_size - 0))
            (overwrite buf index (take (block.size - 0 - 0) (drop 0 block.buffer))))
          u
          a
          w
      → Runs law signals
          (read_loop os fuel garbage (suc rounds) state file offset size current index buf)
          v
          a
          w
  unfolding read_loop
  Runs-read_round rounds offset size current index n file buf block v u w a start number more run
        rest =
      rw (read_loop, lt→ltb _ _ more, start, number) (Runs-bind _ run rest)

  pub Runs-read_end :
      (rounds offset size current index : ℕ) (file : CfsFile) (buf : Bytes) (v : View)
      → offset + size ≤ current
      → Runs law signals
          (read_loop os fuel garbage (suc rounds) state file offset size current index buf)
          v
          (to_int (pos (current - offset)), buf)
          v
  unfolding read_loop
  Runs-read_end rounds offset size current index file buf v done =
      rw (read_loop, le→ltb _ _ done) (Runs-pure _ _)

-- What a read copies out of a block that has just been loaded.
pub copied_filled :
    (block : CfsBlock) (n : ℤ) (bytes : Bytes)
    → take ((filled block n bytes).size - 0 - 0) (drop 0 (filled block n bytes).buffer) ≡ bytes
unfolding overlay
copied_filled block n bytes = take-append (length bytes - 0 - 0) bytes _ (omega arith)
