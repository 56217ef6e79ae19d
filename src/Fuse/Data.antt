-- ===== src/Fuse/Data.antt =====
-- `bb_read` and `bb_write` of cfs/src/bbfs.c: the loops over the blocks of a request.
use fusefs_block.Base.{
  ℕ, zero, suc, ◌+◌, ◌-◌, ◌/◌, ◌%◌, min, none, some, ltb, ◌==◌, if◌then◌else◌, ℤ, pos, ◌==ℤ◌,
  to_int, take, drop, set, replicate, Bytes,
}
use fusefs_block.Posix.{Posix, M, pure, ◌>>=◌}
use fusefs_block.Posix.View.{overwrite}
use fusefs_block.Io.{minus_one}
use fusefs_block.Storage.{block_size}
use fusefs_block.Cfs.{CfsFile, CfsBlock, CfsState, Garbage}
use fusefs_block.Cfs.Table.{find_slot, cfs_get_file}
use fusefs_block.Cfs.Blocks.{cfs_file_read_block, cfs_file_register_block}

-- `memset(&blk_buf, 0, sizeof(blk_buf))`
unfoldable pub zero_block : CfsBlock
zero_block = record { index = pos 0; size = 0; buffer = replicate block_size 0 }

-- `*file` is an entry of the table.
unfoldable pub put_entry : CfsState → ℤ → CfsFile → CfsState
unfolding find_slot
put_entry state fd file = elim (find_slot fd state.fds 0) [
  | none ↦ state
  | some i ↦ record state { files = set state.files i file }
]

-- The block that is written in one round: the old one where the round starts inside a block,
-- with the bytes from `left` to `right` replaced.
unfoldable pub write_block : CfsBlock → Bytes → ℕ → ℕ → ℕ → ℕ → CfsBlock
write_block old buf index left right number = record {
  index = pos number;
  size = right;
  buffer = overwrite old.buffer left (take (right - left) (drop index buf));
}

module _ (os : Posix) (fuel : ℕ) (garbage : Garbage) where
  -- The loop over the blocks of a read. `memcpy` takes `size - 2 * left` bytes of a block, and
  -- none if that is negative.
  unfoldable pub read_loop : ℕ → CfsState → CfsFile → ℕ → ℕ → ℕ → ℕ → Bytes → M os.State (ℤ × Bytes)
  read_loop zero state file offset size current index buf s = none
  read_loop (suc rounds) state file offset size current index buf s =
      let rem = current % block_size in
      let body : M os.State (ℤ × Bytes) = (do
        (r, block) ←
            cfs_file_read_block os fuel garbage state.storage file (pos (current / block_size))
              zero_block
        let copied = take (block.size - rem - rem) (drop rem block.buffer)
        let zeros = replicate (min block_size (rem + offset + size - current) - rem) 0
        read_loop rounds state file offset size (current + (block_size - rem))
            (index + (block_size - rem))
            (overwrite buf index (if r ==ℤ pos 0 then zeros else copied))) in
      (if ltb current (offset + size) then body else pure (to_int (pos (current - offset)), buf)) s

  -- The result and `buf`.
  unfoldable pub bb_read : CfsState → ℤ → Bytes → ℕ → ℕ → M os.State (ℤ × Bytes)
  bb_read state fh buf size offset = elim (cfs_get_file state fh) [
    | none ↦ pure (minus_one, buf)
    | some file ↦ read_loop fuel state file offset size offset 0 buf
  ]

  module _ (sha1 : Bytes → Bytes) where
    unfoldable pub write_loop : ℕ → CfsState → CfsFile → ℕ → ℕ → ℕ → ℕ → Bytes → M os.State CfsFile
    write_loop zero state file offset size current index buf s = none
    write_loop (suc rounds) state file offset size current index buf s =
        let left = current % block_size in
        let right = min block_size (left + offset + size - current) in
        let old : M os.State (ℤ × CfsBlock) =
          if left == 0
          then pure (pos 0, zero_block)
          else cfs_file_read_block os fuel garbage state.storage file (pos (current / block_size))
              zero_block in
        let body : M os.State CfsFile = (do
          (r, block) ← old
          (t, file') ←
              cfs_file_register_block os fuel sha1 garbage state.storage file
                (write_block block buf index left right (current / block_size))
          write_loop rounds state file' offset size (current + right) (index + (right - left))
              buf) in
        (if ltb current (offset + size) then body else pure file) s

    unfoldable pub bb_write : CfsState → ℤ → Bytes → ℕ → ℕ → M os.State (ℤ × CfsState)
    bb_write state fh buf size offset = elim (cfs_get_file state fh) [
      | none ↦ pure (minus_one, state)
      | some file ↦ do
        file' ← write_loop fuel state file offset size offset 0 buf
        pure (to_int (pos size), put_entry state fh file')
    ]
