-- ===== src/Cfs/Blocks.antt =====
-- The blocks of a CFS file: `cfs_file_find_index`, `cfs_file_register_block` and
-- `cfs_file_read_block` of cfs/src/cfs.c.
use fusefs_block.Base.{
  ℕ, zero, suc, [], none, some, if◌then◌else◌, ℤ, pos, negsuc, ◌+ℤ◌, ◌-ℤ◌, ◌==ℤ◌, is_neg, to_off,
  Bytes,
}
use fusefs_block.Util.{calculate_hash}
use fusefs_block.Posix.{
  Posix, ok, fail, seek_set, seek_cur, seek_end, f_rdlck, f_ofd_setlkw, M, call, pure, ◌>>=◌, ◌>>◌,
}
use fusefs_block.Io.{minus_one, file_exists, s_lseek, s_read, s_write}
use fusefs_block.Storage.{
  BlkStore, Loaded, nothing_loaded, block_path, hash_length, read_only, whole_file,
}
use fusefs_block.Storage.Block.{store_block, load_block, give_up_load, block_get_size}
use fusefs_block.Cfs.{
  CfsFile, CfsBlock, Garbage, int_offset, size_start, block_start, off_size, overlay, put_off,
  off_bytes,
}

-- `file->size - old_size + block->size`
abbrev pub resized : CfsFile → ℤ → ℕ → CfsFile
resized file old_size size = record file { size = to_off (file.size -ℤ old_size +ℤ pos size) }

module _ (os : Posix) (fuel : ℕ) where
  -- The loop over the pairs: 1 with the offset behind the index that was found, 0 at the end of
  -- the file. `index_buff` is what the last read has left.
  unfoldable pub find_loop : ℕ → ℤ → ℤ → ℤ → M os.State ℤ
  find_loop zero fd index index_buff s = none
  find_loop (suc rounds) fd index index_buff s =
      (do
        (bytes_read, bytes) ← s_read os fuel fd off_size
        let read = put_off index_buff bytes
        let next = (do
          s_lseek os fuel fd (pos hash_length) seek_cur
          find_loop rounds fd index read)
        if bytes_read ==ℤ pos 0
            then pure (pos 0)
            else if read ==ℤ index
            then pure (pos 1)
            else next)
        s

  unfoldable pub cfs_file_find_index : Garbage → CfsFile → ℤ → M os.State ℤ
  cfs_file_find_index garbage file index = if file.total_blocks ==ℤ pos 0 then pure (pos 0) else (do
    s_lseek os fuel file.fd (pos block_start) seek_set
    find_loop fuel file.fd index garbage.index)

  -- The branch for an index that is in the file: the old hash is read into `hash`, which then
  -- is written back. The result is the old block's size.
  unfoldable pub replace_pair : Garbage → BlkStore → CfsFile → Bytes → M os.State ℤ
  unfolding int_offset
  replace_pair garbage storage file hash = do
    (n, bytes) ← s_read os fuel file.fd hash_length
    old_size ← block_get_size os fuel storage (overlay hash bytes)
    s_lseek os fuel file.fd (int_offset garbage (negsuc 19)) seek_cur
    s_write os fuel file.fd (overlay hash bytes)
    pure old_size

  -- The branch for a new index: a pair is appended.
  unfoldable pub append_pair : CfsFile → ℤ → Bytes → M os.State ℤ
  append_pair file index hash = do
    s_lseek os fuel file.fd (pos 0) seek_end
    s_write os fuel file.fd (off_bytes index)
    s_write os fuel file.fd hash
    pure (pos 0)

  -- The size and the number of blocks are written to the header.
  unfoldable pub write_header : CfsFile → M os.State ℤ
  write_header file = do
    s_lseek os fuel file.fd (pos size_start) seek_set
    s_write os fuel file.fd (off_bytes file.size)
    s_write os fuel file.fd (off_bytes file.total_blocks)

  -- The result, and `*file` after the call.
  unfoldable pub cfs_file_register_block :
      (Bytes → Bytes) → Garbage → BlkStore → CfsFile → CfsBlock → M os.State (ℤ × CfsFile)
  cfs_file_register_block sha1 garbage storage file block = do
    let hash = calculate_hash sha1 block.buffer block.size
    ret ← store_block os fuel storage block.buffer block.size hash
    if is_neg ret then pure (ret, file) else (do
      found ← cfs_file_find_index garbage file block.index
      if found ==ℤ pos 0
          then (do
            append_pair file block.index hash
            let file' =
                resized (record file { total_blocks = to_off (file.total_blocks +ℤ pos 1) }) (pos 0)
                  block.size
            write_header file'
            pure (pos 0, file'))
          else (do
            old_size ← replace_pair garbage storage file hash
            let file' = resized file old_size block.size
            write_header file'
            pure (pos 0, file')))

  -- `load_block` with four arguments. Where what stands in place of `refs` cannot be written, the
  -- read of the counter fails with EFAULT, and `load_block` gives up.
  unfoldable pub load_without_refs : Garbage → BlkStore → Bytes → M os.State Loaded
  load_without_refs garbage storage hash =
      if garbage.refs_valid then load_block os fuel storage hash else (do
        there ← file_exists os (block_path storage hash)
        if there
            then (do
              r ← call (os.open_file (block_path storage hash) read_only 0)
              elim r [
                | fail errno ↦ pure (nothing_loaded minus_one)
                | ok fd ↦ do
                  l ← call (os.lock_file (pos fd) f_ofd_setlkw (whole_file f_rdlck))
                  elim l [
                    | fail errno ↦ give_up_load os fuel fd [] []
                    | ok _ ↦ do
                      s_lseek os fuel (pos fd) (pos 0) seek_set
                      give_up_load os fuel fd [] []
                  ]
              ])
            else pure (nothing_loaded (negsuc 16)))

  -- The result, and `*buff` after the call.
  unfoldable pub cfs_file_read_block :
      Garbage → BlkStore → CfsFile → ℤ → CfsBlock → M os.State (ℤ × CfsBlock)
  cfs_file_read_block garbage storage file index buff = do
    s_lseek os fuel file.fd (pos block_start) seek_set
    found ← cfs_file_find_index garbage file index
    if found ==ℤ pos 0 then pure (pos 0, buff) else (do
      (n, bytes) ← s_read os fuel file.fd hash_length
      l ← load_without_refs garbage storage (overlay garbage.hash bytes)
      let size : ℕ = elim l.size [ none ↦ buff.size | some n ↦ n ]
      let buff' = record buff { buffer = overlay buff.buffer l.bytes; size = size }
      if l.ret ==ℤ pos 0 then pure (pos 1, record buff' { index = index }) else pure (l.ret, buff'))
