-- ===== src/Cfs/File.antt =====
-- Creating and inspecting CFS files: `cfs_create_file` and `cfs_file_stat` of cfs/src/cfs.c.
use fusefs_block.Base.{
  ℕ, Bool, true, false, not, ◌||◌, [], ◌∷◌, ◌++◌, ltb, if◌then◌else◌, ℤ, pos, negsuc, int_or,
  to_int, to_size, take, Bytes, CString, bytes_eq,
}
use fusefs_block.Posix.{Posix, ok, fail, wr_only, OpenFlags, M, pure, call, ◌>>=◌, ◌>>◌}
use fusefs_block.Io.{minus_one, s_read, s_write}
use fusefs_block.Log.{log_syscall}
use fusefs_block.Storage.{read_only}
use fusefs_block.Cfs.{
  CfsFile, Garbage, magic, magic_size, off_size, overlay, put_off, off_bytes, c_string,
}

abbrev pub create_exclusive : OpenFlags
create_exclusive = record { access = wr_only; create = true; exclusive = true }

-- `magic_buff` after the read, with the terminator set before it.
unfoldable pub magic_text : Bytes → Bytes → CString
unfolding overlay c_string
magic_text buf bytes = c_string (overlay (take magic_size buf ++ (0 ∷ [])) bytes)

-- `ret > 0`
abbrev pub positive : ℤ → Bool
positive (pos n) = ltb 0 n
positive (negsuc n) = false

module _ (os : Posix) (fuel : ℕ) where
  unfoldable pub cfs_create_file : CString → ℕ → M os.State ℤ
  cfs_create_file path mode = do
    r ← call (os.open_file path create_exclusive mode)
    elim r [
      | fail errno ↦ pure (log_syscall (fail errno))
      | ok fd ↦ do
        s_write os fuel (pos fd) (magic ++ (0 ∷ []))
        s_write os fuel (pos fd) (off_bytes (pos 0))
        s_write os fuel (pos fd) (off_bytes (pos 0))
        pure (pos fd)
    ]

  -- The result and `*stat_buf`. The descriptor is never closed.
  unfoldable pub cfs_file_stat : Garbage → CString → CfsFile → M os.State (ℤ × CfsFile)
  cfs_file_stat garbage path stat_buf = do
    r ← call (os.open_file path read_only 0)
    elim r [
      | fail errno ↦ pure (minus_one, stat_buf)
      | ok fd ↦ do
        (total, bytes) ← s_read os fuel (pos fd) magic_size
        if ltb (to_size total) magic_size
              || not (bytes_eq (magic_text garbage.magic_buff bytes) magic)
            then pure (minus_one, stat_buf)
            else (do
              (a, size_bytes) ← s_read os fuel (pos fd) off_size
              (b, blocks_bytes) ← s_read os fuel (pos fd) off_size
              let ret = int_or (int_or (pos 0) (to_int a)) (to_int b)
              let out = record stat_buf {
                size = put_off stat_buf.size size_bytes;
                total_blocks = put_off stat_buf.total_blocks blocks_bytes;
              }
              pure (if positive ret then ret else minus_one, out))
    ]
