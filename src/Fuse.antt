-- ===== src/Fuse.antt =====
-- cfs/src/bbfs.c: the FUSE callbacks that work on CFS files and on directories.
pub mod Data
pub mod Aligned
pub mod Entry
pub mod Holes
pub mod Contract
pub mod Dir
pub mod Listing
pub mod Call
pub mod Request
pub mod Passed
pub mod Handled
pub mod Link
pub mod Main
pub mod Startup
pub mod Made
pub mod Session
pub mod Errors
pub mod Refused
pub mod Inside
pub mod Many
pub mod Reading
use fusefs_block.Base.{
  ℕ, ◌+◌, Bool, true, false, Option, none, some, List, [], ◌∷◌, ◌++◌, ◌==◌, if◌then◌else◌, ℤ, pos,
  negsuc, int_or, is_neg, ◌==ℤ◌, take, Bytes, CString, bytes_eq,
}
use fusefs_block.Posix.{Posix, Sys, ok, fail, M, pure, call, ◌>>=◌, ◌>>◌}
use fusefs_block.Log.{log_syscall, log_error}
use fusefs_block.Storage.{block_size, read_write}
use fusefs_block.Cfs.{CfsFile, CfsState, Garbage}
use fusefs_block.Cfs.Table.{cfs_register_file, cfs_release_file}
use fusefs_block.Cfs.File.{cfs_create_file, cfs_file_stat}

abbrev pub path_max : ℕ
path_max = 4096

-- `strcpy` of the root directory and `strncat` of the path, for paths that have room in the buffer
-- of `PATH_MAX` bytes: the source says that long paths break here.
unfoldable pub bb_fullpath : CString → CString → CString
bb_fullpath rootdir path = rootdir ++ take path_max path

-- The fields of `struct stat` that `bb_getattr` sets.
pub record Stat : Type 0 where
  pub st_size : ℤ
  pub st_blksize : ℤ
  pub st_blocks : ℤ

pub data NodeKind : Type 0 where
  regular fifo other : NodeKind

-- The result of `bb_open`, `fi->fh` and the table.
pub record Opened : Type 0 where
  pub retstat : ℤ
  pub fh : ℤ
  pub state : CfsState

module _ (os : Posix) (fuel : ℕ) (garbage : Garbage) (rootdir : CString) where
  -- `lstat_result` is what `lstat` returns, `statbuf` what it leaves in the buffer. The test of
  -- `cfs_file_stat` takes any result but 0.
  unfoldable pub bb_getattr : CString → Sys ℕ → Stat → M os.State (ℤ × Stat)
  bb_getattr path lstat_result statbuf = do
    (r, file) ← cfs_file_stat os fuel garbage (bb_fullpath rootdir path) garbage.file
    if r ==ℤ pos 0
        then pure (log_syscall lstat_result, statbuf)
        else pure (
          log_syscall lstat_result,
          record {
            st_size = file.size;
            st_blksize = pos block_size;
            st_blocks = file.total_blocks;
          },
        )

  -- `fstat_result` and `fstat_buf` are those of `fstat`.
  unfoldable pub bb_fgetattr : CString → Sys ℕ → Stat → Sys ℕ → Stat → M os.State (ℤ × Stat)
  bb_fgetattr path lstat_result statbuf fstat_result fstat_buf =
      if bytes_eq path (b'/' ∷ [])
      then bb_getattr path lstat_result statbuf
      else pure (log_syscall fstat_result, fstat_buf)

  -- `mkfifo` and `mknod` are the results of those calls.
  unfoldable pub bb_mknod : CString → NodeKind → ℕ → Sys ℕ → Sys ℕ → M os.State ℤ
  bb_mknod path fifo mode mkfifo mknod = pure (log_syscall mkfifo)
  bb_mknod path other mode mkfifo mknod = pure (log_syscall mknod)
  bb_mknod path regular mode mkfifo mknod = do
    retstat ← cfs_create_file os fuel (bb_fullpath rootdir path) mode
    if is_neg retstat
        then pure retstat
        else (do r ← call (os.close_file retstat); pure (log_syscall r))

  unfoldable pub bb_unlink : CString → M os.State ℤ
  bb_unlink path = do r ← call (os.unlink_file (bb_fullpath rootdir path)); pure (log_syscall r)

  unfoldable pub bb_mkdir : CString → ℕ → M os.State ℤ
  bb_mkdir path mode = do
    r ← call (os.make_dir (bb_fullpath rootdir path) mode)
    pure (log_syscall r)

  unfoldable pub bb_open : CfsState → CString → M os.State Opened
  bb_open state path = do
    r ← call (os.open_file (bb_fullpath rootdir path) read_write 0)
    elim r [
      | fail errno ↦
          pure (record { retstat = log_error errno; fh = log_syscall (fail errno); state = state })
      | ok fd ↦ do
        (_, state') ← cfs_register_file os fuel garbage state (bb_fullpath rootdir path) (pos fd)
        pure (record { retstat = pos 0; fh = pos fd; state = state' })
    ]

  unfoldable pub bb_release : CfsState → ℤ → M os.State (ℤ × CfsState)
  bb_release state fh = do
    let (ret, state') = cfs_release_file state fh
    r ← call (os.close_file fh)
    pure (int_or ret (log_syscall r), state')
