-- ===== src/Fuse/Errors.antt =====
-- Errors of the callbacks of cfs/src/bbfs.c: a file that is there already, and one that is not.
use fusefs_block.Base.{ℕ, ◌+◌, ◌<◌, ◌≤◌, ◌≡◌, refl, true, none, some, negsuc, Bytes, CString}
use fusefs_block.Posix.{Posix, Sys, ◌>>◌}
use fusefs_block.Posix.View.{View, stored, unlinked, put_file_self}
use fusefs_block.Posix.Laws.{IsPosix}
use fusefs_block.Posix.Runs.{Ends, Runs, Runs-pure, Runs-bind, Runs-seq}
use fusefs_block.Posix.Calls.{Runs-open_exclusive, Runs-open_missing, Runs-unlink}
use fusefs_block.Log.{log_error, log_syscall}
use fusefs_block.Storage.{read_write}
use fusefs_block.Cfs.{CfsState, Garbage}
use fusefs_block.Cfs.File.{cfs_create_file, create_exclusive}
use fusefs_block.Cfs.Create.{new_header}
use fusefs_block.Fuse.{bb_fullpath, bb_mknod, regular, bb_open, bb_unlink}
use fusefs_block.Fuse.Made.{Runs-bb_mknod}

module _ {os : Posix} (law : IsPosix os) {signals : ℕ} (fuel : ℕ) (garbage : Garbage)
    (rootdir path : CString) (v : View) where
  -- A path that is taken.
  Runs-bb_mknod_taken :
      (mode : ℕ) (mkfifo mknod : Sys ℕ) (c : Bytes)
      → law.creatable (bb_fullpath rootdir path) mode ≡ true
      → v.files (bb_fullpath rootdir path) ≡ some c
      → Runs law signals
          (bb_mknod os fuel garbage rootdir path regular mode mkfifo mknod)
          v
          (negsuc 16)
          v
  unfolding bb_mknod cfs_create_file log_syscall log_error
  Runs-bb_mknod_taken mode mkfifo mknod c creatable holds =
      Runs-bind _
        (Runs-bind _
          (Runs-open_exclusive law v (bb_fullpath rootdir path) create_exclusive mode creatable
            holds refl refl)
          (Runs-pure _ _))
        (Runs-pure _ _)

  -- A path without a file.
  Runs-bb_open_missing :
      (state : CfsState)
      → law.usable (bb_fullpath rootdir path) ≡ true
      → v.files (bb_fullpath rootdir path) ≡ none
      → Runs law signals
          (bb_open os fuel garbage rootdir state path)
          v
          (record { retstat = negsuc 1; fh = negsuc 1; state = state })
          v
  unfolding bb_open log_syscall log_error
  Runs-bb_open_missing state usable absent =
      Runs-bind _
        (Runs-open_missing law v (bb_fullpath rootdir path) read_write 0 usable absent refl)
        (Runs-pure _ _)

module _ {os : Posix} (law : IsPosix os) (signals fuel : ℕ) (enough : 8 + signals < fuel)
    (garbage : Garbage) (rootdir path : CString) where
  -- A second `bb_mknod` for a regular file on the same path gives -EEXIST and leaves the file
  -- that the first one made; no descriptor stays open. There was no file before, the path is in
  -- a directory where the process makes files with the two modes, and the fuel is above 8 and
  -- the pending signals together.
  pub bb_mknod-bb_mknod :
      (mode mode' : ℕ) (mkfifo mknod : Sys ℕ) (s : os.State)
      → law.creatable (bb_fullpath rootdir path) mode ≡ true
      → law.creatable (bb_fullpath rootdir path) mode' ≡ true
      → (law.view s).files (bb_fullpath rootdir path) ≡ none
      → law.pending s ≤ signals
      → Ends law signals
          (bb_mknod os fuel garbage rootdir path regular mode mkfifo mknod
            >> bb_mknod os fuel garbage rootdir path regular mode' mkfifo mknod)
          s
          (negsuc 16)
          (stored (law.view s) (bb_fullpath rootdir path) (some new_header))
  bb_mknod-bb_mknod mode mode' mkfifo mknod s creatable creatable' absent calm =
      (Runs-seq
          (Runs-bb_mknod law fuel garbage rootdir path (law.view s) mode mkfifo mknod creatable
            absent enough)
          (Runs-bb_mknod_taken law fuel garbage rootdir path _ mode' mkfifo mknod new_header
            creatable' (put_file_self _ _ _))).from
        s refl calm

  -- `bb_open` of a file that `bb_unlink` has removed gives -ENOENT and does not touch the table;
  -- the file handle is -2 then. The file is gone and all else is as before, but for the
  -- descriptors that were open on it.
  pub bb_open-bb_unlink :
      (state : CfsState) (c : Bytes) (s : os.State)
      → law.usable (bb_fullpath rootdir path) ≡ true
      → (law.view s).files (bb_fullpath rootdir path) ≡ some c
      → law.pending s ≤ signals
      → Ends law signals
          (bb_unlink os fuel garbage rootdir path >> bb_open os fuel garbage rootdir state path)
          s
          (record { retstat = negsuc 1; fh = negsuc 1; state = state })
          (unlinked (law.view s) (bb_fullpath rootdir path))
  unfolding bb_unlink log_syscall
  bb_open-bb_unlink state c s usable holds calm =
      (Runs-seq
          (Runs-bind _ (Runs-unlink law (law.view s) (bb_fullpath rootdir path) usable holds)
            (Runs-pure _ _))
          (Runs-bb_open_missing law fuel garbage rootdir path _ state usable
            (put_file_self _ _ _))).from
        s refl calm
