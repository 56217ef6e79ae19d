-- ===== src/Fuse/Passed.antt =====
-- The callbacks of cfs/src/bbfs.c that pass a request on to one call of the system, or to none.
use fusefs_block.Base.{
  ℕ, ◌+◌, ◌-◌, ◌%◌, ◌^◌, Bool, ◌&&◌, if◌then◌else◌, ℤ, pos, negsuc, set, Bytes, CString,
}
use fusefs_block.Posix.{Sys, M, pure, call, ◌>>=◌}
use fusefs_block.Log.{log_syscall}
use fusefs_block.Cfs.{overlay}
use fusefs_block.Fuse.{bb_fullpath}
use fusefs_block.Fuse.Call.{Call, Answer, value_of, bytes_of}
use fusefs_block.Fuse.Request.{
  Request, readlink, rmdir, symlink, rename, link, chmod, chown, truncate, utime, statfs, flush,
  fsync, setxattr, getxattr, listxattr, removexattr, releasedir, fsyncdir, access, ftruncate,
}

-- `size - 1` on a `size_t`.
abbrev pub size_less_one : ℕ → ℕ
size_less_one size = (size + (2 ^ 64 - 1)) % 2 ^ 64

-- `link[retstat] = '\0'; retstat = 0`, if `retstat` is not negative.
unfoldable pub end_link : ℤ → Bytes → ℤ × Bytes
end_link (pos n) buf = (pos 0, set buf n 0)
end_link (negsuc n) buf = (negsuc n, buf)

module _ {S : Type 0} (perform : Call → S → Sys Answer × S) (rootdir : CString) where
  -- `log_syscall("...", ..., 0)` on the result of one call.
  unfoldable pub passed : Call → M S ℤ
  passed c = do r ← call (perform c); pure (log_syscall (value_of r))

  unfoldable pub bb_readlink : CString → Bytes → ℕ → M S (ℤ × Bytes)
  unfolding end_link
  bb_readlink path buf size = do
    r ← call (perform (Call.readlink (bb_fullpath rootdir path) (size_less_one size)))
    pure (end_link (log_syscall (value_of r)) (overlay buf (bytes_of r)))

  unfoldable pub bb_rmdir : CString → M S ℤ
  unfolding passed
  bb_rmdir path = passed (Call.rmdir (bb_fullpath rootdir path))

  unfoldable pub bb_symlink : CString → CString → M S ℤ
  unfolding passed
  bb_symlink path linkpath = passed (Call.symlink path (bb_fullpath rootdir linkpath))

  unfoldable pub bb_rename : CString → CString → M S ℤ
  unfolding passed
  bb_rename path newpath =
      passed (Call.rename (bb_fullpath rootdir path) (bb_fullpath rootdir newpath))

  unfoldable pub bb_link : CString → CString → M S ℤ
  unfolding passed
  bb_link path newpath = passed (Call.link (bb_fullpath rootdir path) (bb_fullpath rootdir newpath))

  unfoldable pub bb_chmod : CString → ℕ → M S ℤ
  unfolding passed
  bb_chmod path mode = passed (Call.chmod (bb_fullpath rootdir path) mode)

  unfoldable pub bb_chown : CString → ℕ → ℕ → M S ℤ
  unfolding passed
  bb_chown path uid gid = passed (Call.chown (bb_fullpath rootdir path) uid gid)

  unfoldable pub bb_truncate : CString → ℤ → M S ℤ
  unfolding passed
  bb_truncate path newsize = passed (Call.truncate (bb_fullpath rootdir path) newsize)

  -- `actime` and `modtime` are the fields of `*ubuf`.
  unfoldable pub bb_utime : CString → ℕ → ℕ → M S ℤ
  unfolding passed
  bb_utime path actime modtime = passed (Call.utime (bb_fullpath rootdir path) actime modtime)

  unfoldable pub bb_statfs : CString → M S ℤ
  unfolding passed
  bb_statfs path = passed (Call.statvfs (bb_fullpath rootdir path))

  unfoldable pub bb_flush : CString → M S ℤ
  bb_flush path = pure (pos 0)

  -- `have_fdatasync` is whether the build defines `HAVE_FDATASYNC`.
  unfoldable pub bb_fsync : Bool → CString → Bool → ℤ → M S ℤ
  unfolding passed
  bb_fsync have_fdatasync path datasync fh =
      if have_fdatasync && datasync then passed (Call.fdatasync fh) else passed (Call.fsync fh)

  unfoldable pub bb_setxattr : CString → CString → Bytes → ℕ → ℤ → M S ℤ
  unfolding passed
  bb_setxattr path name value size flags =
      passed (Call.lsetxattr (bb_fullpath rootdir path) name value size flags)

  unfoldable pub bb_getxattr : CString → CString → ℕ → M S ℤ
  unfolding passed
  bb_getxattr path name size = passed (Call.lgetxattr (bb_fullpath rootdir path) name size)

  unfoldable pub bb_listxattr : CString → ℕ → M S ℤ
  unfolding passed
  bb_listxattr path size = passed (Call.llistxattr (bb_fullpath rootdir path) size)

  unfoldable pub bb_removexattr : CString → CString → M S ℤ
  unfolding passed
  bb_removexattr path name = passed (Call.lremovexattr (bb_fullpath rootdir path) name)

  -- The result of `closedir` is not looked at.
  unfoldable pub bb_releasedir : CString → ℤ → M S ℤ
  bb_releasedir path fh = do r ← call (perform (Call.closedir fh)); pure (pos 0)

  unfoldable pub bb_fsyncdir : CString → Bool → ℤ → M S ℤ
  bb_fsyncdir path datasync fh = pure (pos 0)

  -- `retstat` is the result, or `-errno` if it is negative.
  unfoldable pub bb_access : CString → ℤ → M S ℤ
  unfolding passed
  bb_access path mask = passed (Call.access (bb_fullpath rootdir path) mask)

  unfoldable pub bb_ftruncate : CString → ℤ → ℤ → M S ℤ
  unfolding passed
  bb_ftruncate path offset fh = passed (Call.ftruncate fh offset)

  -- The operation table.
  unfoldable pub handle : Bool → Request → M S ℤ
  unfolding bb_rmdir bb_symlink bb_rename bb_link bb_chmod bb_chown bb_truncate bb_utime bb_statfs
      bb_flush bb_fsync bb_setxattr bb_getxattr bb_listxattr bb_removexattr bb_releasedir
      bb_fsyncdir bb_access bb_ftruncate
  handle have_fdatasync (readlink path buf size) = do (r, _) ← bb_readlink path buf size; pure r
  handle have_fdatasync (rmdir path) = bb_rmdir path
  handle have_fdatasync (symlink path linkpath) = bb_symlink path linkpath
  handle have_fdatasync (rename path newpath) = bb_rename path newpath
  handle have_fdatasync (link path newpath) = bb_link path newpath
  handle have_fdatasync (chmod path mode) = bb_chmod path mode
  handle have_fdatasync (chown path uid gid) = bb_chown path uid gid
  handle have_fdatasync (truncate path newsize) = bb_truncate path newsize
  handle have_fdatasync (utime path actime modtime) = bb_utime path actime modtime
  handle have_fdatasync (statfs path) = bb_statfs path
  handle have_fdatasync (flush path) = bb_flush path
  handle have_fdatasync (fsync path datasync fh) = bb_fsync have_fdatasync path datasync fh
  handle have_fdatasync (setxattr path name value size flags) =
      bb_setxattr path name value size flags
  handle have_fdatasync (getxattr path name size) = bb_getxattr path name size
  handle have_fdatasync (listxattr path size) = bb_listxattr path size
  handle have_fdatasync (removexattr path name) = bb_removexattr path name
  handle have_fdatasync (releasedir path fh) = bb_releasedir path fh
  handle have_fdatasync (fsyncdir path datasync fh) = bb_fsyncdir path datasync fh
  handle have_fdatasync (access path mask) = bb_access path mask
  handle have_fdatasync (ftruncate path offset fh) = bb_ftruncate path offset fh
