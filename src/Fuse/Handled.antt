-- ===== src/Fuse/Handled.antt =====
-- What the callbacks of cfs/src/bbfs.c that pass a request on promise, for any system: which call
-- a request is, and what it is answered.
use fusefs_block.Base.{
  ◌+◌, ◌<◌, ◌≡◌, Bool, true, false, Option, none, some, List, [], ◌∷◌, ◌++◌, length, ℤ, pos, is_neg,
  CString,
}
use fusefs_block.Posix.{Sys, ok, fail, M}
use fusefs_block.Log.{log_error}
use fusefs_block.Fuse.{path_max}
use fusefs_block.Fuse.Call.{Call, Answer}
use fusefs_block.Fuse.Request.{Request}
use fusefs_block.Fuse.Passed.{size_less_one}

-- The paths of a request that are looked up or made beneath the root directory. The text of a
-- symbolic link is not looked up.
abbrev pub paths_of : Request → List CString
paths_of (Request.readlink path buf size) = path ∷ []
paths_of (Request.rmdir path) = path ∷ []
paths_of (Request.symlink path linkpath) = linkpath ∷ []
paths_of (Request.rename path newpath) = path ∷ newpath ∷ []
paths_of (Request.link path newpath) = path ∷ newpath ∷ []
paths_of (Request.chmod path mode) = path ∷ []
paths_of (Request.chown path uid gid) = path ∷ []
paths_of (Request.truncate path newsize) = path ∷ []
paths_of (Request.utime path actime modtime) = path ∷ []
paths_of (Request.statfs path) = path ∷ []
paths_of (Request.setxattr path name value size flags) = path ∷ []
paths_of (Request.getxattr path name size) = path ∷ []
paths_of (Request.listxattr path size) = path ∷ []
paths_of (Request.removexattr path name) = path ∷ []
paths_of (Request.access path mask) = path ∷ []
paths_of (Request.flush path) = []
paths_of (Request.fsync path datasync fh) = []
paths_of (Request.releasedir path fh) = []
paths_of (Request.fsyncdir path datasync fh) = []
paths_of (Request.ftruncate path offset fh) = []

-- A path that has room with the root directory and the terminator in a buffer of `PATH_MAX` bytes.
abbrev pub Fits : CString → CString → Type 0
Fits rootdir path = length rootdir + length path < path_max

-- The call that a request is, on the same paths beneath the root directory. `flush` and `fsyncdir`
-- are none; a request for the data alone is `fdatasync` where the system has it.
abbrev pub call_for : CString → Bool → Request → Option Call
call_for root fdatasync (Request.readlink path buf size) =
    some (Call.readlink (root ++ path) (size_less_one size))
call_for root fdatasync (Request.rmdir path) = some (Call.rmdir (root ++ path))
call_for root fdatasync (Request.symlink path linkpath) =
    some (Call.symlink path (root ++ linkpath))
call_for root fdatasync (Request.rename path newpath) =
    some (Call.rename (root ++ path) (root ++ newpath))
call_for root fdatasync (Request.link path newpath) =
    some (Call.link (root ++ path) (root ++ newpath))
call_for root fdatasync (Request.chmod path mode) = some (Call.chmod (root ++ path) mode)
call_for root fdatasync (Request.chown path uid gid) = some (Call.chown (root ++ path) uid gid)
call_for root fdatasync (Request.truncate path newsize) =
    some (Call.truncate (root ++ path) newsize)
call_for root fdatasync (Request.utime path actime modtime) =
    some (Call.utime (root ++ path) actime modtime)
call_for root fdatasync (Request.statfs path) = some (Call.statvfs (root ++ path))
call_for root fdatasync (Request.flush path) = none
call_for root true (Request.fsync path true fh) = some (Call.fdatasync fh)
call_for root true (Request.fsync path false fh) = some (Call.fsync fh)
call_for root false (Request.fsync path datasync fh) = some (Call.fsync fh)
call_for root fdatasync (Request.setxattr path name value size flags) =
    some (Call.lsetxattr (root ++ path) name value size flags)
call_for root fdatasync (Request.getxattr path name size) =
    some (Call.lgetxattr (root ++ path) name size)
call_for root fdatasync (Request.listxattr path size) = some (Call.llistxattr (root ++ path) size)
call_for root fdatasync (Request.removexattr path name) =
    some (Call.lremovexattr (root ++ path) name)
call_for root fdatasync (Request.releasedir path fh) = some (Call.closedir fh)
call_for root fdatasync (Request.fsyncdir path datasync fh) = none
call_for root fdatasync (Request.access path mask) = some (Call.access (root ++ path) mask)
call_for root fdatasync (Request.ftruncate path offset fh) = some (Call.ftruncate fh offset)

-- What FUSE is told: the negated `errno` of a call that failed, and no error if it did not.
abbrev Answered : Sys Answer → ℤ → Type 0
Answered (ok a) r = is_neg r ≡ false
Answered (fail errno) r = r ≡ log_error errno

-- The failure of `closedir` is not told.
abbrev pub Reply : Call → Sys Answer → ℤ → Type 0
Reply (Call.closedir fd) a r = r ≡ pos 0
Reply c a r = Answered a r

module _ {S : Type 0} (perform : Call → S → Sys Answer × S) (rootdir : CString) where
  -- How a request goes that is no call, or this one.
  abbrev pub Outcome : Option Call → S → ℤ → S → Type 0
  Outcome none s r s' = (r ≡ pos 0) × (s' ≡ s)
  Outcome (some c) s r s' = (s' ≡ (perform c s).1) × Reply c (perform c s).0 r

  abbrev Handled : Option Call → M S ℤ → S → Type 0
  Handled c m s = (r : ℤ) × (s' : S) × (m s ≡ some (r, s')) × Outcome c s r s'
