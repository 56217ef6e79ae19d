-- ===== src/Fuse/Call.antt =====
-- The system calls that the callbacks of cfs/src/bbfs.c pass on, as values. What a call does is
-- the system's; what the callbacks ask of it is which calls they make.
use fusefs_block.Base.{ℕ, ℤ, [], Bytes, CString}
use fusefs_block.Posix.{Sys, ok, fail}

pub data Call : Type 0 where
  readlink : CString → ℕ → Call
  rmdir : CString → Call
  symlink rename link : CString → CString → Call
  chmod : CString → ℕ → Call
  chown : CString → ℕ → ℕ → Call
  truncate : CString → ℤ → Call
  utime : CString → ℕ → ℕ → Call
  statvfs : CString → Call
  fsync fdatasync : ℤ → Call
  lsetxattr : CString → CString → Bytes → ℕ → ℤ → Call
  lgetxattr : CString → CString → ℕ → Call
  llistxattr : CString → ℕ → Call
  lremovexattr : CString → CString → Call
  closedir : ℤ → Call
  access : CString → ℤ → Call
  ftruncate : ℤ → ℤ → Call

-- What a call that succeeds returns, and the bytes that it puts into the caller's buffer.
pub record Answer : Type 0 where
  pub value : ℕ
  pub bytes : Bytes

unfoldable pub value_of : Sys Answer → Sys ℕ
value_of (ok a) = ok a.value
value_of (fail errno) = fail errno

unfoldable pub bytes_of : Sys Answer → Bytes
bytes_of (ok a) = a.bytes
bytes_of (fail errno) = []
