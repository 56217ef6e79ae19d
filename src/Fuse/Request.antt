-- ===== src/Fuse/Request.antt =====
-- The requests of FUSE that cfs/src/bbfs.c passes on, with the arguments that its operation table
-- `bb_oper` hands over.
use fusefs_block.Base.{ℕ, Bool, ℤ, Bytes, CString}

pub data Request : Type 0 where
  readlink : CString → Bytes → ℕ → Request
  rmdir : CString → Request
  symlink rename link : CString → CString → Request
  chmod : CString → ℕ → Request
  chown : CString → ℕ → ℕ → Request
  truncate : CString → ℤ → Request
  utime : CString → ℕ → ℕ → Request
  statfs flush : CString → Request
  fsync : CString → Bool → ℤ → Request
  setxattr : CString → CString → Bytes → ℕ → ℤ → Request
  getxattr : CString → CString → ℕ → Request
  listxattr : CString → ℕ → Request
  removexattr : CString → CString → Request
  releasedir : CString → ℤ → Request
  fsyncdir : CString → Bool → ℤ → Request
  access : CString → ℤ → Request
  ftruncate : CString → ℤ → ℤ → Request
