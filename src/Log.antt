-- ===== src/Log.antt =====
-- The results of `log_error` and `log_syscall` of cfs/src/log.c, which the callbacks use. The
-- functions themselves, with what they write and the `errno` that they read, stand in the modules
-- below.
pub mod Stdio
pub mod Report
pub mod Open
pub mod Structs
pub mod Dump
pub mod Names
pub mod Contract
use fusefs_block.Base.{ℕ, zero, suc, ℤ, pos, negsuc}
use fusefs_block.Posix.{Sys, ok, fail}

-- `-errno`
unfoldable pub log_error : ℕ → ℤ
log_error zero = pos 0
log_error (suc n) = negsuc n

-- A call that failed with -1 gives `-errno`; any other result is passed on (`min_ret` is 0).
unfoldable pub log_syscall : Sys ℕ → ℤ
unfolding log_error
log_syscall (ok n) = pos n
log_syscall (fail errno) = log_error errno
