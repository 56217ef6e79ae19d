-- ===== src/Log/Report.antt =====
-- `log_msg`, `log_error`, `log_retstat` and `log_syscall` of cfs/src/log.c.
use fusefs_block.Base.{[], ◌∷◌, ℤ, pos, ◌-ℤ◌, is_neg, if◌then◌else◌, CString}
use fusefs_block.Log.Stdio.{Stdio, Message, number, string}
use fusefs_block.Cfs.{CfsState}

-- `struct bb_state` of cfs/src/params.h, the private data of the file system.
pub record BbState (io : Stdio) : Type 0 where
  pub logfile : io.Stream
  pub rootdir : CString
  pub cfs_state : CfsState

module _ (io : Stdio) (bb_data : BbState io) where
  unfoldable pub log_msg : Message → io.State → io.State
  log_msg = io.vfprintf bb_data.logfile

  -- `-errno` is taken before anything is printed.
  unfoldable pub log_error : CString → io.State → ℤ × io.State
  unfolding log_msg
  log_error func s = (
    pos 0 -ℤ pos (io.errno s),
    log_msg
        (record {
          format = "    ERROR %s: %s\n";
          arguments = string func ∷ string (io.strerror (io.errno s)) ∷ [];
        })
        s,
  )

  unfoldable pub log_retstat : CString → ℤ → io.State → io.State
  unfolding log_msg
  log_retstat func retstat s = io.set_errno (io.errno s) (
      log_msg
        (record { format = "    %s returned %d\n"; arguments = string func ∷ number retstat ∷ [] })
        s)

  -- The result of `log_error` is dropped, and `errno` is read again.
  unfoldable pub log_syscall : CString → ℤ → ℤ → io.State → ℤ × io.State
  unfolding log_error log_retstat
  log_syscall func retstat min_ret s =
      let t = log_retstat func retstat s in
      if is_neg (retstat -ℤ min_ret)
      then (pos 0 -ℤ pos (io.errno (log_error func t).1), (log_error func t).1)
      else (retstat, t)
