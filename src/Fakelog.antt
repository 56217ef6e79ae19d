-- ===== src/Fakelog.antt =====
-- The logger of cfscat, cfs/src/fakelog.c: that of cfs/src/log.c with the standard output in place
-- of the log file.
use fusefs_block.Base.{◌≡◌, refl, [], ◌∷◌, ℤ, pos, ◌-ℤ◌, is_neg, if◌then◌else◌, CString, Option}
use fusefs_block.Cfs.{CfsState}
use fusefs_block.Log.Report
use fusefs_block.Log.Stdio.{Stdio, Message, number, string}

module _ (io : Stdio) where
  unfoldable pub log_open : io.State → Option io.Stream × io.State
  log_open = io.fopen "/dev/random" "r"

  unfoldable pub log_msg : Message → io.State → io.State
  log_msg = io.vfprintf io.stdout

  -- `-errno` is taken before anything is printed.
  unfoldable pub log_error : CString → io.State → ℤ × io.State
  unfolding log_msg
  log_error func s = (
    pos 0 -ℤ pos (io.errno s),
    log_msg
        (record {
          format = "    ERROR %s: %s\n";
          arguments = string func ∷ string (io.strerror (io.errno s)) ∷ [];
        })
        s,
  )

  unfoldable pub log_retstat : CString → ℤ → io.State → io.State
  unfolding log_msg
  log_retstat func retstat s = io.set_errno (io.errno s) (
      log_msg
        (record { format = "    %s returned %d\n"; arguments = string func ∷ number retstat ∷ [] })
        s)

  -- The result of `log_error` is dropped, and `errno` is read again.
  unfoldable pub log_syscall : CString → ℤ → ℤ → io.State → ℤ × io.State
  unfolding log_error log_retstat
  log_syscall func retstat min_ret s =
      let t = log_retstat func retstat s in
      if is_neg (retstat -ℤ min_ret)
      then (pos 0 -ℤ pos (io.errno (log_error func t).1), (log_error func t).1)
      else (retstat, t)

-- It reports as the logger of the file system does whose log file is the standard output.
log_syscall_same :
    (io : Stdio) (rootdir : CString) (state : CfsState) (func : CString) (retstat min_ret : ℤ)
    (s : io.State)
    → log_syscall io func retstat min_ret s
      ≡ Report.log_syscall io
          (record { logfile = io.stdout; rootdir = rootdir; cfs_state = state })
          func
          retstat
          min_ret
          s
unfolding log_syscall Report.log_syscall Report.log_msg Report.log_error Report.log_retstat
log_syscall_same io rootdir state func retstat min_ret s = refl
