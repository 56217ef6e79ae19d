-- ===== src/Log/Open.antt =====
-- `log_open` of cfs/src/log.c.
use fusefs_block.Base.{none, some}
use fusefs_block.Log.Stdio.{Stdio}

-- The program ends with EXIT_FAILURE if the log file cannot be opened.
pub data Opening (io : Stdio) : Type 0 where
  exited : io.State → Opening io
  opened : io.Stream → io.State → Opening io

unfoldable pub log_open : (io : Stdio) → io.State → Opening io
log_open io s =
    let (file, t) = io.fopen "bbfs.log" "w" s in
    elim file [
      | none ↦ exited (io.perror "logfile" t)
      | some logfile ↦ opened logfile (io.set_line_buffered logfile t)
    ]
