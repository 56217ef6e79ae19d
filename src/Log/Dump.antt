-- ===== src/Log/Dump.antt =====
-- The functions of cfs/src/log.c that write the fields of a structure to the log, with the macro
-- `log_struct` of cfs/src/log.h, and `cfs_print_state` of cfs/src/cfs.c and
-- `bb_init` and `bb_destroy` of cfs/src/bbfs.c, which only log.
use fusefs_block.Base.{ℕ, suc, ◌≡◌, sym, ap, ◌∙◌, List, [], ◌∷◌, ◌++◌, ℤ}
use mathlib.Core.List.{append_assoc, append-nil}
use Prim.Native.String.{String, ◌++◌ as ◌<>◌}
use fusefs_block.Io.{minus_one}
use fusefs_block.Cfs.{CfsFile, CfsState}
use fusefs_block.Log.Stdio.{Stdio, IsStdio, Argument, Message, number, string}
use fusefs_block.Log.Structs.{
  FuseContext, FuseConnInfo, FuseFileInfo, StatInfo, StatvfsInfo, Utimbuf,
}
use fusefs_block.Log.Report.{BbState, log_msg}

abbrev heading : String → Message
heading format = record { format = format; arguments = [] }

-- `"    " #field " = " #format "\n"`
abbrev pub log_struct : String → String → Argument → Message
log_struct field format value = record {
  format = "    " <> (field <> (" = " <> (format <> "\n")));
  arguments = value ∷ [];
}

abbrev fuse_context_lines : FuseContext → List Message
fuse_context_lines context =
    heading "    context:\n"
    ∷ log_struct "fuse" "%08x" (number context.fuse)
    ∷ log_struct "uid" "%d" (number context.uid)
    ∷ log_struct "gid" "%d" (number context.gid)
    ∷ log_struct "pid" "%d" (number context.pid)
    ∷ log_struct "private_data" "%08x" (number context.private_data)
    ∷ log_struct "logfile" "%08x" (number context.logfile)
    ∷ log_struct "rootdir" "%s" (string context.rootdir)
    ∷ log_struct "umask" "%05o" (number context.umask)
    ∷ []

abbrev conn_lines : FuseConnInfo → List Message
conn_lines conn =
    heading "    conn:\n"
    ∷ log_struct "proto_major" "%d" (number conn.proto_major)
    ∷ log_struct "proto_minor" "%d" (number conn.proto_minor)
    ∷ log_struct "async_read" "%d" (number conn.async_read)
    ∷ log_struct "max_write" "%d" (number conn.max_write)
    ∷ log_struct "max_readahead" "%d" (number conn.max_readahead)
    ∷ log_struct "capable" "%08x" (number conn.capable)
    ∷ log_struct "want" "%08x" (number conn.want)
    ∷ log_struct "max_background" "%d" (number conn.max_background)
    ∷ log_struct "congestion_threshold" "%d" (number conn.congestion_threshold)
    ∷ []

abbrev fi_lines : FuseFileInfo → List Message
fi_lines fi =
    heading "    fi:\n"
    ∷ log_struct "flags" "0x%08x" (number fi.flags)
    ∷ log_struct "fh_old" "0x%08lx" (number fi.fh_old)
    ∷ log_struct "writepage" "%d" (number fi.writepage)
    ∷ log_struct "direct_io" "%d" (number fi.direct_io)
    ∷ log_struct "keep_cache" "%d" (number fi.keep_cache)
    ∷ log_struct "fh" "0x%016llx" (number fi.fh)
    ∷ log_struct "lock_owner" "0x%016llx" (number fi.lock_owner)
    ∷ []

abbrev stat_lines : StatInfo → List Message
stat_lines si =
    heading "    si:\n"
    ∷ log_struct "st_dev" "%lld" (number si.st_dev)
    ∷ log_struct "st_ino" "%lld" (number si.st_ino)
    ∷ log_struct "st_mode" "0%o" (number si.st_mode)
    ∷ log_struct "st_nlink" "%d" (number si.st_nlink)
    ∷ log_struct "st_uid" "%d" (number si.st_uid)
    ∷ log_struct "st_gid" "%d" (number si.st_gid)
    ∷ log_struct "st_rdev" "%lld" (number si.st_rdev)
    ∷ log_struct "st_size" "%lld" (number si.st_size)
    ∷ log_struct "st_blksize" "%ld" (number si.st_blksize)
    ∷ log_struct "st_blocks" "%lld" (number si.st_blocks)
    ∷ log_struct "st_atime" "0x%08lx" (number si.st_atime)
    ∷ log_struct "st_mtime" "0x%08lx" (number si.st_mtime)
    ∷ log_struct "st_ctime" "0x%08lx" (number si.st_ctime)
    ∷ []

abbrev statvfs_lines : StatvfsInfo → List Message
statvfs_lines sv =
    heading "    sv:\n"
    ∷ log_struct "f_bsize" "%ld" (number sv.f_bsize)
    ∷ log_struct "f_frsize" "%ld" (number sv.f_frsize)
    ∷ log_struct "f_blocks" "%lld" (number sv.f_blocks)
    ∷ log_struct "f_bfree" "%lld" (number sv.f_bfree)
    ∷ log_struct "f_bavail" "%lld" (number sv.f_bavail)
    ∷ log_struct "f_files" "%lld" (number sv.f_files)
    ∷ log_struct "f_ffree" "%lld" (number sv.f_ffree)
    ∷ log_struct "f_favail" "%lld" (number sv.f_favail)
    ∷ log_struct "f_fsid" "%ld" (number sv.f_fsid)
    ∷ log_struct "f_flag" "0x%08lx" (number sv.f_flag)
    ∷ log_struct "f_namemax" "%ld" (number sv.f_namemax)
    ∷ []

abbrev utime_lines : Utimbuf → List Message
utime_lines buf =
    heading "    buf:\n"
    ∷ log_struct "actime" "0x%08lx" (number buf.actime)
    ∷ log_struct "modtime" "0x%08lx" (number buf.modtime)
    ∷ []

-- `state->fds[i]` and `state->files[i].path`
abbrev entry_lines : ℕ → List ℤ → List CfsFile → List Message
entry_lines (suc cap) (fd ∷ fds) (file ∷ files) =
    record { format = "[%d] -> %s\n"; arguments = number fd ∷ string file.path ∷ [] }
    ∷ entry_lines cap fds files
entry_lines _ _ _ = []

module _ (io : Stdio) (bb_data : BbState io) where
  -- One call of `log_msg` after the other.
  unfoldable pub log_lines : List Message → io.State → io.State
  unfolding log_msg
  log_lines [] s = s
  log_lines (line ∷ lines) s = log_lines lines (log_msg io bb_data line s)

  unfoldable pub log_fuse_context : FuseContext → io.State → io.State
  log_fuse_context context = log_lines (fuse_context_lines context)

  unfoldable pub log_conn : FuseConnInfo → io.State → io.State
  log_conn conn = log_lines (conn_lines conn)

  unfoldable pub log_fi : FuseFileInfo → io.State → io.State
  log_fi fi = log_lines (fi_lines fi)

  unfoldable pub log_stat : StatInfo → io.State → io.State
  log_stat si = log_lines (stat_lines si)

  unfoldable pub log_statvfs : StatvfsInfo → io.State → io.State
  log_statvfs sv = log_lines (statvfs_lines sv)

  unfoldable pub log_utime : Utimbuf → io.State → io.State
  log_utime buf = log_lines (utime_lines buf)

  -- `cfs_print_state` of cfs/src/cfs.c
  unfoldable pub cfs_print_state : CfsState → io.State → ℤ × io.State
  cfs_print_state state s = (
    minus_one,
    log_lines (heading "\nCFS STATE:\n" ∷ entry_lines state.fds_cap state.fds state.files) s,
  )

  unfoldable pub bb_init : FuseConnInfo → FuseContext → io.State → BbState io × io.State
  unfolding log_msg log_conn log_fuse_context
  bb_init conn context s = (
    bb_data,
    log_fuse_context context (log_conn conn (log_msg io bb_data (heading "\nbb_init()\n") s)),
  )

  unfoldable pub bb_destroy : ℤ → io.State → io.State
  unfolding log_msg
  bb_destroy userdata =
      log_msg io bb_data
        (record { format = "\nbb_destroy(userdata=0x%08x)\n"; arguments = number userdata ∷ [] })

  -- The lines are appended to the log file.
  pub log_lines-lines :
      (is : IsStdio io) (lines : List Message) (s : io.State)
      → is.lines bb_data.logfile (log_lines lines s) ≡ is.lines bb_data.logfile s ++ lines
  unfolding log_lines log_msg
  log_lines-lines is [] s = sym (append-nil (is.lines bb_data.logfile s))
  log_lines-lines is (line ∷ lines) s =
      log_lines-lines is lines (log_msg io bb_data line s)
      ∙ ap (λ ls. ls ++ lines) (is.lines-print bb_data.logfile line s)
      ∙ append_assoc (is.lines bb_data.logfile s) (line ∷ []) lines
