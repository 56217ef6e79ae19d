-- ===== src/Tests/Session.antt =====
-- Sessions of callbacks of cfs/src/bbfs.c on a system in memory that has no files.
use fusefs_block.Base.{true, ◌≡◌, refl, none, some, arith, [], ◌∷◌, pos, negsuc, replicate, CString}
use fusefs_block.Posix.{ok, rd_only, ◌>>◌}
use fusefs_block.Posix.View.{View, stored, unlinked, put_file_self}
use fusefs_block.Posix.Runs.{Ends}
use fusefs_block.Posix.Memory.{Memory, memory_os, memory_os-IsPosix, next_fd}
use fusefs_block.Log.{log_syscall}
use fusefs_block.Io.Held.{holding}
use fusefs_block.Cfs.{CfsFile, CfsState, Garbage}
use fusefs_block.Cfs.Table.{initial_state, cfs_get_file}
use fusefs_block.Cfs.Create.{new_header}
use fusefs_block.Fuse.{bb_fullpath, bb_mknod, regular, bb_open, bb_unlink, bb_getattr, Stat}
use fusefs_block.Fuse.Made.{bb_getattr-bb_mknod}
use fusefs_block.Fuse.Errors.{bb_mknod-bb_mknod, bb_open-bb_unlink}
use fusefs_block.Tests.Blocks.{storage}

abbrev pub rootdir : CString
rootdir = b'/' ∷ b'r' ∷ []

abbrev pub path : CString
path = b'/' ∷ b'f' ∷ []

abbrev pub full : CString
full = b'/' ∷ b'r' ∷ b'/' ∷ b'f' ∷ []

pub full_same : bb_fullpath rootdir path ≡ full
unfolding bb_fullpath
full_same = refl

abbrev pub memory : Memory
memory = record { shown = record { files = λ p. none; descriptors = [] }; signals = 2 }

abbrev some_file : CfsFile
some_file = record { path = []; offset = pos 1; size = negsuc 4; total_blocks = pos 7; fd = pos 4 }

abbrev pub garbage : Garbage
garbage = record {
  file = some_file;
  fd = pos 0;
  index = pos 5;
  hash = replicate 20 0;
  magic_buff = [];
  refs_valid = true;
  sign_extended = true;
}

abbrev statbuf : Stat
statbuf = record { st_size = pos 7; st_blksize = pos 7; st_blocks = pos 7 }

abbrev pub made : View
made = stored memory.shown (bb_fullpath rootdir path) (some new_header)

bb_getattr-bb_mknod_example :
    Ends
      (memory_os-IsPosix (some 2) (some 2))
      2
      (bb_mknod (memory_os (some 2) (some 2)) 20 garbage rootdir path regular 420 (ok 0) (ok 0)
        >> bb_getattr (memory_os (some 2) (some 2)) 20 garbage rootdir path (ok 0) statbuf)
      memory
      (pos 0, record { st_size = pos 0; st_blksize = pos 4096; st_blocks = pos 0 })
      (holding made 3 (bb_fullpath rootdir path) rd_only 23)
unfolding next_fd log_syscall
bb_getattr-bb_mknod_example =
    bb_getattr-bb_mknod (memory_os-IsPosix (some 2) (some 2)) 2 20 (omega arith) garbage rootdir
      path 420 (ok 0) (ok 0) (ok 0) statbuf refl refl memory refl (omega arith)

abbrev pub start : CfsState
start = initial_state garbage (pos 1024) storage

pub unknown : cfs_get_file start (pos 3) ≡ none
unfolding cfs_get_file initial_state
unknown = refl

bb_mknod-bb_mknod_example :
    Ends
      (memory_os-IsPosix (some 2) (some 2))
      2
      (bb_mknod (memory_os (some 2) (some 2)) 20 garbage rootdir path regular 420 (ok 0) (ok 0)
        >> bb_mknod (memory_os (some 2) (some 2)) 20 garbage rootdir path regular 384 (ok 0) (ok 0))
      memory
      (negsuc 16)
      made
bb_mknod-bb_mknod_example =
    bb_mknod-bb_mknod (memory_os-IsPosix (some 2) (some 2)) 2 20 (omega arith) garbage rootdir path
      420 384 (ok 0) (ok 0) memory refl refl refl (omega arith)

bb_open-bb_unlink_example :
    Ends
      (memory_os-IsPosix none none)
      2
      (bb_unlink (memory_os none none) 20 garbage rootdir path
        >> bb_open (memory_os none none) 20 garbage rootdir start path)
      (record { shown = made; signals = 2 })
      (record { retstat = negsuc 1; fh = negsuc 1; state = start })
      (unlinked made (bb_fullpath rootdir path))
bb_open-bb_unlink_example =
    bb_open-bb_unlink (memory_os-IsPosix none none) 2 20 (omega arith) garbage rootdir path start
      new_header (record { shown = made; signals = 2 }) refl (put_file_self _ _ _) (omega arith)
