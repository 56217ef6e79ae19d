-- ===== src/Tests/Reach.antt =====
-- A file is opened and closed, in the table of open files of cfs/src/cfs.c, on a system in memory.
use fusefs_block.Base.{
  true, refl, none, some, List, [], ◌∷◌, arith, pos, negsuc, replicate, Bytes, CString,
}
use fusefs_block.Posix.{rd_only}
use fusefs_block.Posix.View.{View, Descriptor, find_fd, moved, put_file, put_file_self}
use fusefs_block.Posix.Runs.{Ends}
use fusefs_block.Posix.Memory.{Memory, memory_os, memory_os-IsPosix}
use fusefs_block.Storage.{BlkStore}
use fusefs_block.Cfs.{CfsFile, CfsState, Garbage}
use fusefs_block.Cfs.Table.{initial_state, cfs_register_file, cfs_release_file, cfs_get_file}
use fusefs_block.Cfs.Invariant.{initial-IsTable}
use fusefs_block.Cfs.Register.{Registered, cfs_register_file_lem}
use fusefs_block.Cfs.Reach.{
  Event, opened, closed, open_path, register, release, Reach, here, next, Represents,
  Reach-Represents,
}

abbrev path : CString
path = b'f' ∷ []

abbrev contents : Bytes
contents = replicate 23 0

abbrev at_start : Descriptor
at_start = record { file = some path; offset = 0; access = rd_only }

abbrev view : View
view = record {
  files = put_file path (some contents) (λ p. none);
  descriptors = (3, at_start) ∷ [];
}

abbrev memory : Memory
memory = record { shown = view; signals = 2 }

abbrev storage : BlkStore
storage = record { root_path = []; blocks_path = []; block_fname_size = 54 }

abbrev some_file : CfsFile
some_file = record { path = []; offset = pos 1; size = negsuc 4; total_blocks = pos 7; fd = pos 4 }

abbrev garbage : Garbage
garbage = record {
  file = some_file;
  fd = pos 0;
  index = pos 5;
  hash = [];
  magic_buff = [];
  refs_valid = true;
  sign_extended = true;
}

abbrev start : CfsState
start = initial_state garbage (pos 1024) storage

-- The table with the file.
with_file :
    (after : CfsState) × Ends
      (memory_os-IsPosix none none)
      2
      (cfs_register_file (memory_os none none) 20 garbage start path (pos 3))
      memory
      (pos 3, after)
      (moved view 3 23)
    × Registered start after path 3 contents
unfolding cfs_get_file find_fd initial_state
with_file =
    cfs_register_file_lem (memory_os-IsPosix none none) 2 20 garbage start path 3 memory at_start
      path contents (initial-IsTable garbage (pos 1024) storage) (omega arith) refl refl refl refl
      (put_file_self _ _ _) (omega arith) (omega arith) (omega arith)

-- A release of a descriptor that is not in the table, and then the file.
abbrev events : List Event
events = opened 3 path ∷ closed 7 ∷ []

with_file-Reach : Reach (memory_os none none) start events with_file.0
unfolding cfs_get_file cfs_release_file initial_state
with_file-Reach = next (next here (release 7 (negsuc 0) (omega arith) refl)) (
    register garbage 20 3 path (pos 3) memory with_file.1.after (omega arith) refl
      with_file.1.returns)

Reach-Represents_example : Represents with_file.0 (open_path (opened 3 path ∷ closed 7 ∷ []))
Reach-Represents_example =
    Reach-Represents (memory_os none none) garbage (pos 1024) storage
      (opened 3 path ∷ closed 7 ∷ []) with_file.0 with_file-Reach
