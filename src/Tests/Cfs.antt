-- ===== src/Tests/Cfs.antt =====
-- The table of open files of cfs/src/cfs.c on a system in memory.
use fusefs_block.Base.{
  true, ℕ, ◌+◌, ◌≡◌, ◌≢◌, refl, none, some, [], ◌∷◌, ◌++◌, arith, pos, negsuc, replicate, Bytes,
  CString,
}
use fusefs_block.Posix.{rd_only, wr_only, ◌>>◌}
use fusefs_block.Posix.View.{View, Descriptor, find_fd, moved, put_file, put_file_self}
use fusefs_block.Posix.Runs.{Ends}
use fusefs_block.Posix.Memory.{Memory, memory_os, memory_os-IsPosix, next_fd}
use fusefs_block.Storage.{BlkStore}
use fusefs_block.Cfs.{CfsFile, CfsState, Garbage}
use fusefs_block.Cfs.Table.{cfs_register_file, cfs_release_file, cfs_get_file}
use fusefs_block.Cfs.Slots.{used}
use fusefs_block.Cfs.Invariant.{IsTable}
use fusefs_block.Cfs.Register.{Registered, cfs_register_file_lem}
use fusefs_block.Io.Held.{at_offset}
use fusefs_block.Cfs.File.{cfs_create_file, cfs_file_stat}
use fusefs_block.Cfs.Create.{new_header, stat-create}
use fusefs_block.Cfs.Release.{cfs_release_file_lem}

abbrev path : CString
path = b'f' ∷ []

-- The magic string, the size 9, two blocks, and the start of a pair.
abbrev contents : Bytes
contents =
    b'C' ∷ b'F' ∷ b'S' ∷ b'0' ∷ b'.' ∷ b'1' ∷ 0 ∷ (9 ∷ replicate 7 0)
    ++ (2 ∷ replicate 7 0)
    ++ (1 ∷ [])

abbrev at_start : Descriptor
at_start = record { file = some path; offset = 0; access = rd_only }

abbrev view : View
view = record {
  files = put_file path (some contents) (λ p. none);
  descriptors = (3, at_start) ∷ [];
}

abbrev memory : Memory
memory = record { shown = view; signals = 2 }

abbrev storage : BlkStore
storage = record { root_path = []; blocks_path = []; block_fname_size = 54 }

abbrev some_file : CfsFile
some_file = record {
  path = path;
  offset = pos 1;
  size = negsuc 4;
  total_blocks = pos 7;
  fd = pos 4;
}

abbrev garbage : Garbage
garbage = record {
  file = some_file;
  fd = pos 0;
  index = pos 5;
  hash = [];
  magic_buff = [];
  refs_valid = true;
  sign_extended = true;
}

-- A table in which half of the entries are in use, by the descriptors 10 to 19.
abbrev half_full : CfsState
half_full = record {
  max_fds = pos 1024;
  storage = storage;
  files = replicate 20 some_file;
  fds_cap = 20;
  fds =
      pos 10
      ∷ pos 11
      ∷ pos 12
      ∷ pos 13
      ∷ pos 14
      ∷ pos 15
      ∷ pos 16
      ∷ pos 17
      ∷ pos 18
      ∷ pos 19
      ∷ replicate 10 (negsuc 0);
  n_fds = 10;
}

half_full-IsTable : IsTable half_full
unfolding used
half_full-IsTable = record {
  fds_length = refl;
  files_length = refl;
  even = refl;
  positive = omega arith;
  counted = refl;
  upper_free = refl;
}

-- The table is enlarged.
cfs_register_file_lem_example :
    (after : CfsState) × Ends
      (memory_os-IsPosix (some 2) none)
      2
      (cfs_register_file (memory_os (some 2) none) 20 garbage half_full path (pos 3))
      memory
      (pos 3, after)
      (moved view 3 23)
    × Registered half_full after path 3 contents
unfolding cfs_get_file find_fd
cfs_register_file_lem_example =
    cfs_register_file_lem (memory_os-IsPosix (some 2) none) 2 20 garbage half_full path 3 memory
      at_start path contents half_full-IsTable (omega arith) refl refl refl refl
      (put_file_self _ _ _) (omega arith) (omega arith) (omega arith)

cfs_release_file_lem_example :
    (after : CfsState) × (cfs_release_file half_full (pos 12) ≡ (pos 0, after))
    × IsTable after
    × (after.n_fds + 1 ≡ 10)
    × ((other : ℕ)
        → other ≢ 12
        → cfs_get_file after (pos other) ≡ cfs_get_file half_full (pos other))
unfolding cfs_get_file
cfs_release_file_lem_example =
    cfs_release_file_lem half_full 12 some_file half_full-IsTable (omega arith) refl

abbrev empty_memory : Memory
empty_memory = record { shown = record { files = λ p. none; descriptors = [] }; signals = 2 }

stat-create_example :
    Ends
      (memory_os-IsPosix (some 2) (some 2))
      2
      (cfs_create_file (memory_os (some 2) (some 2)) 20 path 420
        >> cfs_file_stat (memory_os (some 2) (some 2)) 20 garbage path some_file)
      empty_memory
      (pos 8, record some_file { size = pos 0; total_blocks = pos 0 })
      (record {
        files = put_file path (some new_header) (λ p. none);
        descriptors = (4, at_offset path rd_only 23) ∷ (3, at_offset path wr_only 23) ∷ [];
      })
unfolding next_fd
stat-create_example =
    stat-create (memory_os-IsPosix (some 2) (some 2)) 2 20 empty_memory path 420 garbage some_file
      refl refl refl (omega arith) (omega arith)
