-- ===== src/Tests/Pairs.antt =====
-- `cfs_file_find_index` of cfs/src/cfs.c on a file with two pairs, on a system in memory.
use fusefs_block.Base.{
  true, refl, none, some, List, [], ◌∷◌, ◌++◌, arith, pos, to_size, replicate, word_bytes, Bytes,
  CString,
}
use fusefs_block.Posix.{rd_wr}
use fusefs_block.Posix.View.{View, Descriptor, find_fd, moved, put_file, put_file_self}
use fusefs_block.Posix.Runs.{Ends}
use fusefs_block.Posix.Memory.{Memory, memory_os, memory_os-IsPosix}
use fusefs_block.Cfs.{CfsFile, Garbage, off_bytes}
use fusefs_block.Cfs.Blocks.{cfs_file_find_index}
use fusefs_block.Cfs.Pairs.{Pair, IsPair, pairs_bytes, search, cfs_file_find_index_lem}

abbrev path : CString
path = b'f' ∷ []

abbrev pairs : List Pair
pairs =
    record { index = pos 5; hash = replicate 20 1 }
    ∷ record { index = pos 2; hash = replicate 20 3 }
    ∷ []

-- A header, whose contents the search does not read, and the pairs.
abbrev contents : Bytes
contents = replicate 23 0 ++ pairs_bytes pairs

abbrev at_end : Descriptor
at_end = record { file = some path; offset = 79; access = rd_wr }

abbrev view : View
view = record { files = put_file path (some contents) (λ p. none); descriptors = (3, at_end) ∷ [] }

abbrev memory : Memory
memory = record { shown = view; signals = 2 }

abbrev file : CfsFile
file = record { path = path; offset = pos 0; size = pos 9; total_blocks = pos 2; fd = pos 3 }

abbrev garbage : Garbage
garbage = record {
  file = file;
  fd = pos 0;
  index = pos 5;
  hash = [];
  magic_buff = [];
  refs_valid = true;
  sign_extended = true;
}

both-IsPair :
    IsPair (record { index = pos 5; hash = replicate 20 1 })
    × IsPair (record { index = pos 2; hash = replicate 20 3 })
unfolding to_size
both-IsPair = (
  record { hash_length = refl; index_fits = refl; word_fits = omega arith },
  record { hash_length = refl; index_fits = refl; word_fits = omega arith },
)

-- The second pair is found.
cfs_file_find_index_lem_example :
    Ends
      (memory_os-IsPosix (some 2) none)
      2
      (cfs_file_find_index (memory_os (some 2) none) 20 garbage file (pos 2))
      memory
      (pos 1)
      (moved view 3 59)
unfolding find_fd search pairs_bytes off_bytes word_bytes to_size
cfs_file_find_index_lem_example =
    cfs_file_find_index_lem (memory_os-IsPosix (some 2) none) 2 20 3 memory at_end path contents
      garbage file (pos 2) pairs refl refl refl (put_file_self _ _ _) (omega arith) (omega arith)
      (omega arith) (omega arith) refl (both-IsPair.0, (both-IsPair.1, tt)) refl refl refl
