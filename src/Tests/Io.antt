-- ===== src/Tests/Io.antt =====
-- `s_read` and `s_write` of cfs/src/io.c on a system in memory that transfers at most three
-- bytes at a time and is interrupted by two signals.
use fusefs_block.Base.{refl, none, some, [], ◌∷◌, arith, pos, Bytes, CString}
use fusefs_block.Posix.{rd_wr}
use fusefs_block.Posix.View.{View, Descriptor, find_fd, moved, put_file, put_file_self}
use fusefs_block.Posix.Runs.{Ends}
use fusefs_block.Posix.Memory.{Memory, memory_os, memory_os-IsPosix}
use fusefs_block.Io.{s_read}
use fusefs_block.Io.Contract.{s_read_full}

abbrev path : CString
path = b'f' ∷ []

abbrev contents : Bytes
contents = 10 ∷ 11 ∷ 12 ∷ 13 ∷ 14 ∷ 15 ∷ []

abbrev at_one : Descriptor
at_one = record { file = some path; offset = 1; access = rd_wr }

abbrev view : View
view = record { files = put_file path (some contents) (λ p. none); descriptors = (3, at_one) ∷ [] }

abbrev memory : Memory
memory = record { shown = view; signals = 2 }

abbrev buffer : Bytes
buffer = 1 ∷ 2 ∷ 3 ∷ 4 ∷ 5 ∷ []

s_read_full_example :
    Ends
      (memory_os-IsPosix (some 2) (some 2))
      2
      (s_read (memory_os (some 2) (some 2)) 20 (pos 3) 4)
      memory
      (pos 4, 11 ∷ 12 ∷ 13 ∷ 14 ∷ [])
      (moved view 3 5)
unfolding find_fd
s_read_full_example =
    s_read_full (memory_os-IsPosix (some 2) (some 2)) 2 20 3 4 memory at_one path contents refl refl
      refl (put_file_self _ _ _) (omega arith) (omega arith)
