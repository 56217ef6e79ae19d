-- ===== src/Tests/Refused.antt =====
-- `bb_write` of cfs/src/bbfs.c on a system that opens no file.
use fusefs_block.Base.{◌≡◌, refl, false, none, some, arith, pos, replicate}
use fusefs_block.Posix.{Posix, fail}
use fusefs_block.Posix.Memory.{memory_os}
use fusefs_block.Fuse.Data.{bb_write}
use fusefs_block.Fuse.Refused.{IsRefused, bb_write_refused}
use fusefs_block.Tests.Blocks.{file, garbage, sha1, memory}
use fusefs_block.Tests.Write.{table, registered}

-- EACCES for every path.
abbrev refusing_os : Posix
refusing_os = record (memory_os none none) {
  open_file = λ p f mode s. (fail 13, s);
  access_f_ok = λ p s. (false, s);
}

table-IsRefused : IsRefused refusing_os table
table-IsRefused = record { unknown = λ hash s. refl; errno = λ hash. 13; refused = λ hash s. refl }

bb_write_refused_example :
    bb_write refusing_os 20 garbage sha1 table (pos 3) (replicate 5000 7) 5000 24576 memory
    ≡ some ((pos 5000, table), memory)
bb_write_refused_example =
    bb_write_refused refusing_os 20 garbage sha1 table table-IsRefused file (pos 3)
      (replicate 5000 7) 5000 6 2 memory registered (omega arith) (omega arith) (omega arith)
