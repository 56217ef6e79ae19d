-- ===== src/Tests/Write.antt =====
-- The table of open files in which the file of the tests is registered.
use fusefs_block.Base.{◌≡◌, refl, some, [], ◌∷◌, pos}
use fusefs_block.Cfs.{CfsState}
use fusefs_block.Cfs.Table.{cfs_get_file}
use fusefs_block.Tests.Blocks.{storage, file}

abbrev pub table : CfsState
table = record {
  max_fds = pos 1024;
  storage = storage;
  files = file ∷ [];
  fds = pos 3 ∷ [];
  n_fds = 1;
  fds_cap = 1;
}

pub registered : cfs_get_file table (pos 3) ≡ some file
unfolding cfs_get_file
registered = refl
