-- ===== src/Storage.antt =====
-- cfs/src/storage.c: the block store. A block is a file of its own, named by the hexadecimal
-- text of its hash, which holds a reference counter (`size_t`) and the data. The children hold
-- the functions on blocks; this file has their types, names and set-up.
pub mod Counter
pub mod Block
pub mod Refs
pub mod Blocks
pub mod Names
pub mod Shared
pub mod Contract
use fusefs_block.Base.{
  ℕ, ◌+◌, ◌-◌, ◌*◌, ◌%◌, ◌^◌, Bool, true, false, not, Option, none, some, List, [], ◌∷◌, ltb, ◌==◌,
  if◌then◌else◌, ℤ, pos, negsuc, to_int, to_size, length, take, Bytes, CString, word_bytes,
  word_value,
}
use fusefs_block.Util.{combine, hexify}
use fusefs_block.Posix.{
  Posix, ok, fail, rd_only, rd_wr, OpenFlags, seek_set, seek_end, LockKind, f_rdlck, f_wrlck,
  f_unlck, f_ulock, Flock, f_setlkw, f_ofd_setlkw, M, pure, call, ◌>>=◌, ◌>>◌,
}
use fusefs_block.Io.{minus_one, file_exists, s_lseek, s_read, s_write}

-- `SHA_DIGEST_LENGTH`, `sizeof(size_t)` and `BLOCK_SIZE`.
abbrev pub hash_length : ℕ
hash_length = 20

abbrev pub ref_size : ℕ
ref_size = 8

abbrev pub data_start : ℕ
data_start = 0 + ref_size

abbrev pub block_size : ℕ
block_size = 4096

-- `".BLOCKS"`
abbrev pub blocks_directory : CString
blocks_directory = b'.' ∷ b'B' ∷ b'L' ∷ b'O' ∷ b'C' ∷ b'K' ∷ b'S' ∷ []

-- `cfs_blk_store_t`
pub record BlkStore : Type 0 where
  pub root_path : CString
  pub blocks_path : CString
  pub block_fname_size : ℕ

-- How a function without a `return` at its end leaves: `no_value` is undefined in C.
pub data Exit : Type 0 where
  value : ℕ → Exit
  exited : Exit
  no_value : Exit

-- What `load_block` leaves through its pointers: the bytes put into `data` and `refs`, and
-- `*size` where it is assigned.
pub record Loaded : Type 0 where
  pub ret : ℤ
  pub bytes : Bytes
  pub size : Option ℕ
  pub refs : Bytes

abbrev pub read_only : OpenFlags
read_only = record { access = rd_only; create = false; exclusive = false }

abbrev pub read_write : OpenFlags
read_write = record { access = rd_wr; create = false; exclusive = false }

abbrev pub read_write_create : OpenFlags
read_write_create = record { access = rd_wr; create = true; exclusive = false }

-- The refs region, and the whole file.
abbrev pub refs_region : LockKind → Flock
refs_region kind = record { l_type = kind; l_start = 0; l_len = ref_size }

abbrev pub whole_file : LockKind → Flock
whole_file kind = record { l_type = kind; l_start = 0; l_len = 0 }

-- `path`, from the hexadecimal text in `buff` that every function builds first.
unfoldable pub block_path : BlkStore → Bytes → CString
unfolding combine hexify
block_path storage hash =
    combine (some storage.blocks_path) (hexify hash hash_length (hash_length * 2)).1

-- `ret <= 0` fails.
abbrev pub is_positive : ℤ → Bool
is_positive (pos n) = ltb 0 n
is_positive (negsuc n) = false

abbrev pub nothing_loaded : ℤ → Loaded
nothing_loaded ret = record { ret = ret; bytes = []; size = none; refs = [] }

-- The sizes of the two buffers that hold paths. `sizeof(BLOCKS_DIRECTORY)` counts the NUL.
abbrev pub blocks_path_size : CString → ℕ
blocks_path_size root = length root + 8 + 1

abbrev pub init_paths : CString → BlkStore
init_paths root = record {
  root_path = root;
  blocks_path = combine (some root) (some blocks_directory);
  block_fname_size = length root + 1 + 8 + 1 + hash_length * 2 + 2;
}

module _ (os : Posix) where
  -- `close(fd); return -1;`
  abbrev pub give_up : ℕ → M os.State ℤ
  give_up fd = do call (os.close_file (pos fd)); pure minus_one

  -- `allocated` is whether both calls of `malloc` succeed.
  unfoldable pub init_storage : Bool → CString → M os.State (ℤ × Option BlkStore)
  init_storage false root = pure (minus_one, none)
  init_storage true root = do
    r ← call (os.stat_path (init_paths root).blocks_path)
    elim r [
      | ok _ ↦ pure (pos 1, some (init_paths root))
      | fail errno ↦ do
        call (os.make_dir (init_paths root).blocks_path 448)
        pure (pos 1, some (init_paths root))
    ]
