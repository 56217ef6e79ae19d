-- ===== src/Cfs.antt =====
-- cfs/src/cfs.h: files that are made of blocks. A CFS file starts with a magic string, its size
-- and its number of blocks; pairs of a block index and the hash of the block follow.
pub mod Table
pub mod Slots
pub mod Header
pub mod Invariant
pub mod Entries
pub mod Register
pub mod Release
pub mod Once
pub mod Entering
pub mod Reach
pub mod Create
pub mod Pairs
pub mod Image
pub mod Search
pub mod Append
pub mod Load
pub mod Replace
pub mod Contract
pub mod Present
pub mod Unread
pub mod File
pub mod Blocks
use fusefs_block.Base.{
  ℕ, zero, suc, ◌+◌, ◌*◌, ◌==◌, ◌≡◌, Bool, true, if◌then◌else◌, List, [], ◌∷◌, ◌++◌, ℤ, pos,
  of_word, to_word, to_size, length, drop, Bytes, CString, word_bytes, word_value,
}
use fusefs_block.Storage.{BlkStore}

-- `MAGIC` and `sizeof(MAGIC)`, which counts the terminator; `sizeof(off_t)`.
abbrev pub magic : CString
magic = b'C' ∷ b'F' ∷ b'S' ∷ b'0' ∷ b'.' ∷ b'1' ∷ []

abbrev pub magic_size : ℕ
magic_size = 7

abbrev pub off_size : ℕ
off_size = 8

abbrev pub size_start : ℕ
size_start = magic_size

abbrev pub block_start : ℕ
block_start = off_size * 2 + magic_size

abbrev pub fds_store_initial : ℕ
fds_store_initial = 20

-- `cfs_file_t`
pub record CfsFile : Type 0 where
  pub path : CString
  pub offset : ℤ
  pub size : ℤ
  pub total_blocks : ℤ
  pub fd : ℤ

-- `cfs_block_t`; `buffer` is `data`, of 4096 bytes.
pub record CfsBlock : Type 0 where
  pub index : ℤ
  pub size : ℕ
  pub buffer : Bytes

-- `cfs_state_t`, without the mutex.
pub record CfsState : Type 0 where
  pub max_fds : ℤ
  pub storage : BlkStore
  pub files : List CfsFile
  pub fds : List ℤ
  pub n_fds : ℕ
  pub fds_cap : ℕ

-- What C leaves undefined: fresh memory and local variables before they are assigned.
pub record Garbage : Type 0 where
  pub file : CfsFile
  pub fd : ℤ
  pub index : ℤ
  pub hash : Bytes
  pub magic_buff : Bytes
  -- Whether what stands in place of the argument that cfs.c:355 does not pass is the address of
  -- eight bytes that can be written.
  pub refs_valid : Bool
  -- Whether an `int` that is passed for an `off_t` arrives with its sign: io.h declares the offset
  -- of `s_lseek` as an `int`, io.c defines it as an `off_t` without including io.h.
  pub sign_extended : Bool

-- What a function that is called with `length hash` bytes of room and the missing argument needs.
pub record IsReadable (garbage : Garbage) : Type 0 where
  pub hash_length : length garbage.hash ≡ 20
  pub passed : garbage.refs_valid ≡ true

-- The offset that `s_lseek` gets for an `int`.
unfoldable pub int_offset : Garbage → ℤ → ℤ
int_offset garbage z = if garbage.sign_extended then z else pos (to_word 32 z)

-- A buffer whose first bytes a read has replaced.
unfoldable pub overlay : Bytes → Bytes → Bytes
overlay buf bytes = bytes ++ drop (length bytes) buf

-- An `off_t` variable whose first bytes a read has replaced, and its bytes in memory.
unfoldable pub put_off : ℤ → Bytes → ℤ
unfolding overlay
put_off z bytes = of_word 64 (word_value (overlay (word_bytes off_size (to_size z)) bytes))

unfoldable pub off_bytes : ℤ → Bytes
off_bytes z = word_bytes off_size (to_size z)

-- The C string in a buffer: what stands before the first NUL.
unfoldable pub c_string : Bytes → CString
c_string [] = []
c_string (b ∷ bs) = let rest = c_string bs in if b == 0 then [] else b ∷ rest
