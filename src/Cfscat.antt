-- ===== src/Cfscat.antt =====
-- cfs/src/cfscat.c: a program that prints the pairs of a CFS file. What it prints is a value.
pub mod Lines
pub mod Listing
use fusefs_block.Base.{
  ℕ, zero, suc, ◌+◌, ◌*◌, Bool, Option, none, some, List, [], ◌∷◌, ℤ, pos, negsuc, to_int, Bytes,
  CString,
}
use fusefs_block.Posix.{Posix, Sys, ok, fail, seek_set, M, pure, call, ◌>>=◌, ◌>>◌}
use fusefs_block.Io.{minus_one, s_lseek, s_read}
use fusefs_block.Util.{combine, hexify}
use fusefs_block.Storage.{hash_length, read_only}
use fusefs_block.Cfs.{CfsFile, CfsState, Garbage, block_start, off_size, overlay, put_off}
use fusefs_block.Cfs.Table.{cfs_init, cfs_register_file, cfs_get_file}

-- A line for a pair: what `printf` prints for `%d`, which takes an `int` of the `off_t` that it is
-- given, and for `%s`.
pub record Line : Type 0 where
  pub index : ℤ
  pub hash_text : CString

-- What is printed from the first call of `printf` on: the first line has the size, and the
-- number of blocks for `%d`. The messages that `cfs_register_file` and `cfs_get_file` print
-- before it on the same output, by the logger of Fakelog, are left out. The program crashes
-- where the table does not find the file that it has just been given.
pub data Output : Type 0 where
  crashed : Output
  printed : ℤ → ℤ → List Line → Output

-- `open` returns -1 if it fails, and the program goes on.
pub fd_of : Sys ℕ → ℤ
fd_of (ok fd) = pos fd
fd_of (fail errno) = minus_one

-- The rounds of `for (i = 0; i < total_blocks; i++)`.
pub rounds_of : ℤ → ℕ
rounds_of (pos n) = n
rounds_of (negsuc n) = 0

-- The text in `hex_buf`, whose contents are as before where `hexify` writes nothing.
pub text_of : Option CString → CString → CString
text_of none before = before
text_of (some text) before = text

module _ (os : Posix) (fuel : ℕ) where
  -- The loop over the pairs.
  unfoldable pub list_loop : ℕ → ℤ → ℤ → Bytes → CString → M os.State (List Line)
  unfolding text_of
  list_loop zero fd index_buf hash_buf hex_buf = pure []
  list_loop (suc rounds) fd index_buf hash_buf hex_buf = do
    (r, index_bytes) ← s_read os fuel fd off_size
    (r', hash_bytes) ← s_read os fuel fd hash_length
    let index = put_off index_buf index_bytes
    let hash = overlay hash_buf hash_bytes
    let text = text_of (hexify hash hash_length (hash_length * 2 + 1)).1 hex_buf
    lines ← list_loop rounds fd index hash text
    pure (record { index = to_int index; hash_text = text } ∷ lines)

module _ (os : Posix) (fuel : ℕ) (garbage : Garbage) where
  -- From the call of `open` on; the table is the one that `cfs_init` left.
  unfoldable pub list_file : CfsState → CString → CString → M os.State Output
  unfolding fd_of rounds_of
  list_file state root name = do
    r ← call (os.open_file (combine (some root) (some name)) read_only 0)
    (_, state') ←
        cfs_register_file os fuel garbage state (combine (some root) (some name)) (fd_of r)
    elim (cfs_get_file state' (fd_of r)) [
      | none ↦ pure crashed
      | some file ↦ do
        s_lseek os fuel (fd_of r) (pos block_start) seek_set
        lines ←
            list_loop os fuel (rounds_of file.total_blocks) (fd_of r) garbage.index garbage.hash []
        pure (printed file.size (to_int file.total_blocks) lines)
    ]

  -- `root` is what `realpath` gives for the first argument; `unset` is the table where `cfs_init`
  -- fails, whose result is not looked at.
  unfoldable pub main : ℤ → Bool → CfsState → CString → CString → M os.State Output
  main max_fds allocated unset root name = do
    (code, state) ← cfs_init os fuel garbage max_fds allocated root
    list_file (elim state [ none ↦ unset | some st ↦ st ]) root name
