-- ===== src/Storage/Counter.antt =====
-- The functions of cfs/src/storage.c on the reference counter of a block.
use fusefs_block.Base.{
  ℕ, ◌+◌, ◌-◌, ◌%◌, ◌^◌, ◌==◌, if◌then◌else◌, ℤ, pos, to_int, to_size, Bytes, CString, word_bytes,
  word_value,
}
use fusefs_block.Posix.{
  Posix, ok, fail, seek_set, f_rdlck, f_wrlck, f_unlck, f_setlkw, f_ofd_setlkw, M, pure, call,
  ◌>>=◌, ◌>>◌,
}
use fusefs_block.Io.{minus_one, s_lseek, s_read, s_write}
use fusefs_block.Storage.{
  BlkStore, Exit, value, exited, no_value, block_path, ref_size, read_only, read_write, refs_region,
  give_up,
}

module _ (os : Posix) (fuel : ℕ) where
  unfoldable pub block_get_refs : BlkStore → Bytes → M os.State Exit
  block_get_refs storage hash = do
    r ← call (os.open_file (block_path storage hash) read_only 0)
    elim r [
      | fail errno ↦ pure (value (to_size minus_one))
      | ok fd ↦ do
        l ← call (os.lock_file (pos fd) f_setlkw (refs_region f_rdlck))
        elim l [ fail errno ↦ pure exited | ok _ ↦ pure no_value ]
    ]

  -- Unlocks and closes; a failed unlock leaves the descriptor open.
  unfoldable pub dec_finish : ℕ → ℕ → M os.State ℤ
  dec_finish fd refs = do
    l ← call (os.lock_file (pos fd) f_ofd_setlkw (refs_region f_unlck))
    elim l [
      | fail errno ↦ pure minus_one
      | ok _ ↦ do call (os.close_file (pos fd)); pure (to_int (pos refs))
    ]

  -- Decreases and writes the counter, or deletes the file.
  unfoldable pub dec_write : CString → ℕ → ℕ → M os.State ℤ
  dec_write path fd refs =
      if refs == 0 then (do call (os.unlink_file path); dec_finish fd refs) else (do
        s_lseek os fuel (pos fd) (pos 0) seek_set
        n ← s_write os fuel (pos fd) (word_bytes ref_size refs)
        if to_size n == ref_size then dec_finish fd refs else give_up os fd)

  unfoldable pub block_dec_ref : BlkStore → Bytes → M os.State ℤ
  block_dec_ref storage hash = do
    r ← call (os.open_file (block_path storage hash) read_write 0)
    elim r [
      | fail errno ↦ pure minus_one
      | ok fd ↦ do
        l ← call (os.lock_file (pos fd) f_ofd_setlkw (refs_region f_wrlck))
        elim l [
          | fail errno ↦ give_up os fd
          | ok _ ↦ do
            s_lseek os fuel (pos fd) (pos 0) seek_set
            (n, buf) ← s_read os fuel (pos fd) ref_size
            if to_size n == ref_size
                then dec_write (block_path storage hash) fd ((word_value buf + 2 ^ 64 - 1) % 2 ^ 64)
                else give_up os fd
        ]
    ]

  -- Increases and writes the counter, unlocks and closes.
  unfoldable pub inc_write : ℕ → ℕ → M os.State ℤ
  inc_write fd refs = do
    s_lseek os fuel (pos fd) (pos 0) seek_set
    n ← s_write os fuel (pos fd) (word_bytes ref_size refs)
    if to_size n == ref_size
        then (do
          l ← call (os.lock_file (pos fd) f_ofd_setlkw (refs_region f_unlck))
          elim l [
            | fail errno ↦ give_up os fd
            | ok _ ↦ do call (os.close_file (pos fd)); pure (to_int (pos refs))
          ])
        else give_up os fd

  unfoldable pub block_inc_ref : BlkStore → Bytes → M os.State ℤ
  block_inc_ref storage hash = do
    r ← call (os.open_file (block_path storage hash) read_write 0)
    elim r [
      | fail errno ↦ pure minus_one
      | ok fd ↦ do
        l ← call (os.lock_file (pos fd) f_ofd_setlkw (refs_region f_wrlck))
        elim l [
          | fail errno ↦ give_up os fd
          | ok _ ↦ do
            s_lseek os fuel (pos fd) (pos 0) seek_set
            (n, buf) ← s_read os fuel (pos fd) ref_size
            if to_size n == ref_size
                then inc_write fd ((word_value buf + 1) % 2 ^ 64)
                else give_up os fd
        ]
    ]
