-- ===== src/Storage/Block.antt =====
-- The functions of cfs/src/storage.c on the data of a block.
use fusefs_block.Base.{
  ℕ, Bool, none, some, [], ◌==◌, if◌then◌else◌, ℤ, pos, negsuc, to_int, to_size, take, Bytes,
  word_bytes,
}
use fusefs_block.Posix.{
  Posix, ok, fail, seek_set, seek_end, f_rdlck, f_wrlck, f_unlck, f_ulock, f_ofd_setlkw, M, pure,
  call, ◌>>=◌, ◌>>◌,
}
use fusefs_block.Io.{minus_one, file_exists, s_lseek, s_read, s_write}
use fusefs_block.Storage.{
  BlkStore, Loaded, nothing_loaded, is_positive, block_path, block_size, ref_size, data_start,
  read_only, read_write_create, whole_file, give_up,
}

module _ (os : Posix) (fuel : ℕ) where
  unfoldable pub block_get_size : BlkStore → Bytes → M os.State ℤ
  block_get_size storage hash = do
    r ← call (os.open_file (block_path storage hash) read_only 0)
    elim r [
      | fail errno ↦ pure minus_one
      | ok fd ↦ do
        l ← call (os.lock_file (pos fd) f_ofd_setlkw (whole_file f_rdlck))
        elim l [
          | fail errno ↦ give_up os fd
          | ok _ ↦ do
            s_lseek os fuel (pos fd) (pos data_start) seek_set
            ret ← s_lseek os fuel (pos fd) (pos 0) seek_end
            u ← call (os.lock_file (pos fd) f_ofd_setlkw (whole_file f_ulock))
            elim u [
              | fail errno ↦ give_up os fd
              | ok _ ↦ do call (os.close_file (pos fd)); pure ret
            ]
        ]
    ]

  unfoldable pub block_exists : BlkStore → Bytes → M os.State Bool
  block_exists storage hash = file_exists os (block_path storage hash)

  -- The counter and the data are written to the new file, and it is unlocked and closed.
  unfoldable pub store_write : ℕ → Bytes → ℕ → M os.State ℤ
  store_write fd buffer size = do
    n ← s_write os fuel (pos fd) (word_bytes ref_size 1)
    if to_size (to_int n) == ref_size
        then (do
          m ← s_write os fuel (pos fd) (take size buffer)
          if to_size (to_int m) == size
              then (do
                u ← call (os.lock_file (pos fd) f_ofd_setlkw (whole_file f_ulock))
                elim u [
                  | fail errno ↦ give_up os fd
                  | ok _ ↦ do call (os.close_file (pos fd)); pure (to_int m)
                ])
              else give_up os fd)
        else give_up os fd

  unfoldable pub store_block : BlkStore → Bytes → ℕ → Bytes → M os.State ℤ
  store_block storage buffer size hash = do
    there ← file_exists os (block_path storage hash)
    if there then pure (pos 0) else (do
      r ← call (os.open_file (block_path storage hash) read_write_create 384)
      elim r [
        | fail errno ↦ pure minus_one
        | ok fd ↦ do
          l ← call (os.lock_file (pos fd) f_ofd_setlkw (whole_file f_wrlck))
          elim l [ fail errno ↦ give_up os fd | ok _ ↦ store_write fd buffer size ]
      ])

  -- `close(fd); return -1;` with what the pointers have received.
  abbrev pub give_up_load : ℕ → Bytes → Bytes → M os.State Loaded
  give_up_load fd refs bytes = do
    call (os.close_file (pos fd))
    pure (record { ret = minus_one; bytes = bytes; size = none; refs = refs })

  unfoldable pub load_read : ℕ → M os.State Loaded
  load_read fd = do
    s_lseek os fuel (pos fd) (pos 0) seek_set
    (n, refs) ← s_read os fuel (pos fd) ref_size
    if is_positive n
        then (do
          s_lseek os fuel (pos fd) (pos data_start) seek_set
          (m, bytes) ← s_read os fuel (pos fd) block_size
          if is_positive m
              then (do
                u ← call (os.lock_file (pos fd) f_ofd_setlkw (whole_file f_unlck))
                elim u [
                  | fail errno ↦ do
                    call (os.close_file (pos fd))
                    pure (record {
                      ret = minus_one;
                      bytes = bytes;
                      size = some (to_size m);
                      refs = refs;
                    })
                  | ok _ ↦ do
                    call (os.close_file (pos fd))
                    pure (record {
                      ret = pos 0;
                      bytes = bytes;
                      size = some (to_size m);
                      refs = refs;
                    })
                ])
              else give_up_load fd refs bytes)
        else give_up_load fd refs []

  unfoldable pub load_block : BlkStore → Bytes → M os.State Loaded
  load_block storage hash = do
    there ← file_exists os (block_path storage hash)
    if there
        then (do
          r ← call (os.open_file (block_path storage hash) read_only 0)
          elim r [
            | fail errno ↦ pure (nothing_loaded minus_one)
            | ok fd ↦ do
              l ← call (os.lock_file (pos fd) f_ofd_setlkw (whole_file f_rdlck))
              elim l [ fail errno ↦ give_up_load fd [] [] | ok _ ↦ load_read fd ]
          ])
        else pure (nothing_loaded (negsuc 16))
