-- ===== src/Storage/Contract.antt =====
-- What the block store of cfs/src/storage.c promises: blocks that are stored can be loaded, are
-- stored once, and are removed with their last reference.
use fusefs_block.Base.{
  ℕ, ◌+◌, ◌^◌, ◌≤◌, ◌<◌, ◌≡◌, refl, sym, ap, ◌∙◌, true, some, none, pos, negsuc, to_int, arith,
  length, take, Bytes, length-take,
}
use fusefs_block.Posix.{Posix, ◌>>◌}
use fusefs_block.Posix.View.{
  stored, unlinked, put_file, put_file_self, put_file-put_file, put_file_same,
}
use fusefs_block.Posix.Laws.{IsPosix}
use fusefs_block.Posix.Runs.{Runs, Ends, Runs-seq, Runs-cast}
use fusefs_block.Io.Write.{IsWhole}
use fusefs_block.Storage.{BlkStore, block_path, block_size, nothing_loaded}
use fusefs_block.Storage.Counter.{block_inc_ref, block_dec_ref}
use fusefs_block.Storage.Block.{store_block, load_block, block_get_size}
use fusefs_block.Storage.Refs.{
  block_file, incremented, decremented, Runs-block_inc_ref, Runs-block_dec_ref,
  Runs-block_dec_ref_last,
}
use fusefs_block.Storage.Blocks.{
  loaded, Runs-store_block_new, Runs-store_block_known, Runs-load_block, Runs-load_block_missing,
  Runs-block_get_size,
}

module _ {os : Posix} (law : IsPosix os) (whole : IsWhole os) (signals fuel : ℕ)
    (enough : block_size + signals < fuel) (storage : BlkStore) (s : os.State)
    (calm : law.pending s ≤ signals) where
  -- A block of 1 to 4096 bytes whose name is not taken is stored, and `load_block` with the same
  -- hash then returns 0 with its bytes, their number and one reference. The file of the block
  -- holds the counter 1 and the bytes, and nothing else changes. This is on a system whose writes
  -- take all bytes of a call that is not interrupted, with more fuel than 4096 and the pending
  -- signals together, and for a path in a directory that the process may change.
  pub store-load :
      (buffer : Bytes) (size : ℕ) (hash : Bytes)
      → law.usable (block_path storage hash) ≡ true
      → (law.view s).files (block_path storage hash) ≡ none
      → 0 < size
      → size ≤ block_size
      → size ≤ length buffer
      → Ends law signals
          (store_block os fuel storage buffer size hash >> load_block os fuel storage hash)
          s
          (loaded 1 (take size buffer))
          (stored (law.view s) (block_path storage hash) (some (block_file 1 (take size buffer))))
  store-load buffer size hash u absent sl le fits =
      (Runs-seq
          (Runs-store_block_new law whole fuel enough storage hash (law.view s) u buffer size absent
            sl le fits)
          (Runs-load_block law whole fuel enough storage hash _ u 1 (take size buffer)
            (put_file_self _ _ _) (omega (arith, length-take size buffer)))).from
        s refl calm

  -- A block is stored once: a second block under the same name leaves the system as the first
  -- left it, and its result is 0. This is on a system whose writes take all bytes of a call that
  -- is not interrupted, with more fuel than 4096 and the pending signals together, and for a path
  -- in a directory that the process may change. The block has 1 to 4096 bytes, and its name is
  -- not taken before.
  pub store-store :
      (buffer : Bytes) (size : ℕ) (hash buffer' : Bytes) (size' : ℕ)
      → law.usable (block_path storage hash) ≡ true
      → (law.view s).files (block_path storage hash) ≡ none
      → 0 < size
      → size ≤ block_size
      → size ≤ length buffer
      → Ends law signals
          (store_block os fuel storage buffer size hash
            >> store_block os fuel storage buffer' size' hash)
          s
          (pos 0)
          (stored (law.view s) (block_path storage hash) (some (block_file 1 (take size buffer))))
  store-store buffer size hash buffer' size' u absent sl le fits =
      (Runs-seq
          (Runs-store_block_new law whole fuel enough storage hash (law.view s) u buffer size absent
            sl le fits)
          (Runs-store_block_known law whole fuel enough storage hash _ u buffer' size'
            (put_file_self _ _ _))).from
        s refl calm

  -- Taking and dropping a reference of a block with `refs` references, where `refs` is positive
  -- and `refs + 1` fits a `size_t`, leaves everything as it was, and the result is `(int) refs`.
  -- This is on a system whose writes take all bytes of a call that is not interrupted, with more
  -- fuel than 4096 and the pending signals together, and for a path in a directory that the
  -- process may change.
  pub dec-inc :
      (hash : Bytes) (refs : ℕ) (buffer : Bytes)
      → law.usable (block_path storage hash) ≡ true
      → (law.view s).files (block_path storage hash) ≡ some (block_file refs buffer)
      → 0 < refs
      → refs + 1 < 2 ^ 64
      → Ends law signals
          (block_inc_ref os fuel storage hash >> block_dec_ref os fuel storage hash)
          s
          (to_int (pos refs))
          (law.view s)
  dec-inc hash refs buffer u h some_refs fits =
      (Runs-seq
          (Runs-block_inc_ref law whole fuel (omega arith) storage hash (law.view s) u refs buffer
            (omega arith) h)
          (Runs-cast (ap (λ n. to_int (pos n)) back) same (
            Runs-block_dec_ref law whole fuel (omega arith) storage hash _ u (incremented refs)
              buffer (unfold incremented in omega arith) (put_file_self _ _ _)
              (rw back (omega arith))))).from
        s refl calm
    where
      back : decremented (incremented refs) ≡ refs
      back = unfold incremented decremented in omega arith

      same :
          stored
            (stored
              (law.view s)
              (block_path storage hash)
              (some (block_file (incremented refs) buffer)))
            (block_path storage hash)
            (some (block_file (decremented (incremented refs)) buffer))
          ≡ law.view s
      same =
          ap (λ f. record (law.view s) { files = f })
            (put_file-put_file _ _ _ _
              ∙ ap
                  (λ n.
                    put_file (block_path storage hash) (some (block_file n buffer))
                      (law.view s).files)
                  back
              ∙ ap (λ c. put_file (block_path storage hash) c (law.view s).files) (sym h)
              ∙ put_file_same _ _)

  -- A block is stored, and loses its reference.
  Runs-store_dec :
      (buffer : Bytes) (size : ℕ) (hash : Bytes)
      → law.usable (block_path storage hash) ≡ true
      → (law.view s).files (block_path storage hash) ≡ none
      → 0 < size
      → size ≤ block_size
      → size ≤ length buffer
      → Runs law signals
          (store_block os fuel storage buffer size hash >> block_dec_ref os fuel storage hash)
          (law.view s)
          (pos 0)
          (record (unlinked (law.view s) (block_path storage hash)) { files = (law.view s).files })
  Runs-store_dec buffer size hash u absent sl le fits =
      Runs-seq
        (Runs-store_block_new law whole fuel enough storage hash (law.view s) u buffer size absent
          sl le fits)
        (Runs-cast refl gone (
          Runs-block_dec_ref_last law whole fuel (omega arith) storage hash _ u 1 (take size buffer)
            (omega arith) (put_file_self _ _ _) (unfold decremented in refl)))
    where
      gone :
          unlinked
            (stored (law.view s) (block_path storage hash) (some (block_file 1 (take size buffer))))
            (block_path storage hash)
          ≡ record (unlinked (law.view s) (block_path storage hash)) { files = (law.view s).files }
      gone =
          ap (λ f. record (unlinked (law.view s) (block_path storage hash)) { files = f })
            (put_file-put_file _ _ _ _
              ∙ ap (λ c. put_file (block_path storage hash) c (law.view s).files) (sym absent)
              ∙ put_file_same _ _)

  -- A block that is stored and then loses its reference is gone, and the result is 0: the files
  -- are as before. Open descriptors of its path, if there are any, lose it. This is on a system
  -- whose writes take all bytes of a call that is not interrupted, with more fuel than 4096 and
  -- the pending signals together, and for a path in a directory that the process may change. The
  -- block has 1 to 4096 bytes, and its name is not taken before.
  pub dec-store :
      (buffer : Bytes) (size : ℕ) (hash : Bytes)
      → law.usable (block_path storage hash) ≡ true
      → (law.view s).files (block_path storage hash) ≡ none
      → 0 < size
      → size ≤ block_size
      → size ≤ length buffer
      → Ends law signals
          (store_block os fuel storage buffer size hash >> block_dec_ref os fuel storage hash)
          s
          (pos 0)
          (record (unlinked (law.view s) (block_path storage hash)) { files = (law.view s).files })
  dec-store buffer size hash u absent sl le fits =
      (Runs-store_dec buffer size hash u absent sl le fits).from s refl calm

  -- A block that has been stored and has lost its only reference cannot be loaded: `load_block`
  -- returns -EEXIST and assigns nothing, and the files are as before the block was stored. Open
  -- descriptors of its path, if there are any, lose it. The conditions are those of `dec-store`.
  pub load-dec :
      (buffer : Bytes) (size : ℕ) (hash : Bytes)
      → law.usable (block_path storage hash) ≡ true
      → (law.view s).files (block_path storage hash) ≡ none
      → 0 < size
      → size ≤ block_size
      → size ≤ length buffer
      → Ends law signals
          ((store_block os fuel storage buffer size hash >> block_dec_ref os fuel storage hash)
            >> load_block os fuel storage hash)
          s
          (nothing_loaded (negsuc 16))
          (record (unlinked (law.view s) (block_path storage hash)) { files = (law.view s).files })
  load-dec buffer size hash u absent sl le fits =
      (Runs-seq (Runs-store_dec buffer size hash u absent sl le fits)
          (Runs-load_block_missing law whole fuel enough storage hash _ u absent)).from
        s refl calm

  -- Right after a block of `size` bytes is stored, `block_get_size` returns `size + 8`: the
  -- length of the whole file, the reference counter included. This is on a system whose writes
  -- take all bytes of a call that is not interrupted, with more fuel than 4096 and the pending
  -- signals together, and for a path in a directory that the process may change. The block has 1
  -- to 4096 bytes, and its name is not taken before.
  pub get_size-store :
      (buffer : Bytes) (size : ℕ) (hash : Bytes)
      → law.usable (block_path storage hash) ≡ true
      → (law.view s).files (block_path storage hash) ≡ none
      → 0 < size
      → size ≤ block_size
      → size ≤ length buffer
      → Ends law signals
          (store_block os fuel storage buffer size hash >> block_get_size os fuel storage hash)
          s
          (pos (size + 8))
          (stored (law.view s) (block_path storage hash) (some (block_file 1 (take size buffer))))
  get_size-store buffer size hash u absent sl le fits =
      (Runs-seq
          (Runs-store_block_new law whole fuel enough storage hash (law.view s) u buffer size absent
            sl le fits)
          (Runs-cast (ap pos len) refl (
            Runs-block_get_size law whole fuel enough storage hash _ u 1 (take size buffer)
              (put_file_self _ _ _) (omega (arith, length-take size buffer))))).from
        s refl calm
    where
      len : 8 + length (take size buffer) ≡ size + 8
      len = omega (arith, length-take size buffer)
