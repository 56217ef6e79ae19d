-- ===== src/Fuse/Refused.antt =====
-- `bb_write` of cfs/src/bbfs.c where the store refuses the blocks, as it does when its directory
-- may not be written.
use fusefs_block.Base.{
  ℕ, zero, suc, ◌+◌, ◌-◌, ◌*◌, ◌%◌, ◌^◌, ◌≤◌, ◌<◌, ◌≡◌, refl, false, Option, some, arith, ℤ, pos,
  to_int-pos, lt→ltb, le→ltb, min, Bytes,
}
use native.Mathlib.Decide.{dec_lt}
use fusefs_block.Posix.{Posix, M, fail, pure, call, ◌>>=◌}
use fusefs_block.Io.{minus_one, file_exists}
use fusefs_block.Storage.{block_path, block_size, read_write_create}
use fusefs_block.Storage.Block.{store_block}
use fusefs_block.Cfs.{CfsFile, CfsBlock, CfsState, Garbage}
use fusefs_block.Cfs.Table.{cfs_get_file}
use fusefs_block.Cfs.Blocks.{cfs_file_register_block}
use fusefs_block.Fuse.Data.{write_loop, bb_write}
use fusefs_block.Fuse.Entry.{put_entry_same}

-- No block is there, and none can be created; the attempts change nothing.
pub record IsRefused (os : Posix) (state : CfsState) : Type 0 where
  pub unknown :
      (hash : Bytes) (s : os.State) → os.access_f_ok (block_path state.storage hash) s ≡ (false, s)
  pub errno : Bytes → ℕ
  pub refused :
      (hash : Bytes) (s : os.State)
      → os.open_file (block_path state.storage hash) read_write_create 384 s
        ≡ (fail (errno hash), s)

-- A computation whose first part ends in a state.
after :
    {S A B : Type 0} (m : M S A) (f : A → M S B) {s t : S} {a : A} {r : Option (B × S)}
    → m s ≡ some (a, t)
    → f a t ≡ r
    → (m >>= f) s ≡ r
unfolding ◌>>=◌
after m f e h = rw (◌>>=◌, e) h

module _ (os : Posix) (fuel : ℕ) (garbage : Garbage) (sha1 : Bytes → Bytes) (state : CfsState)
    (refuses : IsRefused os state) where
  store_block_refused :
      (buffer : Bytes) (size : ℕ) (hash : Bytes) (s : os.State)
      → store_block os fuel state.storage buffer size hash s ≡ some (minus_one, s)
  unfolding store_block file_exists call ◌>>=◌ pure
  store_block_refused buffer size hash s =
      rw (store_block, refuses.unknown hash s, refuses.refused hash s) refl

  register_refused :
      (file : CfsFile) (block : CfsBlock) (s : os.State)
      → cfs_file_register_block os fuel sha1 garbage state.storage file block s
        ≡ some ((minus_one, file), s)
  unfolding cfs_file_register_block pure
  register_refused file block s = after _ _ (store_block_refused block.buffer block.size _ s) refl

  -- The rounds of a write over `m` blocks.
  write_loop_refused :
      (m rounds : ℕ) (file : CfsFile) (offset size current index : ℕ) (buf : Bytes) (s : os.State)
      → (current < offset + size → current % block_size ≡ 0)
      → offset ≤ current
      → offset + size ≤ current + block_size * m
      → m < rounds
      → write_loop os fuel garbage sha1 rounds state file offset size current index buf s
        ≡ some (file, s)
  unfolding write_loop pure
  write_loop_refused m zero file offset size current index buf s start before most lt =
      absurd (omega arith)
  write_loop_refused m (suc rounds) file offset size current index buf s start before most lt =
      elim (dec_lt current (offset + size)) [
        | yes more ↦
            rw (write_loop, lt→ltb current (offset + size) more, start more)
              (after _ _ refl (
                after _ _ (register_refused file _ s) (
                  write_loop_refused (m - 1) rounds file offset size
                    (current + min block_size (0 + offset + size - current))
                    (index + (min block_size (0 + offset + size - current) - 0)) buf s
                    (λ still. aligned (start more) still) (omega arith) (omega arith)
                    (omega arith))))
        | no ended ↦ rw (write_loop, le→ltb current (offset + size) (omega arith)) refl
      ]
    where
      aligned :
          current % block_size ≡ 0
          → current + min block_size (0 + offset + size - current) < offset + size
          → (current + min block_size (0 + offset + size - current)) % block_size ≡ 0
      aligned at still = omega arith

  -- Where the store has none of the blocks and refuses to create them, `bb_write` of a registered
  -- file at the start of a block ends all the same with the number of bytes, as if they had been
  -- written. The table, the files and the descriptors are as they were: the bytes are lost. The
  -- request has less than 2^31 bytes, and there is more fuel than it has blocks, of which it has
  -- at most `m`.
  pub bb_write_refused :
      (file : CfsFile) (fh : ℤ) (buf : Bytes) (size n m : ℕ) (s : os.State)
      → cfs_get_file state fh ≡ some file
      → size ≤ block_size * m
      → m < fuel
      → size < 2 ^ 31
      → bb_write os fuel garbage sha1 state fh buf size (block_size * n) s
        ≡ some ((pos size, state), s)
  unfolding bb_write pure
  bb_write_refused file fh buf size n m s found most lt small =
      rw (bb_write, found)
        (after _ _
          (write_loop_refused m fuel file (block_size * n) size (block_size * n) 0 buf s
            (λ more. omega arith) (omega arith) (omega arith) lt)
          (λ i. some ((to_int-pos size small i, put_entry_same state fh file found i), s)))
