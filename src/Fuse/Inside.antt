-- ===== src/Fuse/Inside.antt =====
-- `bb_write` of cfs/src/bbfs.c where a request begins inside a block that the file does not have.
pub mod Contract
use fusefs_block.Base.{
  ℕ, zero, suc, ◌+◌, ◌-◌, ◌*◌, ◌/◌, ◌%◌, ◌^◌, ◌≤◌, ◌<◌, ◌≡◌, refl, sym, ap, ◌∙◌, true, false, inl,
  inr, ◌==◌, none, some, arith, ◌++◌, ℤ, pos, to_int, to_int-pos, lt→ltb, length, length-append,
  length-take, length-replicate, take, take-append, drop, replicate, min, Bytes, CString,
}
use mathlib.Core.List.{append_assoc}
use fusefs_block.Posix.{Posix, ◌>>=◌}
use fusefs_block.Posix.View.{
  View, Descriptor, overwrite, moved, moved-moved, stored, put_file, put_file_same, find_fd-seek_fd,
}
use fusefs_block.Storage.Refs.{block_file}
use fusefs_block.Posix.Overwrite.{overwrite_middle}
use fusefs_block.Posix.Laws.{IsPosix}
use fusefs_block.Posix.Runs.{Ends, Runs, Runs-pure, Runs-bind, Runs-cast}
use fusefs_block.Io.Write.{IsWhole}
use fusefs_block.Io.Opened.{IsOpened, at_file, at_file_same, Runs-arg, Runs-view}
use fusefs_block.Storage.{block_path, block_size}
use fusefs_block.Storage.Shared.{Keeps, after_store}
use fusefs_block.Cfs.{CfsFile, CfsBlock, CfsState, Garbage}
use fusefs_block.Cfs.Table.{cfs_get_file}
use fusefs_block.Cfs.Slots.{replicate-append}
use fusefs_block.Cfs.Image.{Image, image_bytes, find_pair}
use fusefs_block.Cfs.Search.{Shows}
use fusefs_block.Cfs.Append.{grown_file, with_pair}
use fusefs_block.Cfs.Load.{Runs-read_absent, filled}
use fusefs_block.Cfs.Blocks.{cfs_file_read_block}
use fusefs_block.Cfs.Contract.{hash_of, IsWritable, Runs-register, Runs-read_back}
use fusefs_block.Fuse.Data.{
  zero_block, put_entry, write_block, write_loop, read_loop, bb_write, bb_read,
}
use fusefs_block.Fuse.Entry.{get-put_entry}
use fusefs_block.Fuse.Aligned.{Runs-write_end, Runs-read_round, Runs-read_end, copied_filled}

-- The block that `bb_write` makes of `size` bytes that go behind `left` bytes of a block that is
-- not there.
abbrev pub inside_block : Bytes → ℕ → ℕ → ℕ → CfsBlock
inside_block buf left size n = write_block zero_block buf 0 left (left + size) n

-- Zeros stand in front of the bytes, and behind them.
inside_shape :
    (buf : Bytes) (left size n : ℕ)
    → left + size ≤ block_size
    → size ≤ length buf
    → (inside_block buf left size n).buffer
      ≡ replicate {A = ℕ} left 0
        ++ (take size buf ++ replicate {A = ℕ} (block_size - (left + size)) 0)
unfolding write_block zero_block
inside_shape buf left size n fits within =
    (λ i. overwrite (zeros i) left (take (amount i) buf))
    ∙ overwrite_middle (replicate {A = ℕ} left 0) (replicate {A = ℕ} size 0)
        (replicate {A = ℕ} (block_size - (left + size)) 0) (take size buf) left
        (sym (length-replicate {A = ℕ} left 0))
        (omega (arith, length-take size buf, length-replicate {A = ℕ} size 0))
  where
    amount : left + size - left ≡ size
    amount = omega arith

    zeros :
        replicate {A = ℕ} block_size 0
        ≡ replicate {A = ℕ} left 0
          ++ (replicate {A = ℕ} size 0 ++ replicate {A = ℕ} (block_size - (left + size)) 0)
    zeros = sym (
        ap (λ t. replicate {A = ℕ} left 0 ++ t)
          (replicate-append size (block_size - (left + size)) 0 (block_size - left) (omega arith))
        ∙ replicate-append left (block_size - left) 0 block_size (omega arith))

pub length-inside_block :
    (buf : Bytes) (left size n : ℕ)
    → left + size ≤ block_size
    → size ≤ length buf
    → length (inside_block buf left size n).buffer ≡ block_size
length-inside_block buf left size n fits within =
    ap length (inside_shape buf left size n fits within)
    ∙ omega (
      arith,
      length-append (replicate {A = ℕ} left 0)
          (take size buf ++ replicate {A = ℕ} (block_size - (left + size)) 0),
      length-append (take size buf) (replicate {A = ℕ} (block_size - (left + size)) 0),
      length-replicate {A = ℕ} left 0,
      length-take size buf,
      length-replicate {A = ℕ} (block_size - (left + size)) 0,
    )

pub take-inside_block :
    (buf : Bytes) (left size n : ℕ)
    → left + size ≤ block_size
    → size ≤ length buf
    → take (left + size) (inside_block buf left size n).buffer
      ≡ replicate {A = ℕ} left 0 ++ take size buf
take-inside_block buf left size n fits within =
    ap (take (left + size)) (
      inside_shape buf left size n fits within
      ∙ sym (append_assoc (replicate {A = ℕ} left 0) (take size buf) _))
    ∙ take-append (left + size) (replicate {A = ℕ} left 0 ++ take size buf) _ (
        omega (
          arith,
          length-append (replicate {A = ℕ} left 0) (take size buf),
          length-replicate {A = ℕ} left 0,
          length-take size buf,
        ))
