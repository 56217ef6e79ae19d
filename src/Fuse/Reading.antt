-- ===== src/Fuse/Reading.antt =====
-- `bb_read` of cfs/src/bbfs.c on a file of which some blocks are stored and others are not: what
-- it reads is the blocks one after the other.
pub mod Contract
pub mod Inside
use fusefs_block.Base.{
  ℕ, zero, suc, ◌+◌, ◌-◌, ◌*◌, ◌/◌, ◌%◌, ◌^◌, ◌≤◌, ◌<◌, ◌≡◌, ◌≢◌, refl, sym, ap, ◌∙◌, true, Option,
  none, some, arith, [], ◌++◌, ℤ, pos, to_int, to_int-pos, length, length-replicate, replicate,
  take, drop, min, Bytes, CString,
}
use mathlib.Core.List.{append-nil}
use fusefs_block.Posix.{Posix}
use fusefs_block.Posix.View.{View, Descriptor, overwrite}
use fusefs_block.Posix.Overwrite.{overwrite-nil, overwrite-overwrite}
use fusefs_block.Posix.Laws.{IsPosix}
use fusefs_block.Posix.Runs.{Ends, Runs, Runs-cast}
use fusefs_block.Io.Write.{IsWhole}
use fusefs_block.Io.Opened.{IsOpened, at_file, at_file_same, Runs-arg, Runs-view}
use fusefs_block.Storage.{BlkStore, block_path, block_size}
use fusefs_block.Storage.Refs.{block_file}
use fusefs_block.Cfs.{CfsFile, CfsState, Garbage}
use fusefs_block.Cfs.Table.{cfs_get_file}
use fusefs_block.Cfs.Image.{Image, image_bytes, find_pair}
use fusefs_block.Cfs.Search.{Shows}
use fusefs_block.Cfs.Load.{filled, Runs-read_found}
use fusefs_block.Fuse.Data.{zero_block, read_loop, bb_read}
use fusefs_block.Fuse.Aligned.{Runs-read_round, Runs-read_end, copied_filled}
use fusefs_block.Fuse.Holes.{Runs-hole_round}

-- The abstract file: the bytes of each block that it has.
abbrev pub Contents : Type 0
Contents = ℕ → Option Bytes

-- What the next `k` bytes of a request take from a block.
abbrev pub block_text : ℕ → Option Bytes → Bytes
block_text k none = replicate (min block_size k) 0
block_text k (some bytes) = bytes

-- `k` bytes over `m` blocks from the block `n` on; the last block that is stored is taken whole.
unfoldable pub contents_text : Contents → ℕ → ℕ → ℕ → Bytes
contents_text contents zero n k = []
contents_text contents (suc m) n k =
    block_text k (contents n) ++ contents_text contents m (suc n) (k - block_size)

-- The image has a block at the index `n`, and the store has its bytes.
pub record IsStored {os : Posix} (law : IsPosix os) (v : View) (storage : BlkStore) (p : CString)
    (image : Image) (n : ℕ) (bytes : Bytes) : Type 0 where
  pub hash : Bytes
  pub refs : ℕ
  pub found : find_pair (pos n) image.pairs ≡ some hash
  pub hash_length : length hash ≡ 20
  pub usable : law.usable (block_path storage hash) ≡ true
  pub apart : p ≢ block_path storage hash
  pub known : v.files (block_path storage hash) ≡ some (block_file refs bytes)
  pub some_bytes : 0 < length bytes
  pub fits : length bytes ≤ block_size

-- The block at the index `n` is as the abstract file says.
abbrev pub IsBlock :
    {os : Posix} → IsPosix os → View → BlkStore → CString → Image → ℕ → Option Bytes → Type 0
IsBlock law v storage p image n none = find_pair (pos n) image.pairs ≡ none
IsBlock law v storage p image n (some bytes) = IsStored law v storage p image n bytes

-- A block that is not the last fills its place.
abbrev pub IsFull : Option Bytes → Type 0
IsFull none = Unit
IsFull (some bytes) = length bytes ≡ block_size

length-block_text :
    (k : ℕ) (block : Option Bytes)
    → block_size ≤ k
    → IsFull block
    → length (block_text k block) ≡ block_size
length-block_text k none most full = omega (arith, length-replicate {A = ℕ} (min block_size k) 0)
length-block_text k (some bytes) most full = full

-- The bytes of a block, and those behind it.
pub contents_text_joined :
    (contents : Contents) (m n k : ℕ) (buf : Bytes) (index : ℕ)
    → (0 < m → block_size ≤ k)
    → (0 < m → IsFull (contents n))
    → overwrite
        (overwrite buf index (block_text k (contents n)))
        (index + block_size)
        (contents_text contents m (suc n) (k - block_size))
      ≡ overwrite buf index (contents_text contents (suc m) n k)
unfolding contents_text
contents_text_joined contents zero n k buf index most full =
    overwrite-nil _ (index + block_size)
    ∙ ap (overwrite buf index) (sym (append-nil (block_text k (contents n))))
contents_text_joined contents (suc m) n k buf index most full =
    overwrite-overwrite buf index (block_text k (contents n)) _ (index + block_size)
      (omega (arith, length-block_text k (contents n) (most (omega arith)) (full (omega arith))))
