-- ===== src/Tests/Storage.antt =====
-- The block store of cfs/src/storage.c on a system in memory, with one signal pending.
use fusefs_block.Base.{
  ℕ, zero, suc, All, IsByte, ap, ◌+◌, ◌≤◌, ◌<◌, ◌≡◌, ◌↔◌, refl, none, some, [], ◌∷◌, arith, pos,
  negsuc, to_int, length, take, replicate, Bytes,
}
use fusefs_block.Posix.{◌>>◌}
use fusefs_block.Posix.View.{View, stored, unlinked, put_file_self}
use fusefs_block.Posix.Runs.{Ends}
use fusefs_block.Posix.Memory.{Memory, memory_os, memory_os-IsPosix}
use fusefs_block.Tests.Whole.{whole_memory}
use fusefs_block.Storage.{BlkStore, block_path, init_paths, nothing_loaded, hash_length}
use fusefs_block.Storage.Counter.{block_inc_ref, block_dec_ref}
use fusefs_block.Storage.Block.{store_block, load_block, block_get_size}
use fusefs_block.Storage.Refs.{block_file}
use fusefs_block.Storage.Blocks.{loaded}
use fusefs_block.Storage.Names.{block_path-eq_iff, paths_fit}
use fusefs_block.Storage.Contract.{
  store-load, store-store, dec-inc, dec-store, load-dec, get_size-store,
}

abbrev storage : BlkStore
storage = record {
  root_path = b'/' ∷ b'r' ∷ [];
  blocks_path = b'/' ∷ b'r' ∷ b'/' ∷ b'B' ∷ [];
  block_fname_size = 64;
}

abbrev hash : Bytes
hash = replicate hash_length 7

abbrev other_hash : Bytes
other_hash = replicate hash_length 8

abbrev buffer : Bytes
buffer = 1 ∷ 2 ∷ 3 ∷ 4 ∷ 5 ∷ []

abbrev empty_view : View
empty_view = record { files = λ p. none; descriptors = [] }

abbrev empty_memory : Memory
empty_memory = record { shown = empty_view; signals = 1 }

-- A system that holds the block, with three references.
abbrev block_view : View
block_view = stored empty_view (block_path storage hash) (some (block_file 3 buffer))

abbrev block_memory : Memory
block_memory = record { shown = block_view; signals = 1 }

store-load_example :
    Ends
      (memory_os-IsPosix none none)
      1
      (store_block (memory_os none none) 5000 storage buffer 5 hash
        >> load_block (memory_os none none) 5000 storage hash)
      empty_memory
      (loaded 1 buffer)
      (stored empty_view (block_path storage hash) (some (block_file 1 buffer)))
store-load_example =
    store-load (memory_os-IsPosix none none) (whole_memory none) 1 5000 (omega arith) storage
      empty_memory (omega arith) buffer 5 hash refl refl (omega arith) (omega arith) (omega arith)

store-store_example :
    Ends
      (memory_os-IsPosix none none)
      1
      (store_block (memory_os none none) 5000 storage buffer 5 hash
        >> store_block (memory_os none none) 5000 storage buffer 3 hash)
      empty_memory
      (pos 0)
      (stored empty_view (block_path storage hash) (some (block_file 1 buffer)))
store-store_example =
    store-store (memory_os-IsPosix none none) (whole_memory none) 1 5000 (omega arith) storage
      empty_memory (omega arith) buffer 5 hash buffer 3 refl refl (omega arith) (omega arith)
      (omega arith)

dec-inc_example :
    Ends
      (memory_os-IsPosix none none)
      1
      (block_inc_ref (memory_os none none) 5000 storage hash
        >> block_dec_ref (memory_os none none) 5000 storage hash)
      block_memory
      (to_int (pos 3))
      block_view
dec-inc_example =
    dec-inc (memory_os-IsPosix none none) (whole_memory none) 1 5000 (omega arith) storage
      block_memory (omega arith) hash 3 buffer refl (put_file_self _ _ _) (omega arith)
      (omega arith)

dec-store_example :
    Ends
      (memory_os-IsPosix none none)
      1
      (store_block (memory_os none none) 5000 storage buffer 5 hash
        >> block_dec_ref (memory_os none none) 5000 storage hash)
      empty_memory
      (pos 0)
      (record (unlinked empty_view (block_path storage hash)) { files = empty_view.files })
dec-store_example =
    dec-store (memory_os-IsPosix none none) (whole_memory none) 1 5000 (omega arith) storage
      empty_memory (omega arith) buffer 5 hash refl refl (omega arith) (omega arith) (omega arith)

load-dec_example :
    Ends
      (memory_os-IsPosix none none)
      1
      ((store_block (memory_os none none) 5000 storage buffer 5 hash
          >> block_dec_ref (memory_os none none) 5000 storage hash)
        >> load_block (memory_os none none) 5000 storage hash)
      empty_memory
      (nothing_loaded (negsuc 16))
      (record (unlinked empty_view (block_path storage hash)) { files = empty_view.files })
load-dec_example =
    load-dec (memory_os-IsPosix none none) (whole_memory none) 1 5000 (omega arith) storage
      empty_memory (omega arith) buffer 5 hash refl refl (omega arith) (omega arith) (omega arith)

get_size-store_example :
    Ends
      (memory_os-IsPosix none none)
      1
      (store_block (memory_os none none) 5000 storage buffer 5 hash
        >> block_get_size (memory_os none none) 5000 storage hash)
      empty_memory
      (pos 13)
      (stored empty_view (block_path storage hash) (some (block_file 1 buffer)))
get_size-store_example =
    get_size-store (memory_os-IsPosix none none) (whole_memory none) 1 5000 (omega arith) storage
      empty_memory (omega arith) buffer 5 hash refl refl (omega arith) (omega arith) (omega arith)

small : (n k : ℕ) → n < 256 → All IsByte (replicate k n)
small n zero h = tt
small n (suc k) h = (h, small n k h)

block_path-eq_iff_example :
    (block_path storage hash ≡ block_path storage other_hash) ↔ (take 19 hash ≡ take 19 other_hash)
block_path-eq_iff_example =
    block_path-eq_iff storage hash other_hash (λ e. absurd (omega (arith, ap length e))) refl
      (small 7 20 (omega arith)) refl (small 8 20 (omega arith))

paths_fit_example :
    (length (init_paths (b'/' ∷ b'r' ∷ [])).blocks_path + 1 ≤ 11)
    × (length (block_path (init_paths (b'/' ∷ b'r' ∷ [])) hash) + 1 ≤ 54)
paths_fit_example = paths_fit (b'/' ∷ b'r' ∷ []) hash refl
