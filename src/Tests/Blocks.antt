-- ===== src/Tests/Blocks.antt =====
-- Blocks of a file, which cfs/src/cfs.c and cfs/src/bbfs.c write and read, on a system in memory.
use fusefs_block.Base.{
  false, true, ℕ, zero, suc, ◌<◌, ◌≡◌, ◌≢◌, refl, ap, none, some, inl, [], ◌∷◌, ◌++◌, arith, ℤ, pos,
  to_size, length, length-append, length-take, All, IsByte, take, replicate, Bytes, CString,
}
use fusefs_block.Posix.{rd_wr, ◌>>=◌}
use fusefs_block.Posix.View.{View, Descriptor, find_fd, put_file, put_file_self, put_file_ne}
use fusefs_block.Posix.Runs.{Ends}
use fusefs_block.Posix.Memory.{Memory, memory_os, memory_os-IsPosix}
use fusefs_block.Io.Opened.{IsOpened, at_file}
use fusefs_block.Util.{calculate_hash, dir_separator}
use fusefs_block.Util.Combine.{without_trailing}
use fusefs_block.Util.Hexify.{hex_text, length-hex_text}
use fusefs_block.Storage.Names.{block_path-shape, block_path-eq_iff}
use fusefs_block.Storage.{BlkStore, block_path}
use fusefs_block.Storage.Shared.{Keeps, after_store}
use fusefs_block.Cfs.{CfsFile, CfsBlock, Garbage}
use fusefs_block.Cfs.Blocks.{cfs_file_register_block, cfs_file_read_block}
use fusefs_block.Cfs.Pairs.{IsPair}
use fusefs_block.Cfs.Image.{Image, image_bytes, find_pair}
use fusefs_block.Cfs.Search.{Shows}
use fusefs_block.Cfs.Append.{with_pair}
use fusefs_block.Cfs.Unread.{read-register_unread}
use fusefs_block.Io.{minus_one}
use fusefs_block.Cfs.Load.{filled}
use fusefs_block.Cfs.Contract.{hash_of, IsWritable, cfs_file_register_block_lem, read-register}
use fusefs_block.Tests.Whole.{whole_memory}

abbrev pub path : CString
path = b'f' ∷ []

abbrev pub storage : BlkStore
storage = record { root_path = []; blocks_path = b'/' ∷ b'b' ∷ []; block_fname_size = 54 }

abbrev pub old_hash : Bytes
old_hash = replicate 20 1

-- A file of 9 bytes with one pair.
abbrev pub image : Image
image = record { size = pos 9; pairs = record { index = pos 5; hash = old_hash } ∷ [] }

abbrev pub file : CfsFile
file = record { path = path; offset = pos 0; size = pos 9; total_blocks = pos 1; fd = pos 3 }

abbrev pub garbage : Garbage
garbage = record {
  file = file;
  fd = pos 0;
  index = pos 5;
  hash = replicate 20 0;
  magic_buff = [];
  refs_valid = true;
  sign_extended = true;
}

abbrev pub sha1 : Bytes → Bytes
sha1 bytes = replicate 20 7

abbrev pub at_end : Descriptor
at_end = record { file = some path; offset = 51; access = rd_wr }

abbrev pub view : View
view = record {
  files = put_file path (some (image_bytes image)) (λ p. none);
  descriptors = (3, at_end) ∷ [];
}

abbrev pub memory : Memory
memory = record { shown = view; signals = 2 }

abbrev pub new_block : ℤ → CfsBlock
new_block index = record { index = index; size = 2; buffer = 65 ∷ 66 ∷ 67 ∷ [] }

pub file-Shows : Shows file 3 image
unfolding to_size
file-Shows = record {
  fd_same = refl;
  size_same = refl;
  blocks_same = refl;
  pairs_fit = (record { hash_length = refl; index_fits = refl; word_fits = omega arith }, tt);
  small = omega arith;
}

abbrev pub new_path : CString
new_path = block_path storage (replicate 20 7)

abbrev pub old_path : CString
old_path = block_path storage old_hash

-- The name of a block is longer than a short path.
pub long :
    (path : CString) (hash : Bytes)
    → length path < 38
    → length hash ≡ 20
    → All IsByte hash
    → path ≢ block_path storage hash
long path hash short h bytes e =
    let text : CString = hex_text (take 19 hash) in
    let same : length path ≡ length (block_path storage hash) = ap length e in
    let shape =
      ap length
        (block_path-shape storage hash (λ e. absurd (omega (arith, ap length e))) h bytes) in
    omega (
      arith,
      same,
      short,
      shape,
      length-append (without_trailing storage.blocks_path ++ (dir_separator ∷ []))
          (hex_text (take 19 hash)),
      length-hex_text (take 19 hash),
      length-take 19 hash,
      h,
    )

pub small : (n k : ℕ) → n < 256 → All IsByte (replicate k n)
small n zero h = tt
small n (suc k) h = (h, small n k h)

pub differ : old_path ≢ new_path
differ e =
    let same : take 19 old_hash ≡ take 19 (replicate 20 7) =
      (block_path-eq_iff storage old_hash (replicate 20 7)
          (λ e. absurd (omega (arith, ap length e))) refl (small 1 20 (omega arith)) refl
          (small 7 20 (omega arith))).0
        e in
    absurd (cc)

pub apart : path ≢ new_path
apart = long path (replicate 20 7) (omega arith) refl (small 7 20 (omega arith))

pub apart_old : path ≢ old_path
apart_old = long path old_hash (omega arith) refl (small 1 20 (omega arith))

pub view-IsOpened : IsOpened view 3 path at_end
unfolding find_fd
view-IsOpened = record { found = refl; path_same = refl; reads = refl; writes = refl }

pub new-IsPair : IsPair (record { index = pos 2; hash = replicate 20 7 })
unfolding to_size
new-IsPair = record { hash_length = refl; index_fits = refl; word_fits = omega arith }

new-IsWritable :
    IsWritable storage (new_block (pos 2)) (hash_of sha1 (new_block (pos 2))) path 9 image
unfolding calculate_hash
new-IsWritable = record {
  some_bytes = omega arith;
  at_most = omega arith;
  within = omega arith;
  pair = new-IsPair;
  apart = apart;
  fits = omega arith;
  small = omega arith;
}

new_name :
    Keeps view
      (block_path storage (hash_of sha1 (new_block (pos 2))))
      (take 2 (new_block (pos 2)).buffer)
unfolding calculate_hash
new_name = inl (put_file_ne path new_path _ _ apart)

pub absent : find_pair (pos 2) image.pairs ≡ none
unfolding find_pair
absent = refl

cfs_file_register_block_lem_example :
    (file' : CfsFile) × Ends
      (memory_os-IsPosix none none)
      2
      (cfs_file_register_block
        (memory_os none none)
        5000
        sha1
        garbage
        storage
        file
        (new_block (pos 2)))
      memory
      (pos 0, file')
      (at_file
        (after_store view
          (block_path storage (hash_of sha1 (new_block (pos 2))))
          (65 ∷ 66 ∷ [])
          new_name)
        3
        path
        (image_bytes (with_pair image (pos 11) (pos 2) (hash_of sha1 (new_block (pos 2)))))
        23)
    × Shows file' 3 (with_pair image (pos 11) (pos 2) (hash_of sha1 (new_block (pos 2))))
cfs_file_register_block_lem_example =
    cfs_file_register_block_lem (memory_os-IsPosix none none) (whole_memory none) 2 5000
      (omega arith) sha1 storage garbage file image 9 3 path at_end (new_block (pos 2)) file-Shows
      (omega arith) refl refl new-IsWritable absent memory view-IsOpened (put_file_self _ _ _)
      new_name (omega arith)

read-register_example :
    (o : ℕ) × Ends
      (memory_os-IsPosix none none)
      2
      (cfs_file_register_block
          (memory_os none none)
          5000
          sha1
          garbage
          storage
          file
          (new_block (pos 2))
        >>= λ r.
            cfs_file_read_block
              (memory_os none none)
              5000
              garbage
              storage
              r.1
              (pos 2)
              (new_block (pos 0)))
      memory
      (pos 1, filled (new_block (pos 0)) (pos 2) (65 ∷ 66 ∷ []))
      (at_file
        (after_store view
          (block_path storage (hash_of sha1 (new_block (pos 2))))
          (65 ∷ 66 ∷ [])
          new_name)
        3
        path
        (image_bytes (with_pair image (pos 11) (pos 2) (hash_of sha1 (new_block (pos 2)))))
        o)
read-register_example =
    read-register (memory_os-IsPosix none none) (whole_memory none) 2 5000 (omega arith) sha1
      storage garbage file image 9 3 path at_end (new_block (pos 2)) file-Shows (omega arith) refl
      refl new-IsWritable absent memory (new_block (pos 0)) view-IsOpened (put_file_self _ _ _)
      new_name (record { hash_length = refl; passed = refl }) (omega arith)

abbrev unread : Garbage
unread = record garbage { refs_valid = false }

read-register_unread_example :
    (o : ℕ) × Ends
      (memory_os-IsPosix none none)
      2
      (cfs_file_register_block
          (memory_os none none)
          5000
          sha1
          unread
          storage
          file
          (new_block (pos 2))
        >>= λ r.
            cfs_file_read_block
              (memory_os none none)
              5000
              unread
              storage
              r.1
              (pos 2)
              (new_block (pos 0)))
      memory
      (minus_one, new_block (pos 0))
      (at_file
        (after_store view
          (block_path storage (hash_of sha1 (new_block (pos 2))))
          (65 ∷ 66 ∷ [])
          new_name)
        3
        path
        (image_bytes (with_pair image (pos 11) (pos 2) (hash_of sha1 (new_block (pos 2)))))
        o)
read-register_unread_example =
    read-register_unread (memory_os-IsPosix none none) (whole_memory none) 2 5000 (omega arith) sha1
      storage unread file image 9 3 path at_end (new_block (pos 2)) file-Shows (omega arith) refl
      refl new-IsWritable absent memory (new_block (pos 0)) view-IsOpened (put_file_self _ _ _)
      new_name (record { hash_length = refl; not_passed = refl }) (omega arith)
