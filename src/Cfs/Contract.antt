-- ===== src/Cfs/Contract.antt =====
-- What the functions of cfs/src/cfs.c that work on blocks promise: a file is an image, which is
-- its size and its list of pairs.
use fusefs_block.Base.{
  ℕ, ◌+◌, ◌*◌, ◌^◌, ◌≤◌, ◌<◌, ◌≡◌, ◌≢◌, refl, sym, ap, ◌∙◌, true, none, some, arith, List, [], ◌∷◌,
  ◌++◌, All, ℤ, pos, ◌+ℤ◌, ◌-ℤ◌, ==ℤ_iff, to_off, to_off-pos, length, length-append, length-take,
  take, Bytes, CString,
}
use fusefs_block.Posix.{Posix, ◌>>=◌}
use fusefs_block.Posix.View.{View, Descriptor, find_fd}
use fusefs_block.Posix.Laws.{IsPosix}
use fusefs_block.Posix.Runs.{Ends, Runs, Runs-bind, Runs-cast}
use fusefs_block.Io.Write.{IsWhole}
use fusefs_block.Io.Opened.{IsOpened, at_file}
use fusefs_block.Util.{calculate_hash}
use fusefs_block.Storage.{BlkStore, block_path, block_size}
use fusefs_block.Storage.Shared.{
  Keeps, after_store, refs_after, after_store_holds, after_store_other, after_store-descriptors,
  store_result_well, Runs-store_block,
}
use fusefs_block.Cfs.{IsReadable, CfsFile, CfsBlock, Garbage}
use fusefs_block.Cfs.Blocks.{cfs_file_register_block, cfs_file_read_block}
use fusefs_block.Cfs.Pairs.{IsPair}
use fusefs_block.Cfs.Image.{Image, image_bytes, find_pair, find_pair-append}
use fusefs_block.Cfs.Search.{Shows}
use fusefs_block.Cfs.Append.{grown_file, with_pair, more_blocks, Runs-register_absent}
use fusefs_block.Cfs.Load.{filled, Runs-read_found}

pub IsOpened-descriptors :
    (v w : View) (fd : ℕ) (p : CString) (d : Descriptor)
    → w.descriptors ≡ v.descriptors
    → IsOpened v fd p d
    → IsOpened w fd p d
IsOpened-descriptors v w fd p d same is = record {
  found = ap (find_fd fd) same ∙ is.found;
  path_same = is.path_same;
  reads = is.reads;
  writes = is.writes;
}

All-append {ℓ κ} :
    {A : Type ℓ} (P : A → Type κ) (xs : List A) (x : A) → All P xs → P x → All P (xs ++ (x ∷ []))
All-append P [] x hs h = (h, tt)
All-append P (y ∷ xs) x (hy, hs) h = (hy, All-append P xs x hs h)

-- The size after a block of `n` more bytes, where it fits an `off_t`.
pub grown_size :
    (file : CfsFile) (k n : ℕ)
    → file.size ≡ pos k
    → k + n < 2 ^ 63
    → (grown_file file n).size ≡ pos (k + n)
grown_size file k n h fits =
    ap (λ z. to_off (z -ℤ pos 0 +ℤ pos n)) h ∙ ap to_off sum ∙ to_off-pos (k + n) fits
  where
    sum : (pos k -ℤ pos 0 +ℤ pos n) ≡ pos (k + n)
    sum = unfold ◌-ℤ◌ ◌+ℤ◌ in ground arith

-- The entry of the table shows the image with one more pair.
pub grown_file-Shows :
    (file : CfsFile) (fd : ℕ) (image : Image) (k n : ℕ) (index : ℤ) (hash : Bytes)
    → Shows file fd image
    → file.size ≡ pos k
    → k + n < 2 ^ 63
    → IsPair (record { index = index; hash = hash })
    → 23 + 28 * (length image.pairs + 2) < 2 ^ 31
    → Shows (grown_file file n) fd (with_pair image (pos (k + n)) index hash)
grown_file-Shows file fd image k n index hash shows size fits pair small = record {
  fd_same = shows.fd_same;
  size_same = grown_size file k n size fits;
  blocks_same = more_blocks file fd image shows ∙ ap pos (sym (length-append image.pairs _));
  pairs_fit = All-append IsPair image.pairs _ shows.pairs_fit pair;
  small = omega (arith, length-append image.pairs (record { index = index; hash = hash } ∷ []));
}

-- The pair that has been appended is found.
pub find_pair-with_pair :
    (image : Image) (size index : ℤ) (hash : Bytes)
    → find_pair index image.pairs ≡ none
    → find_pair index (with_pair image size index hash).pairs ≡ some hash
find_pair-with_pair image size index hash absent =
    find_pair-append index image.pairs _ ∙ rw (absent, (==ℤ_iff index index).1 refl) refl

abbrev pub hash_of : (Bytes → Bytes) → CfsBlock → Bytes
hash_of sha1 block = calculate_hash sha1 block.buffer block.size

-- A block that can be written to a file of `k` bytes.
pub record IsWritable (storage : BlkStore) (block : CfsBlock) (hash : Bytes) (p : CString) (k : ℕ)
    (image : Image) : Type 0 where
  pub some_bytes : 0 < block.size
  pub at_most : block.size ≤ block_size
  pub within : block.size ≤ length block.buffer
  pub pair : IsPair (record { index = block.index; hash = hash })
  pub apart : p ≢ block_path storage hash
  pub fits : k + block.size < 2 ^ 63
  pub small : 23 + 28 * (length image.pairs + 2) < 2 ^ 31

module _ {os : Posix} (law : IsPosix os) (whole : IsWhole os) (signals fuel : ℕ)
    (enough : block_size + signals < fuel) (sha1 : Bytes → Bytes) (storage : BlkStore)
    (garbage : Garbage) (file : CfsFile) (image : Image) (k fd : ℕ) (p : CString) (d : Descriptor)
    (block : CfsBlock) (shows : Shows file fd image) (rounds : length image.pairs + 1 < fuel)
    (size : file.size ≡ pos k)
    (usable : law.usable (block_path storage (hash_of sha1 block)) ≡ true)
    (writable : IsWritable storage block (hash_of sha1 block) p k image)
    (absent : find_pair block.index image.pairs ≡ none) where
  pub Runs-register :
      (v : View)
      → IsOpened v fd p d
      → v.files p ≡ some (image_bytes image)
      → (keeps : Keeps v (block_path storage (hash_of sha1 block)) (take block.size block.buffer))
      → Runs law signals
          (cfs_file_register_block os fuel sha1 garbage storage file block)
          v
          (pos 0, grown_file file block.size)
          (at_file
            (after_store v
              (block_path storage (hash_of sha1 block))
              (take block.size block.buffer)
              keeps)
            fd
            p
            (image_bytes (with_pair image (pos (k + block.size)) block.index (hash_of sha1 block)))
            23)
  Runs-register v is holds keeps =
      let path = block_path storage (hash_of sha1 block) in
      let bytes = take block.size block.buffer in
      Runs-cast refl
        (ap
          (λ z.
            at_file (after_store v path bytes keeps) fd p
              (image_bytes (with_pair image z block.index (hash_of sha1 block))) 23)
          (grown_size file k block.size size writable.fits))
        (Runs-register_absent law whole fuel (omega arith) sha1 storage block garbage file image fd
          p d shows (omega arith) (hash_of sha1 block) refl writable.pair.hash_length v
          (after_store v path bytes keeps)
          (Runs-store_block law whole fuel enough storage (hash_of sha1 block) v usable block.buffer
            block.size writable.some_bytes writable.at_most writable.within keeps)
          (store_result_well v path bytes block.size keeps)
          (IsOpened-descriptors v _ fd p d (after_store-descriptors v path bytes keeps) is)
          (after_store_other v path bytes keeps p writable.apart ∙ holds) absent)

  -- A block of 1 to 4096 bytes is registered at an index that the file does not have, under a
  -- hash whose name is free in the store or holds the same bytes. The call ends with 0. The
  -- store holds the block, and the file the old pairs in their order, followed by the index with
  -- the hash; its size and its number of blocks, in the header and in the entry of the table,
  -- count the block. The descriptor stands behind the header, and nothing else changes. This is
  -- on a system whose writes take all bytes of a call that is not interrupted, for a file of
  -- less than 2^31 bytes that is open for reading and writing and is not the block's own, and
  -- with more fuel than pairs, and than 4096 and the pending signals together.
  pub cfs_file_register_block_lem :
      (s : os.State)
      → IsOpened (law.view s) fd p d
      → (law.view s).files p ≡ some (image_bytes image)
      → (keeps : Keeps
          (law.view s)
          (block_path storage (hash_of sha1 block))
          (take block.size block.buffer))
      → law.pending s ≤ signals
      → (file' : CfsFile) × Ends law signals
          (cfs_file_register_block os fuel sha1 garbage storage file block)
          s
          (pos 0, file')
          (at_file
            (after_store
              (law.view s)
              (block_path storage (hash_of sha1 block))
              (take block.size block.buffer)
              keeps)
            fd
            p
            (image_bytes (with_pair image (pos (k + block.size)) block.index (hash_of sha1 block)))
            23)
        × Shows file' fd (with_pair image (pos (k + block.size)) block.index (hash_of sha1 block))
  cfs_file_register_block_lem s is holds keeps calm = (
    grown_file file block.size,
    (Runs-register (law.view s) is holds keeps).from s refl calm,
    grown_file-Shows file fd image k block.size block.index (hash_of sha1 block) shows size
        writable.fits writable.pair writable.small,
  )

  -- The registered block is read at its index.
  pub Runs-read_back :
      (v : View) (buff : CfsBlock)
      → IsOpened v fd p d
      → (keeps : Keeps v (block_path storage (hash_of sha1 block)) (take block.size block.buffer))
      → IsReadable garbage
      → (o : ℕ) × Runs law signals
          (cfs_file_read_block os fuel garbage storage
            (grown_file file block.size)
            block.index
            buff)
          (at_file
            (after_store v
              (block_path storage (hash_of sha1 block))
              (take block.size block.buffer)
              keeps)
            fd
            p
            (image_bytes (with_pair image (pos (k + block.size)) block.index (hash_of sha1 block)))
            23)
          (pos 1, filled buff block.index (take block.size block.buffer))
          (at_file
            (after_store v
              (block_path storage (hash_of sha1 block))
              (take block.size block.buffer)
              keeps)
            fd
            p
            (image_bytes (with_pair image (pos (k + block.size)) block.index (hash_of sha1 block)))
            o)
  Runs-read_back v buff is keeps readable =
      let path = block_path storage (hash_of sha1 block) in
      let bytes : Bytes = take block.size block.buffer in
      Runs-read_found law whole fuel enough (after_store v path bytes keeps) fd p d
        (IsOpened-descriptors v _ fd p d (after_store-descriptors v path bytes keeps) is) storage
        garbage (grown_file file block.size)
        (with_pair image (pos (k + block.size)) block.index (hash_of sha1 block))
        (grown_file-Shows file fd image k block.size block.index (hash_of sha1 block) shows size
          writable.fits writable.pair writable.small)
        (omega (
          arith,
          length-append image.pairs
              (record { index = block.index; hash = hash_of sha1 block } ∷ []),
        ))
        block.index buff 23 (hash_of sha1 block) (refs_after v path bytes keeps) bytes
        (find_pair-with_pair image (pos (k + block.size)) block.index (hash_of sha1 block) absent)
        writable.pair.hash_length readable usable writable.apart
        (after_store_holds v path bytes keeps)
        (omega (arith, length-take block.size block.buffer, writable.some_bytes, writable.within))
        (omega (arith, length-take block.size block.buffer, writable.at_most))

  -- A block that has been registered in this way is what `cfs_file_read_block` then reads at its
  -- index, through the entry that the registration leaves: the result is 1, and the buffer gets
  -- the index, the size and the bytes. The file and the store are as the registration left them.
  -- The conditions are those of `cfs_file_register_block_lem`; and what stands in place of the
  -- argument that cfs.c:355 does not pass is the address of memory that can be written, and the
  -- buffer for a hash has 20 bytes (`IsReadable`).
  pub read-register :
      (s : os.State) (buff : CfsBlock)
      → IsOpened (law.view s) fd p d
      → (law.view s).files p ≡ some (image_bytes image)
      → (keeps : Keeps
          (law.view s)
          (block_path storage (hash_of sha1 block))
          (take block.size block.buffer))
      → IsReadable garbage
      → law.pending s ≤ signals
      → (o : ℕ) × Ends law signals
          (cfs_file_register_block os fuel sha1 garbage storage file block >>= λ r.
            cfs_file_read_block os fuel garbage storage r.1 block.index buff)
          s
          (pos 1, filled buff block.index (take block.size block.buffer))
          (at_file
            (after_store
              (law.view s)
              (block_path storage (hash_of sha1 block))
              (take block.size block.buffer)
              keeps)
            fd
            p
            (image_bytes (with_pair image (pos (k + block.size)) block.index (hash_of sha1 block)))
            o)
  read-register s buff is holds keeps readable calm =
      let (o, run) = Runs-read_back (law.view s) buff is keeps readable in
      (o, (Runs-bind _ (Runs-register (law.view s) is holds keeps) run).from s refl calm)
