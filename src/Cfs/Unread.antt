-- ===== src/Cfs/Unread.antt =====
-- What `cfs_file_read_block` of cfs/src/cfs.c does where what stands in place of the argument that
-- it does not pass to `load_block` cannot be written.
use fusefs_block.Base.{
  ℕ, ◌+◌, ◌≤◌, ◌<◌, ◌≡◌, ◌≢◌, refl, ap, ◌∙◌, is_some, true, false, some, none, arith, ℤ, pos, ◌+ℤ◌,
  length, length-append, take, [], ◌∷◌, Bytes, CString,
}
use fusefs_block.Posix.{Posix, rd_only, seek_set, f_ofd_setlkw, f_rdlck, ◌>>=◌}
use fusefs_block.Posix.View.{View, Descriptor, put_file_ne}
use fusefs_block.Posix.Laws.{IsPosix}
use fusefs_block.Posix.Runs.{Ends, Runs, Runs-pure, Runs-bind, Runs-seq, Runs-cast}
use fusefs_block.Posix.Calls.{Runs-open_existing}
use fusefs_block.Io.{minus_one, s_lseek, s_read}
use fusefs_block.Io.Write.{IsWhole}
use fusefs_block.Io.Seek.{Runs-file_exists}
use fusefs_block.Io.Held.{held-close, held-lock, held-s_lseek}
use fusefs_block.Io.Opened.{IsOpened, at_file, opened-s_lseek, opened-s_read, Runs-arg}
use fusefs_block.Storage.{
  BlkStore, block_path, block_size, read_only, whole_file, nothing_loaded, hash_length,
}
use fusefs_block.Storage.Shared.{
  Keeps, after_store, after_store_holds, after_store-descriptors, refs_after,
}
use fusefs_block.Storage.Refs.{block_file}
use fusefs_block.Cfs.{CfsFile, CfsBlock, Garbage, block_start, overlay}
use fusefs_block.Cfs.Blocks.{cfs_file_register_block, cfs_file_read_block, load_without_refs}
use fusefs_block.Cfs.Image.{Image, image_bytes, find_pair}
use fusefs_block.Cfs.Search.{Shows, Runs-search_found}
use fusefs_block.Cfs.Append.{grown_file, with_pair}
use fusefs_block.Cfs.Load.{overlay_all}
use fusefs_block.Cfs.Contract.{
  IsOpened-descriptors, hash_of, IsWritable, grown_file-Shows, find_pair-with_pair, Runs-register,
}

-- What a call with this garbage does not get: memory for the reference counter.
pub record IsUnreadable (garbage : Garbage) : Type 0 where
  pub hash_length : length garbage.hash ≡ 20
  pub not_passed : garbage.refs_valid ≡ false

module _ {os : Posix} (law : IsPosix os) {signals : ℕ} (fuel : ℕ) (enough : 0 < fuel)
    (storage : BlkStore) (garbage : Garbage) (unreadable : IsUnreadable garbage) where
  -- The block is opened and locked, and closed again.
  Runs-load_unread :
      (v : View) (hash c : Bytes)
      → law.usable (block_path storage hash) ≡ true
      → v.files (block_path storage hash) ≡ some c
      → Runs law signals
          (load_without_refs os fuel garbage storage hash)
          v
          (nothing_loaded minus_one)
          v
  unfolding load_without_refs ◌+ℤ◌
  Runs-load_unread v hash c u holds =
      let p : CString = block_path storage hash in
      rw (load_without_refs, unreadable.not_passed)
        (Runs-bind _ (Runs-cast (ap is_some holds) refl (Runs-file_exists law v p u)) (
          Runs-bind _ (Runs-open_existing law v p read_only 0 u holds refl) (
            Runs-bind _
              (held-lock law v (law.fresh v) p rd_only 0 f_ofd_setlkw (whole_file f_rdlck))
              (Runs-seq
                (held-s_lseek law v (law.fresh v) p rd_only 0 fuel (pos 0) seek_set 0 holds refl
                  (omega arith) enough)
                (Runs-seq (held-close law v (law.fresh v) p rd_only 0) (Runs-pure _ _))))))

module _ {os : Posix} (law : IsPosix os) {signals : ℕ} (fuel : ℕ)
    (enough : block_size + signals < fuel) (v : View) (fd : ℕ) (p : CString) (d : Descriptor)
    (is : IsOpened v fd p d) (storage : BlkStore) (garbage : Garbage) (file : CfsFile)
    (image : Image) (shows : Shows file fd image) (rounds : length image.pairs < fuel)
    (unreadable : IsUnreadable garbage) where
  -- The block is found in the file, and the store has it.
  Runs-read_unread :
      (index : ℤ) (buff : CfsBlock) (o : ℕ) (hash c : Bytes)
      → find_pair index image.pairs ≡ some hash
      → length hash ≡ 20
      → law.usable (block_path storage hash) ≡ true
      → p ≢ block_path storage hash
      → v.files (block_path storage hash) ≡ some c
      → (o' : ℕ) × Runs law signals
          (cfs_file_read_block os fuel garbage storage file index buff)
          (at_file v fd p (image_bytes image) o)
          (minus_one, buff)
          (at_file v fd p (image_bytes image) o')
  unfolding cfs_file_read_block ◌+ℤ◌ overlay
  Runs-read_unread index buff o hash c present hash_size u other holds =
      let enough8 : 8 + signals < fuel = omega arith in
      let (o', search_run, at, within, behind) =
        Runs-search_found law fuel v fd p d is file image shows enough8 rounds garbage index 23 hash
          present in
      (
        o' + 20,
        Runs-seq
            (Runs-arg (λ z. s_lseek os fuel z (pos block_start) seek_set) shows.fd_same
              (opened-s_lseek law v fd p d is fuel (image_bytes image) o (pos block_start) seek_set
                23 refl (omega arith) (omega arith)))
            (Runs-bind _ search_run (
              Runs-bind _
                (Runs-arg (λ z. s_read os fuel z hash_length) shows.fd_same
                  (Runs-cast (λ i. (pos (length (at i)), at i))
                    (ap (λ t. at_file v fd p (image_bytes image) (o' + length t)) at
                      ∙ ap (λ n. at_file v fd p (image_bytes image) (o' + n)) hash_size)
                    (opened-s_read law v fd p d is fuel (image_bytes image) o' 20 (omega arith))))
                (Runs-bind _
                  (Runs-arg (load_without_refs os fuel garbage storage)
                    (overlay_all garbage.hash hash (omega (arith, unreadable.hash_length)))
                    (Runs-load_unread law fuel (omega arith) storage garbage unreadable
                      (at_file v fd p (image_bytes image) (o' + 20)) hash c u
                      (put_file_ne p _ _ v.files other ∙ holds)))
                  (Runs-pure _ _)))),
      )

module _ {os : Posix} (law : IsPosix os) (whole : IsWhole os) (signals fuel : ℕ)
    (enough : block_size + signals < fuel) (sha1 : Bytes → Bytes) (storage : BlkStore)
    (garbage : Garbage) (file : CfsFile) (image : Image) (k fd : ℕ) (p : CString) (d : Descriptor)
    (block : CfsBlock) (shows : Shows file fd image) (rounds : length image.pairs + 1 < fuel)
    (size : file.size ≡ pos k)
    (usable : law.usable (block_path storage (hash_of sha1 block)) ≡ true)
    (writable : IsWritable storage block (hash_of sha1 block) p k image)
    (absent : find_pair block.index image.pairs ≡ none) where
  -- Where what stands in place of the argument that cfs.c:355 does not pass is no memory that
  -- can be written, a block that has just been registered is not read: `cfs_file_read_block`
  -- gives -1 at its index and leaves the buffer as it is, although the file and the store have
  -- the block. No descriptor stays open. The buffer for a hash has 20 bytes (`IsUnreadable`);
  -- the other conditions are those of `cfs_file_register_block_lem`.
  pub read-register_unread :
      (s : os.State) (buff : CfsBlock)
      → IsOpened (law.view s) fd p d
      → (law.view s).files p ≡ some (image_bytes image)
      → (keeps : Keeps
          (law.view s)
          (block_path storage (hash_of sha1 block))
          (take block.size block.buffer))
      → IsUnreadable garbage
      → law.pending s ≤ signals
      → (o : ℕ) × Ends law signals
          (cfs_file_register_block os fuel sha1 garbage storage file block >>= λ r.
            cfs_file_read_block os fuel garbage storage r.1 block.index buff)
          s
          (minus_one, buff)
          (at_file
            (after_store
              (law.view s)
              (block_path storage (hash_of sha1 block))
              (take block.size block.buffer)
              keeps)
            fd
            p
            (image_bytes (with_pair image (pos (k + block.size)) block.index (hash_of sha1 block)))
            o)
  read-register_unread s buff is holds keeps unreadable calm =
      let v = law.view s in
      let path = block_path storage (hash_of sha1 block) in
      let bytes : Bytes = take block.size block.buffer in
      let (o, run) =
        Runs-read_unread law fuel enough (after_store v path bytes keeps) fd p d
          (IsOpened-descriptors v _ fd p d (after_store-descriptors v path bytes keeps) is) storage
          garbage (grown_file file block.size)
          (with_pair image (pos (k + block.size)) block.index (hash_of sha1 block))
          (grown_file-Shows file fd image k block.size block.index (hash_of sha1 block) shows size
            writable.fits writable.pair writable.small)
          (omega (
            arith,
            length-append image.pairs
                (record { index = block.index; hash = hash_of sha1 block } ∷ []),
          ))
          unreadable block.index buff 23 (hash_of sha1 block)
          (block_file (refs_after v path bytes keeps) bytes)
          (find_pair-with_pair image (pos (k + block.size)) block.index (hash_of sha1 block) absent)
          writable.pair.hash_length usable writable.apart (after_store_holds v path bytes keeps) in
      (
        o,
        (Runs-bind _
              (Runs-register law whole signals fuel enough sha1 storage garbage file image k fd p d
                block shows rounds size usable writable absent v is holds keeps)
              run).from
            s refl calm,
      )
