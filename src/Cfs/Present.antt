-- ===== src/Cfs/Present.antt =====
-- What `cfs_file_register_block` of cfs/src/cfs.c does at an index that the file has: the new
-- block does not reach the file.
use fusefs_block.Base.{
  ℕ, ◌+◌, ◌≤◌, ◌<◌, ◌≡◌, ◌≢◌, refl, ◌∙◌, true, some, arith, pos, length, take, Bytes, CString,
}
use fusefs_block.Posix.{Posix, ◌>>=◌}
use fusefs_block.Posix.View.{View, Descriptor}
use fusefs_block.Posix.Laws.{IsPosix}
use fusefs_block.Posix.Runs.{Ends, Runs-bind}
use fusefs_block.Io.Write.{IsWhole}
use fusefs_block.Io.Opened.{IsOpened, at_file}
use fusefs_block.Storage.{BlkStore, block_path, block_size}
use fusefs_block.Storage.Refs.{block_file}
use fusefs_block.Storage.Shared.{
  Keeps, after_store, after_store_other, after_store-descriptors, store_result_well,
  Runs-store_block,
}
use fusefs_block.Cfs.{IsReadable, CfsFile, CfsBlock, Garbage}
use fusefs_block.Cfs.Blocks.{resized, cfs_file_register_block, cfs_file_read_block}
use fusefs_block.Cfs.Image.{Image, image_bytes, find_pair}
use fusefs_block.Cfs.Search.{Shows}
use fusefs_block.Cfs.Load.{filled, Runs-read_found}
use fusefs_block.Cfs.Replace.{with_size, Runs-register_present}
use fusefs_block.Cfs.Contract.{IsOpened-descriptors, hash_of, IsWritable}

-- A block that the store holds and that a file refers to.
pub record IsStored (v : View) (path : CString) (refs : ℕ) (bytes : Bytes) : Type 0 where
  pub held : v.files path ≡ some (block_file refs bytes)
  pub some_bytes : 0 < length bytes
  pub at_most : length bytes ≤ block_size

module _ {os : Posix} (law : IsPosix os) (whole : IsWhole os) (signals fuel : ℕ)
    (enough : block_size + signals < fuel) (sha1 : Bytes → Bytes) (storage : BlkStore)
    (garbage : Garbage) (file : CfsFile) (image : Image) (k fd : ℕ) (p : CString) (d : Descriptor)
    (block : CfsBlock) (shows : Shows file fd image) (rounds : length image.pairs < fuel)
    (usable : law.usable (block_path storage (hash_of sha1 block)) ≡ true)
    (writable : IsWritable storage block (hash_of sha1 block) p k image) where
  -- A block is registered at an index that the file has, where the store holds the old block
  -- under another name than the new one. Both calls end, and what `cfs_file_read_block` then
  -- reads at the index are the bytes of the old block. The new block is in the store, but the
  -- pairs of the file are as before; its size has become the old size less the length of the old
  -- block with its counter, plus the size of the new block. The `int` offset of cfs.c:307
  -- arrives with its sign; what stands in place of the argument that cfs.c:355 does not pass is
  -- the address of memory that can be written, and the buffer for a hash has 20 bytes
  -- (`IsReadable`). The other conditions are those of `cfs_file_register_block_lem`.
  pub read-register_present :
      (s : os.State) (buff : CfsBlock) (old : Bytes) (refs : ℕ) (bytes : Bytes)
      → find_pair block.index image.pairs ≡ some old
      → length old ≡ 20
      → law.usable (block_path storage old) ≡ true
      → p ≢ block_path storage old
      → block_path storage old ≢ block_path storage (hash_of sha1 block)
      → IsStored (law.view s) (block_path storage old) refs bytes
      → IsOpened (law.view s) fd p d
      → (law.view s).files p ≡ some (image_bytes image)
      → (keeps : Keeps
          (law.view s)
          (block_path storage (hash_of sha1 block))
          (take block.size block.buffer))
      → IsReadable garbage
      → garbage.sign_extended ≡ true
      → law.pending s ≤ signals
      → (o : ℕ) × Ends law signals
          (cfs_file_register_block os fuel sha1 garbage storage file block >>= λ r.
            cfs_file_read_block os fuel garbage storage r.1 block.index buff)
          s
          (pos 1, filled buff block.index bytes)
          (at_file
            (after_store
              (law.view s)
              (block_path storage (hash_of sha1 block))
              (take block.size block.buffer)
              keeps)
            fd
            p
            (image_bytes (with_size image (resized file (pos (8 + length bytes)) block.size).size))
            o)
  read-register_present s buff old refs bytes present old_size old_usable apart differ known is
        holds keeps readable signed calm =
      let path = block_path storage (hash_of sha1 block) in
      let v = law.view s in
      let new : Bytes = take block.size block.buffer in
      let w : View = after_store v path new keeps in
      let is' = IsOpened-descriptors v w fd p d (after_store-descriptors v path new keeps) is in
      let held = after_store_other v path new keeps (block_path storage old) differ ∙ known.held in
      let shows' : Shows (resized file (pos (8 + length bytes)) block.size) fd
          (with_size image (resized file (pos (8 + length bytes)) block.size).size) =
        record {
          fd_same = shows.fd_same;
          size_same = refl;
          blocks_same = shows.blocks_same;
          pairs_fit = shows.pairs_fit;
          small = shows.small;
        } in
      let (o, run) =
        Runs-read_found law whole fuel enough w fd p d is' storage garbage
          (resized file (pos (8 + length bytes)) block.size)
          (with_size image (resized file (pos (8 + length bytes)) block.size).size) shows' rounds
          block.index buff 23 old refs bytes present old_size readable old_usable apart held
          known.some_bytes known.at_most in
      (
        o,
        (Runs-bind _
              (Runs-register_present law whole fuel enough storage file fd p d shows.fd_same w is'
                old refs bytes old_size old_usable apart held (omega (arith, known.at_most)) v sha1
                garbage image block
                (Runs-store_block law whole fuel enough storage (hash_of sha1 block) v usable
                  block.buffer block.size writable.some_bytes writable.at_most writable.within
                  keeps)
                signed (store_result_well v path new block.size keeps) shows rounds
                (after_store_other v path new keeps p writable.apart ∙ holds) present
                writable.pair.hash_length)
              run).from
            s refl calm,
      )
