-- ===== src/Cfs/Load.antt =====
-- `cfs_file_read_block` of cfs/src/cfs.c on a file whose contents are an image.
use fusefs_block.Base.{
  ℕ, ◌+◌, ◌≤◌, ◌<◌, ◌≡◌, ◌≢◌, refl, ap, ◌∙◌, true, none, some, arith, ◌++◌, ℤ, pos, ◌+ℤ◌, length,
  take-all, drop-all, Bytes, CString,
}
use mathlib.Core.List.{append-nil}
use fusefs_block.Posix.{Posix, seek_set}
use fusefs_block.Posix.View.{View, Descriptor, put_file_ne}
use fusefs_block.Posix.Laws.{IsPosix}
use fusefs_block.Posix.Runs.{Runs, Runs-pure, Runs-bind, Runs-seq, Runs-cast}
use fusefs_block.Io.Write.{IsWhole}
use fusefs_block.Io.Opened.{IsOpened, at_file, opened-s_lseek, opened-s_read, Runs-arg}
use fusefs_block.Io.{s_lseek, s_read}
use fusefs_block.Storage.{BlkStore, block_path, block_size, hash_length}
use fusefs_block.Storage.Block.{load_block}
use fusefs_block.Storage.Refs.{block_file}
use fusefs_block.Storage.Blocks.{loaded, Runs-load_block}
use fusefs_block.Cfs.{IsReadable, CfsFile, CfsBlock, Garbage, block_start, overlay}
use fusefs_block.Cfs.Blocks.{load_without_refs, cfs_file_read_block}
use fusefs_block.Cfs.Image.{Image, image_bytes, find_pair}
use fusefs_block.Cfs.Search.{Shows, Runs-search_absent, Runs-search_found}

-- A read into all of a buffer leaves nothing of what was there.
pub overlay_all : (buf bytes : Bytes) → length buf ≤ length bytes → overlay buf bytes ≡ bytes
unfolding overlay
overlay_all buf bytes h = ap (λ t. bytes ++ t) (drop-all (length bytes) buf h) ∙ append-nil bytes

-- `*buff` after a block has been loaded into it.
abbrev pub filled : CfsBlock → ℤ → Bytes → CfsBlock
filled buff index bytes = record {
  index = index;
  size = length bytes;
  buffer = overlay buff.buffer bytes;
}

module _ {os : Posix} (law : IsPosix os) (whole : IsWhole os) {signals : ℕ} (fuel : ℕ)
    (enough : block_size + signals < fuel) (v : View) (fd : ℕ) (p : CString) (d : Descriptor)
    (is : IsOpened v fd p d) (storage : BlkStore) (garbage : Garbage) (file : CfsFile)
    (image : Image) (shows : Shows file fd image) (rounds : length image.pairs < fuel) where
  -- Where the file has no such block, the result is 0 and the buffer stays.
  pub Runs-read_absent :
      (index : ℤ) (buff : CfsBlock) (o : ℕ)
      → find_pair index image.pairs ≡ none
      → (o' : ℕ) × Runs law signals
          (cfs_file_read_block os fuel garbage storage file index buff)
          (at_file v fd p (image_bytes image) o)
          (pos 0, buff)
          (at_file v fd p (image_bytes image) o')
  unfolding cfs_file_read_block ◌+ℤ◌
  Runs-read_absent index buff o absent =
      let enough8 : 8 + signals < fuel = omega arith in
      let (o', search_run) =
        Runs-search_absent law fuel v fd p d is file image shows enough8 rounds garbage index 23
          absent in
      (
        o',
        Runs-seq
            (Runs-arg (λ z. s_lseek os fuel z (pos block_start) seek_set) shows.fd_same
              (opened-s_lseek law v fd p d is fuel (image_bytes image) o (pos block_start) seek_set
                23 refl (omega arith) (omega arith)))
            (Runs-bind _ search_run (Runs-pure _ _)),
      )

  -- The block is loaded while the file is open.
  Runs-load_at :
      (c : Bytes) (o : ℕ) (hash : Bytes) (refs : ℕ) (bytes : Bytes)
      → length hash ≡ 20
      → IsReadable garbage
      → law.usable (block_path storage hash) ≡ true
      → p ≢ block_path storage hash
      → v.files (block_path storage hash) ≡ some (block_file refs bytes)
      → 0 < length bytes
      → Runs law signals
          (load_without_refs os fuel garbage storage (overlay garbage.hash hash))
          (at_file v fd p c o)
          (loaded refs bytes)
          (at_file v fd p c o)
  unfolding load_without_refs
  Runs-load_at c o hash refs bytes hash_size readable u other holds some_bytes =
      rw (load_without_refs, readable.passed)
        (Runs-arg (load_block os fuel storage)
          (overlay_all garbage.hash hash (omega (arith, readable.hash_length)))
          (Runs-load_block law whole fuel enough storage hash (at_file v fd p c o) u refs bytes
            (put_file_ne p _ _ v.files other ∙ holds) some_bytes))

  -- Where it has, and the store has the block, the result is 1 and the buffer holds it.
  pub Runs-read_found :
      (index : ℤ) (buff : CfsBlock) (o : ℕ) (hash : Bytes) (refs : ℕ) (bytes : Bytes)
      → find_pair index image.pairs ≡ some hash
      → length hash ≡ 20
      → IsReadable garbage
      → law.usable (block_path storage hash) ≡ true
      → p ≢ block_path storage hash
      → v.files (block_path storage hash) ≡ some (block_file refs bytes)
      → 0 < length bytes
      → length bytes ≤ block_size
      → (o' : ℕ) × Runs law signals
          (cfs_file_read_block os fuel garbage storage file index buff)
          (at_file v fd p (image_bytes image) o)
          (pos 1, filled buff index bytes)
          (at_file v fd p (image_bytes image) o')
  unfolding cfs_file_read_block ◌+ℤ◌ loaded
  Runs-read_found index buff o hash refs bytes present hash_size readable u other holds some_bytes
        fits =
      let enough8 : 8 + signals < fuel = omega arith in
      let (o', search_run, at, within, behind) =
        Runs-search_found law fuel v fd p d is file image shows enough8 rounds garbage index 23 hash
          present in
      (
        o' + 20,
        Runs-seq
            (Runs-arg (λ z. s_lseek os fuel z (pos block_start) seek_set) shows.fd_same
              (opened-s_lseek law v fd p d is fuel (image_bytes image) o (pos block_start) seek_set
                23 refl (omega arith) (omega arith)))
            (Runs-bind _ search_run (
              Runs-bind _
                (Runs-arg (λ z. s_read os fuel z hash_length) shows.fd_same
                  (Runs-cast (λ i. (pos (length (at i)), at i))
                    (ap (λ t. at_file v fd p (image_bytes image) (o' + length t)) at
                      ∙ ap (λ n. at_file v fd p (image_bytes image) (o' + n)) hash_size)
                    (opened-s_read law v fd p d is fuel (image_bytes image) o' 20 (omega arith))))
                (Runs-bind _
                  (Runs-load_at (image_bytes image) (o' + 20) hash refs bytes hash_size readable u
                    other holds some_bytes)
                  (Runs-cast
                    (ap (λ t. (pos 1, filled buff index t)) (take-all block_size bytes fits)) refl
                    (Runs-pure _ _))))),
      )
