-- ===== src/Cfs/Replace.antt =====
-- `cfs_file_register_block` of cfs/src/cfs.c for an index that the file has already.
use fusefs_block.Base.{
  ℕ, ◌+◌, ◌^◌, ◌≤◌, ◌<◌, ◌≡◌, ◌≢◌, refl, sym, ap, ◌∙◌, true, false, some, arith, ◌++◌, ℤ, pos,
  negsuc, ◌+ℤ◌, is_neg, length, take, drop, Bytes, CString,
}
use fusefs_block.Posix.{Posix, seek_cur}
use fusefs_block.Posix.View.{View, Descriptor, overwrite, put_file_ne}
use fusefs_block.Posix.Overwrite.{overwrite_same}
use fusefs_block.Posix.Laws.{IsPosix}
use fusefs_block.Posix.Runs.{Runs, Runs-pure, Runs-bind, Runs-seq, Runs-cast}
use fusefs_block.Io.{s_lseek, s_read, s_write}
use fusefs_block.Io.Write.{IsWhole}
use fusefs_block.Io.Opened.{
  IsOpened, at_file, at_file_same, opened-s_lseek, opened-s_read, opened-s_write, Runs-arg,
}
use fusefs_block.Util.{calculate_hash}
use fusefs_block.Storage.{BlkStore, block_path, block_size, hash_length}
use fusefs_block.Storage.Block.{store_block, block_get_size}
use fusefs_block.Storage.Refs.{block_file}
use fusefs_block.Storage.Blocks.{Runs-block_get_size}
use fusefs_block.Cfs.{int_offset, CfsFile, CfsBlock, Garbage}
use fusefs_block.Cfs.Blocks.{replace_pair, resized, cfs_file_register_block}
use fusefs_block.Cfs.Pairs.{pairs_bytes}
use fusefs_block.Cfs.Image.{Image, header_bytes, image_bytes, find_pair}
use fusefs_block.Cfs.Search.{Shows, image_small, Runs-search_found}
use fusefs_block.Cfs.Append.{Runs-write_header}
use fusefs_block.Cfs.Load.{overlay_all}

-- The image with another size.
abbrev pub with_size : Image → ℤ → Image
with_size image size = record image { size = size }

image_bytes-header :
    (image : Image)
    → image_bytes image ≡ header_bytes image.size (length image.pairs) ++ pairs_bytes image.pairs
unfolding image_bytes
image_bytes-header image = refl

-- The offset of the old hash, where it arrives with its sign.
signed_offset :
    (garbage : Garbage) → garbage.sign_extended ≡ true → int_offset garbage (negsuc 19) ≡ negsuc 19
unfolding int_offset
signed_offset garbage signed = rw signed refl

module _ {os : Posix} (law : IsPosix os) (whole : IsWhole os) {signals : ℕ} (fuel : ℕ)
    (enough : block_size + signals < fuel) (storage : BlkStore) (file : CfsFile) (fd : ℕ)
    (p : CString) (d : Descriptor) (this : file.fd ≡ pos fd) (v : View) (is : IsOpened v fd p d)
    (old : Bytes) (refs : ℕ) (bytes : Bytes) (old_size : length old ≡ 20)
    (usable : law.usable (block_path storage old) ≡ true) (apart : p ≢ block_path storage old)
    (known : v.files (block_path storage old) ≡ some (block_file refs bytes))
    (short : 8 + length bytes < 2 ^ 31) where
  -- The old hash is read and written back, whatever the new one is.
  Runs-replace_pair :
      (garbage : Garbage) (hash c : Bytes) (o : ℕ)
      → garbage.sign_extended ≡ true
      → length hash ≡ 20
      → take 20 (drop o c) ≡ old
      → length c < 2 ^ 31
      → o + 20 ≤ length c
      → Runs law signals
          (replace_pair os fuel garbage storage file hash)
          (at_file v fd p c o)
          (pos (8 + length bytes))
          (at_file v fd p c (o + 20))
  unfolding replace_pair
  Runs-replace_pair garbage hash c o signed hash_size at small within =
      Runs-bind _
        (Runs-arg (λ z. s_read os fuel z hash_length) this
          (Runs-cast (λ i. (pos (length (at i)), at i))
            (ap (λ t. at_file v fd p c (o + length t)) at
              ∙ ap (λ n. at_file v fd p c (o + n)) old_size)
            (opened-s_read law v fd p d is fuel c o 20 (omega arith))))
        (Runs-bind _
          (Runs-arg (block_get_size os fuel storage) (overlay_all hash old (omega arith)) (
            Runs-block_get_size law whole fuel enough storage old (at_file v fd p c (o + 20)) usable
              refs bytes (put_file_ne p _ _ v.files apart ∙ known) short))
          (Runs-seq
            (Runs-arg (λ z. s_lseek os fuel file.fd z seek_cur) (signed_offset garbage signed)
              (Runs-arg (λ z. s_lseek os fuel z (negsuc 19) seek_cur) this
                (opened-s_lseek law v fd p d is fuel c (o + 20) (negsuc 19) seek_cur o
                  (unfold ◌+ℤ◌ in ground arith) (omega arith) (omega arith))))
            (Runs-seq
              (Runs-arg (λ t. s_write os fuel file.fd t) (overlay_all hash old (omega arith))
                (Runs-arg (λ z. s_write os fuel z old) this
                  (opened-s_write law v fd p d is whole fuel c o old c (o + 20)
                    (ap (overwrite c o) (sym at) ∙ overwrite_same c o 20) (omega arith)
                    (omega arith) (omega arith))))
              (Runs-pure _ _))))

  pub Runs-register_present :
      (u : View) {r : ℤ} (sha1 : Bytes → Bytes) (garbage : Garbage) (image : Image)
      (block : CfsBlock)
      → Runs law signals
          (store_block os fuel storage block.buffer block.size
            (calculate_hash sha1 block.buffer block.size))
          u
          r
          v
      → garbage.sign_extended ≡ true
      → is_neg r ≡ false
      → Shows file fd image
      → length image.pairs < fuel
      → v.files p ≡ some (image_bytes image)
      → find_pair block.index image.pairs ≡ some old
      → length (calculate_hash sha1 block.buffer block.size) ≡ 20
      → Runs law signals
          (cfs_file_register_block os fuel sha1 garbage storage file block)
          u
          (pos 0, resized file (pos (8 + length bytes)) block.size)
          (at_file v fd p
            (image_bytes (with_size image (resized file (pos (8 + length bytes)) block.size).size))
            23)
  unfolding cfs_file_register_block
  Runs-register_present u {r} sha1 garbage image block stored_ signed well shows rounds holds
        present hash_size =
      let small : length (image_bytes image) < 2 ^ 31 =
        omega (arith, image_small file fd image shows) in
      let enough8 : 8 + signals < fuel = omega arith in
      let (o, search_run, at, within, behind) =
        Runs-search_found law fuel v fd p d is file image shows enough8 rounds garbage block.index
          d.offset old present in
      Runs-bind _
        (Runs-cast refl (sym (at_file_same v fd p d (image_bytes image) is holds)) stored_)
        (rw well (
          Runs-bind _ search_run (
            Runs-bind _
              (Runs-cast refl (ap (λ c. at_file v fd p c (o + 20)) (image_bytes-header image)) (
                Runs-replace_pair garbage (calculate_hash sha1 block.buffer block.size)
                  (image_bytes image) o signed hash_size at small within))
              (Runs-seq
                (Runs-cast refl
                  (ap (λ c. at_file v fd p c 23) (sym (image_bytes-header (with_size image _))))
                  (Runs-write_header law whole fuel (omega arith) v fd p d is
                    (resized file (pos (8 + length bytes)) block.size) image.size
                    (length image.pairs) (length image.pairs) (pairs_bytes image.pairs) (o + 20)
                    this shows.blocks_same))
                (Runs-pure _ _)))))
