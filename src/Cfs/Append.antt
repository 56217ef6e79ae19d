-- ===== src/Cfs/Append.antt =====
-- `cfs_file_register_block` of cfs/src/cfs.c for an index that the file does not have.
use fusefs_block.Base.{
  ℕ, ◌+◌, ◌^◌, ◌<◌, ◌≡◌, refl, sym, ap, ◌∙◌, false, none, some, arith, [], ◌∷◌, ◌++◌, ℤ, pos, ◌+ℤ◌,
  is_neg, to_off, to_off-pos, length, length-append, Bytes, CString,
}
use mathlib.Core.List.{append_assoc}
use fusefs_block.Posix.{Posix, seek_set, seek_end}
use fusefs_block.Posix.View.{View, Descriptor, overwrite}
use fusefs_block.Posix.Overwrite.{overwrite_end, overwrite-overwrite}
use fusefs_block.Posix.Laws.{IsPosix}
use fusefs_block.Posix.Runs.{Runs, Runs-pure, Runs-bind, Runs-seq, Runs-cast}
use fusefs_block.Io.Write.{IsWhole}
use fusefs_block.Io.Opened.{IsOpened, at_file, at_file_same, opened-s_lseek, opened-s_write}
use fusefs_block.Util.{calculate_hash}
use fusefs_block.Storage.{BlkStore}
use fusefs_block.Storage.Block.{store_block}
use fusefs_block.Cfs.{CfsFile, CfsBlock, Garbage, size_start, off_bytes}
use fusefs_block.Cfs.Blocks.{append_pair, write_header, resized, cfs_file_register_block}
use fusefs_block.Cfs.Pairs.{pairs_bytes, length-off_bytes}
use fusefs_block.Cfs.Image.{
  Image, header_bytes, image_bytes, find_pair, pairs_bytes-append, overwrite_header,
}
use fusefs_block.Cfs.Search.{Shows, image_small, Runs-search_absent}

module _ {os : Posix} (law : IsPosix os) (whole : IsWhole os) {signals : ℕ} (fuel : ℕ)
    (enough : 20 + signals < fuel) (v : View) (fd : ℕ) (p : CString) (d : Descriptor)
    (is : IsOpened v fd p d) where
  -- The header is replaced, and what follows it stays.
  pub Runs-write_header :
      (file : CfsFile) (size : ℤ) (n n' : ℕ) (back : Bytes) (o : ℕ)
      → file.fd ≡ pos fd
      → file.total_blocks ≡ pos n'
      → Runs law signals
          (write_header os fuel file)
          (at_file v fd p (header_bytes size n ++ back) o)
          (pos (length (off_bytes file.total_blocks)))
          (at_file v fd p (header_bytes file.size n' ++ back) 23)
  unfolding write_header ◌+ℤ◌
  Runs-write_header file size n n' back o this blocks = rw this (
      Runs-seq
        (opened-s_lseek law v fd p d is fuel _ o (pos size_start) seek_set 7 refl (omega arith)
          (omega arith))
        (Runs-seq
          (opened-s_write law v fd p d is whole fuel _ 7 (off_bytes file.size) _ 15 refl
            (omega (arith, length-off_bytes file.size)) (omega (arith, length-off_bytes file.size))
            (omega (arith, length-off_bytes file.size)))
          (opened-s_write law v fd p d is whole fuel _ 15 (off_bytes file.total_blocks) _ 23 both
            (omega (arith, length-off_bytes file.total_blocks))
            (omega (arith, length-off_bytes file.total_blocks))
            (omega (arith, length-off_bytes file.total_blocks)))))
    where
      both :
          overwrite
            (overwrite (header_bytes size n ++ back) 7 (off_bytes file.size))
            15
            (off_bytes file.total_blocks)
          ≡ header_bytes file.size n' ++ back
      both =
          overwrite-overwrite _ 7 (off_bytes file.size) (off_bytes file.total_blocks) 15
            (omega (arith, length-off_bytes file.size))
          ∙ ap (λ z. overwrite (header_bytes size n ++ back) 7 (off_bytes file.size ++ off_bytes z))
              blocks
          ∙ overwrite_header size file.size n n' back

  -- A pair is written at the end.
  pub Runs-append_pair :
      (file : CfsFile) (index : ℤ) (hash c : Bytes) (o : ℕ)
      → file.fd ≡ pos fd
      → length hash ≡ 20
      → length c < 2 ^ 31
      → Runs law signals
          (append_pair os fuel file index hash)
          (at_file v fd p c o)
          (pos 0)
          (at_file v fd p (c ++ (off_bytes index ++ hash)) (length c + 28))
  unfolding append_pair
  Runs-append_pair file index hash c o this h small = rw this (
      Runs-seq
        (opened-s_lseek law v fd p d is fuel c o (pos 0) seek_end (length c)
          (unfold ◌+ℤ◌ in ground arith) small (omega arith))
        (Runs-seq
          (opened-s_write law v fd p d is whole fuel c (length c) (off_bytes index) _ (length c + 8)
            (overwrite_end c (length c) (off_bytes index) refl)
            (omega (arith, length-off_bytes index)) (omega (arith, length-off_bytes index))
            (omega (arith, length-off_bytes index)))
          (Runs-seq
            (opened-s_write law v fd p d is whole fuel (c ++ off_bytes index) (length c + 8) hash _
              (length c + 28)
              (overwrite_end (c ++ off_bytes index) (length c + 8) hash
                  (omega (arith, length-append c (off_bytes index), length-off_bytes index))
                ∙ append_assoc c (off_bytes index) hash)
              (omega arith) (omega arith) (omega arith))
            (Runs-pure (pos 0) _))))

-- The image with one more pair.
abbrev pub with_pair : Image → ℤ → ℤ → Bytes → Image
with_pair image size index hash = record {
  size = size;
  pairs = image.pairs ++ (record { index = index; hash = hash } ∷ []);
}

image_bytes-split :
    (image : Image) (rest : Bytes)
    → image_bytes image ++ rest
      ≡ header_bytes image.size (length image.pairs) ++ (pairs_bytes image.pairs ++ rest)
unfolding image_bytes
image_bytes-split image rest =
    append_assoc (header_bytes image.size (length image.pairs)) (pairs_bytes image.pairs) rest

image_bytes-with_pair :
    (image : Image) (size index : ℤ) (hash : Bytes)
    → image_bytes (with_pair image size index hash)
      ≡ header_bytes size (length image.pairs + 1)
        ++ (pairs_bytes image.pairs ++ (off_bytes index ++ hash))
unfolding image_bytes
image_bytes-with_pair image size index hash =
    ap
      (λ t.
        header_bytes size (length (image.pairs ++ (record { index = index; hash = hash } ∷ [])))
        ++ t)
      (pairs_bytes-append image.pairs _)
    ∙ ap (λ n. header_bytes size n ++ (pairs_bytes image.pairs ++ (off_bytes index ++ hash)))
        (length-append image.pairs _)

-- The entry and the image after a block of `n` bytes has been registered at a new index.
abbrev pub grown_file : CfsFile → ℕ → CfsFile
grown_file file n =
    resized (record file { total_blocks = to_off (file.total_blocks +ℤ pos 1) }) (pos 0) n

abbrev pub grown_image : CfsFile → Image → ℤ → Bytes → ℕ → Image
grown_image file image index hash n = with_pair image (grown_file file n).size index hash

-- One more block is counted.
pub more_blocks :
    (file : CfsFile) (fd : ℕ) (image : Image)
    → Shows file fd image
    → to_off (file.total_blocks +ℤ pos 1) ≡ pos (length image.pairs + 1)
more_blocks file fd image shows =
    ap to_off (ap (λ z. z +ℤ pos 1) shows.blocks_same ∙ one_more)
    ∙ to_off-pos (length image.pairs + 1) (omega (arith, shows.small))
  where
    one_more : (pos (length image.pairs) +ℤ pos 1) ≡ pos (length image.pairs + 1)
    one_more = unfold ◌+ℤ◌ in ground arith

module _ {os : Posix} (law : IsPosix os) (whole : IsWhole os) {signals : ℕ} (fuel : ℕ)
    (enough : 20 + signals < fuel) (sha1 : Bytes → Bytes) (storage : BlkStore) (block : CfsBlock)
    (garbage : Garbage) (file : CfsFile) (image : Image) (fd : ℕ) (p : CString) (d : Descriptor)
    (shows : Shows file fd image) (rounds : length image.pairs < fuel) (hash : Bytes)
    (is_hash : calculate_hash sha1 block.buffer block.size ≡ hash)
    (hash_length : length hash ≡ 20) where
  pub Runs-register_absent :
      (v w : View) {r : ℤ}
      → Runs law signals (store_block os fuel storage block.buffer block.size hash) v r w
      → is_neg r ≡ false
      → IsOpened w fd p d
      → w.files p ≡ some (image_bytes image)
      → find_pair block.index image.pairs ≡ none
      → Runs law signals
          (cfs_file_register_block os fuel sha1 garbage storage file block)
          v
          (pos 0, grown_file file block.size)
          (at_file w fd p (image_bytes (grown_image file image block.index hash block.size)) 23)
  unfolding cfs_file_register_block
  Runs-register_absent v w {r} stored_ well is holds absent =
      let small : length (image_bytes image) < 2 ^ 31 =
        omega (arith, image_small file fd image shows) in
      let enough8 : 8 + signals < fuel = omega arith in
      let (o, search_run) =
        Runs-search_absent law fuel w fd p d is file image shows enough8 rounds garbage block.index
          d.offset absent in
      rw is_hash (
        Runs-bind _
          (Runs-cast refl (sym (at_file_same w fd p d (image_bytes image) is holds)) stored_)
          (rw (well) (
            Runs-bind _ search_run (
              Runs-seq
                (Runs-cast refl
                  (ap (λ c. at_file w fd p c (length (image_bytes image) + 28))
                    (image_bytes-split image (off_bytes block.index ++ hash)))
                  (Runs-append_pair law whole fuel enough w fd p d is file block.index hash
                    (image_bytes image) o shows.fd_same hash_length small))
                (Runs-seq
                  (Runs-cast refl
                    (ap (λ c. at_file w fd p c 23)
                      (sym (
                        image_bytes-with_pair image (grown_file file block.size).size block.index
                          hash)))
                    (Runs-write_header law whole fuel enough w fd p d is
                      (grown_file file block.size) image.size (length image.pairs)
                      (length image.pairs + 1)
                      (pairs_bytes image.pairs ++ (off_bytes block.index ++ hash)) _ shows.fd_same
                      (more_blocks file fd image shows)))
                  (Runs-pure _ _))))))
