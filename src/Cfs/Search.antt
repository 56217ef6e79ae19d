-- ===== src/Cfs/Search.antt =====
-- `cfs_file_find_index` of cfs/src/cfs.c on a file whose contents are an image.
use fusefs_block.Base.{
  ℕ, ◌+◌, ◌*◌, ◌^◌, ◌≤◌, ◌<◌, ◌≡◌, refl, ap, false, none, some, arith, All, ℤ, pos, ◌+ℤ◌, ◌==ℤ◌,
  length, take, drop, Bytes, CString,
}
use native.Mathlib.Decide.{dec_le}
use fusefs_block.Posix.{Posix, seek_set}
use fusefs_block.Posix.View.{View, Descriptor, stored, put_file_self}
use fusefs_block.Posix.Laws.{IsPosix}
use fusefs_block.Posix.Runs.{Runs, Runs-pure, Runs-seq, Runs-cast}
use fusefs_block.Io.Opened.{IsOpened, at_file, opened-s_lseek}
use fusefs_block.Cfs.{CfsFile, Garbage, block_start}
use fusefs_block.Cfs.Blocks.{cfs_file_find_index}
use fusefs_block.Cfs.Pairs.{IsPair, search, Runs-find_loop}
use fusefs_block.Cfs.Image.{
  Image, image_bytes, find_pair, length-image_bytes, drop-image_bytes, search_found, search_absent,
}

-- An entry of the table for a file whose contents are an image.
pub record Shows (file : CfsFile) (fd : ℕ) (image : Image) : Type 0 where
  pub fd_same : file.fd ≡ pos fd
  pub size_same : file.size ≡ image.size
  pub blocks_same : file.total_blocks ≡ pos (length image.pairs)
  pub pairs_fit : All IsPair image.pairs
  pub small : 23 + 28 * (length image.pairs + 1) < 2 ^ 31

-- Offsets in such a file fit an `int`, also behind one more pair.
pub image_small :
    (file : CfsFile) (fd : ℕ) (image : Image)
    → Shows file fd image
    → length (image_bytes image) + 28 < 2 ^ 31
image_small file fd image shows =
    omega (arith, shows.small, length-image_bytes image shows.pairs_fit)

module _ {os : Posix} (law : IsPosix os) {signals : ℕ} (fuel : ℕ) (v : View) (fd : ℕ) (p : CString)
    (d : Descriptor) (is : IsOpened v fd p d) (file : CfsFile) (image : Image)
    (shows : Shows file fd image) (enough : 8 + signals < fuel)
    (rounds : length image.pairs < fuel) where
  -- The search of a file that has blocks.
  Runs-search :
      (garbage : Garbage) (index : ℤ) (o : ℕ)
      → 0 < length image.pairs
      → Runs law signals
          (cfs_file_find_index os fuel garbage file index)
          (at_file v fd p (image_bytes image) o)
          (search index image.pairs 23).0
          (at_file v fd p (image_bytes image) (search index image.pairs 23).1)
  unfolding cfs_file_find_index ◌+ℤ◌
  Runs-search garbage index o some_pairs =
      rw (cfs_file_find_index, shows.fd_same, shows.blocks_same, nonzero)
        (Runs-seq
          (opened-s_lseek law v fd p d is fuel (image_bytes image) o (pos block_start) seek_set
            block_start refl (omega arith) (omega arith))
          (Runs-cast refl refl (
            Runs-find_loop law fuel (stored v p (some (image_bytes image))) fd d p
              (image_bytes image) is.found is.path_same is.reads (put_file_self p _ v.files) enough
              (omega (arith, shows.small, length-image_bytes image shows.pairs_fit)) index
              garbage.index image.pairs fuel 23 (drop-image_bytes image) shows.pairs_fit
              (omega (arith, length-image_bytes image shows.pairs_fit)) rounds)))
    where
      nonzero : (pos (length image.pairs) ==ℤ pos 0) ≡ false
      nonzero = ground arith

  -- Where the index is missing, the result is 0; the descriptor may have moved.
  pub Runs-search_absent :
      (garbage : Garbage) (index : ℤ) (o : ℕ)
      → find_pair index image.pairs ≡ none
      → (o' : ℕ) × Runs law signals
          (cfs_file_find_index os fuel garbage file index)
          (at_file v fd p (image_bytes image) o)
          (pos 0)
          (at_file v fd p (image_bytes image) o')
  unfolding cfs_file_find_index
  Runs-search_absent garbage index o absent = elim (dec_le 1 (length image.pairs)) [
    | yes some_pairs ↦ (
      23 + 28 * length image.pairs,
      Runs-cast (ap (λ (r : ℤ × ℕ). r.0) stops)
          (ap (λ (r : ℤ × ℕ). at_file v fd p (image_bytes image) r.1) stops)
          (Runs-search garbage index o some_pairs),
    )
    | no empty ↦
        let none_yet : length image.pairs ≡ 0 = omega arith in
        (o, rw (cfs_file_find_index, shows.blocks_same, none_yet) (Runs-pure (pos 0) _))
  ]
    where
      stops : search index image.pairs 23 ≡ (pos 0, 23 + 28 * length image.pairs)
      stops = search_absent index image.pairs 23 absent

  -- Where it is found, the result is 1 and the descriptor stands in front of the hash.
  pub Runs-search_found :
      (garbage : Garbage) (index : ℤ) (o : ℕ) (hash : Bytes)
      → find_pair index image.pairs ≡ some hash
      → (o' : ℕ) × Runs law signals
          (cfs_file_find_index os fuel garbage file index)
          (at_file v fd p (image_bytes image) o)
          (pos 1)
          (at_file v fd p (image_bytes image) o')
        × (take 20 (drop o' (image_bytes image)) ≡ hash)
        × (o' + 20 ≤ length (image_bytes image))
        × (23 ≤ o')
  Runs-search_found garbage index o hash present =
      let (o', stops, at, le, ge) =
        search_found index image.pairs 23 (image_bytes image) hash present shows.pairs_fit
          (drop-image_bytes image) in
      (
        o',
        Runs-cast (ap (λ (r : ℤ × ℕ). r.0) stops)
            (ap (λ (r : ℤ × ℕ). at_file v fd p (image_bytes image) r.1) stops)
            (Runs-search garbage index o (omega arith)),
        at,
        omega (arith, length-image_bytes image shows.pairs_fit),
        ge,
      )
