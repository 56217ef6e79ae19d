-- ===== src/Cfscat/Listing.antt =====
-- What cfs/src/cfscat.c prints of a CFS file.
use fusefs_block.Base.{
  ℕ, ◌+◌, ◌*◌, ◌^◌, ◌≤◌, ◌<◌, ◌≡◌, refl, sym, ap, ◌∙◌, true, none, some, arith, [], ◌∷◌, ◌++◌, All,
  pos, ◌+ℤ◌, to_int, to_int-pos, to_size, to_size-pos, of_word, length, take, take-append, drop,
  drop-append, drop-drop, word_value, Bytes, CString,
}
use mathlib.Core.List.{append_assoc}
use fusefs_block.Posix.{Posix, rd_only, seek_set, pure, ◌>>=◌, ◌>>◌}
use fusefs_block.Io.{s_lseek}
use fusefs_block.Posix.View.{View}
use fusefs_block.Posix.Laws.{IsPosix}
use fusefs_block.Posix.Runs.{Ends, Runs, Runs-pure, Runs-bind, Runs-seq, Runs-cast}
use fusefs_block.Posix.Calls.{Runs-open_existing}
use fusefs_block.Io.Held.{at_offset, holding, find_held, moved_held, held-s_lseek}
use fusefs_block.Util.{combine}
use fusefs_block.Storage.{read_only}
use fusefs_block.Cfs.{CfsFile, CfsState, Garbage, block_start, magic, off_bytes}
use fusefs_block.Cfs.Header.{size_field, blocks_field}
use fusefs_block.Cfs.Table.{cfs_get_file}
use fusefs_block.Cfs.Invariant.{IsTable}
use fusefs_block.Cfs.Register.{Runs-cfs_register_file}
use fusefs_block.Cfs.Pairs.{IsPair, pairs_bytes, length-off_bytes, word_value-off_bytes}
use fusefs_block.Cfs.Image.{Image, image_bytes, length-image_bytes, drop-image_bytes}
use fusefs_block.Cfscat.{printed, fd_of, rounds_of, list_loop, list_file}
use fusefs_block.Cfscat.Lines.{lines_of, Runs-list_loop}

-- An image whose numbers fit, of less than 2^31 bytes.
pub record IsImage (image : Image) : Type 0 where
  pub size_fits : of_word 64 (to_size image.size) ≡ image.size
  pub word_fits : to_size image.size < 2 ^ 64
  pub pairs_fit : All IsPair image.pairs
  pub small : 23 + 28 * length image.pairs < 2 ^ 31

module _ (image : Image) where
  abbrev numbers : Bytes
  numbers = off_bytes image.size ++ off_bytes (pos (length image.pairs))

  size_field-image : size_field (image_bytes image) ≡ off_bytes image.size
  unfolding image_bytes
  size_field-image =
      ap (take 8) (
        ap (drop 7) (append_assoc (magic ++ (0 ∷ [])) numbers (pairs_bytes image.pairs))
        ∙ drop-append 7 (magic ++ (0 ∷ [])) (numbers ++ pairs_bytes image.pairs) refl
        ∙ append_assoc (off_bytes image.size) (off_bytes (pos (length image.pairs)))
            (pairs_bytes image.pairs))
      ∙ take-append 8 (off_bytes image.size) _ (length-off_bytes image.size)

  blocks_field-image : blocks_field (image_bytes image) ≡ off_bytes (pos (length image.pairs))
  unfolding image_bytes
  blocks_field-image =
      ap (take 8) (
        sym (drop-drop 8 7 (image_bytes image))
        ∙ ap (drop 8) (
            ap (drop 7) (append_assoc (magic ++ (0 ∷ [])) numbers (pairs_bytes image.pairs))
            ∙ drop-append 7 (magic ++ (0 ∷ [])) (numbers ++ pairs_bytes image.pairs) refl
            ∙ append_assoc (off_bytes image.size) (off_bytes (pos (length image.pairs)))
                (pairs_bytes image.pairs))
        ∙ drop-append 8 (off_bytes image.size) _ (length-off_bytes image.size))
      ∙ take-append 8 (off_bytes (pos (length image.pairs))) _
          (length-off_bytes (pos (length image.pairs)))

small_word : (n : ℕ) → n < 2 ^ 63 → of_word 64 n ≡ pos n
small_word n h = ground arith

module _ {os : Posix} (law : IsPosix os) (signals fuel : ℕ) (garbage : Garbage) (state : CfsState)
    (root name : CString) (image : Image) (is : IsImage image) (table : IsTable state)
    (room : state.fds_cap < 2 ^ 63) (buffer : length garbage.hash ≡ 20)
    (enough : 20 + signals < fuel)
    (usable : law.usable (combine (some root) (some name)) ≡ true) where
  abbrev path : CString
  path = combine (some root) (some name)

  -- From the entry of the table on.
  Runs-print :
      (v : View) (fd : ℕ) (file : CfsFile)
      → v.files path ≡ some (image_bytes image)
      → file.size ≡ image.size
      → file.total_blocks ≡ pos (length image.pairs)
      → Runs law signals
          (s_lseek os fuel (pos fd) (pos block_start) seek_set
            >> (list_loop os fuel
                  (rounds_of file.total_blocks)
                  (pos fd)
                  garbage.index
                  garbage.hash
                  []
                >>= λ lines. pure (printed file.size (to_int file.total_blocks) lines)))
          (holding v fd path rd_only 23)
          (printed image.size (pos (length image.pairs)) (lines_of image.pairs))
          (holding v fd path rd_only (23 + 28 * length image.pairs))
  unfolding rounds_of ◌+ℤ◌
  Runs-print v fd file holds size blocks =
      rw (size, blocks, to_int-pos (length image.pairs) (omega (arith, is.small)))
        (Runs-seq
          (held-s_lseek law v fd path rd_only 23 fuel (pos 23) seek_set 23 holds refl (omega arith)
            (omega arith))
          (Runs-bind _
            (Runs-list_loop law fuel v fd path (image_bytes image) holds enough image.pairs 23
              garbage.index garbage.hash [] (drop-image_bytes image) is.pairs_fit buffer)
            (Runs-pure _ _)))

  Runs-list_file :
      (v : View)
      → v.files path ≡ some (image_bytes image)
      → cfs_get_file state (pos (law.fresh v)) ≡ none
      → Runs law signals
          (list_file os fuel garbage state root name)
          v
          (printed image.size (pos (length image.pairs)) (lines_of image.pairs))
          (holding v (law.fresh v) path rd_only (23 + 28 * length image.pairs))
  unfolding list_file fd_of rounds_of ◌+ℤ◌
  Runs-list_file v holds absent =
      let fd : ℕ = law.fresh v in
      let (after, run, registered) =
        Runs-cfs_register_file law signals fuel garbage state path fd (holding v fd path rd_only 0)
          (at_offset path rd_only 0) path (image_bytes image) table room absent
          (find_held v fd path rd_only 0) refl refl holds
          (omega (arith, length-image_bytes image is.pairs_fit)) (omega arith) in
      let (file, found, header) = registered.header in
      let size : file.size ≡ image.size =
        header.size_same
        ∙ ap (λ t. of_word 64 (word_value t)) (size_field-image image)
        ∙ ap (of_word 64) (word_value-off_bytes image.size is.word_fits)
        ∙ is.size_fits in
      let blocks : file.total_blocks ≡ pos (length image.pairs) =
        header.blocks_same
        ∙ ap (λ t. of_word 64 (word_value t)) (blocks_field-image image)
        ∙ ap (of_word 64) (
            word_value-off_bytes (pos (length image.pairs))
              (omega (arith, to_size-pos (length image.pairs), is.small))
            ∙ to_size-pos (length image.pairs) (omega (arith, is.small)))
        ∙ small_word (length image.pairs) (omega (arith, is.small)) in
      Runs-bind _ (Runs-open_existing law v path read_only 0 usable holds refl) (
        Runs-bind _ (Runs-cast refl (moved_held v fd path rd_only 0 23) run)
          (rw found (Runs-print v fd file holds size blocks)))

  -- For a CFS file that has a size and pairs of an index and a hash, and a table of open files
  -- that meets the invariant and does not have the descriptor that `open` gives, the program
  -- ends and prints, behind the messages of the logger, the size, the number of pairs, and for
  -- every pair in its order the index and all 40 digits of the hash, whatever short reads and
  -- interruptions happen. An index is printed as the `int` of its lowest 32 bits. Only one more
  -- descriptor is open afterwards, at the end of the file. The file has less than 2^31 bytes,
  -- its numbers fit an `off_t`, and the fuel is above 20 and the pending signals together.
  pub list_file_lem :
      (s : os.State)
      → (law.view s).files path ≡ some (image_bytes image)
      → cfs_get_file state (pos (law.fresh (law.view s))) ≡ none
      → law.pending s ≤ signals
      → Ends law signals
          (list_file os fuel garbage state root name)
          s
          (printed image.size (pos (length image.pairs)) (lines_of image.pairs))
          (holding
            (law.view s)
            (law.fresh (law.view s))
            path
            rd_only
            (23 + 28 * length image.pairs))
  list_file_lem s holds absent calm = (Runs-list_file (law.view s) holds absent).from s refl calm
