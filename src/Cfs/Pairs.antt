-- ===== src/Cfs/Pairs.antt =====
-- Searching the pairs of a file, in `cfs_file_find_index` of cfs/src/cfs.c.
use fusefs_block.Base.{
  ℕ, zero, suc, ◌+◌, ◌*◌, ◌^◌, ◌≤◌, ◌<◌, ◌≡◌, refl, sym, ap, ◌∙◌, Bool-cases, inl, inr, true, false,
  some, arith, List, [], ◌∷◌, ◌++◌, All, ℤ, pos, ◌+ℤ◌, ◌==ℤ◌, to_size, of_word, length, take, drop,
  take-append, drop-append, drop-drop, word_value, length-word_bytes, word_value-word_bytes,
  if◌then◌else◌, Bytes, CString,
}
use fusefs_block.Posix.{Posix, seek_cur, seek_set}
use fusefs_block.Posix.View.{
  View, Descriptor, find_fd, find_fd-seek_fd, can_read, moved, moved-moved,
}
use fusefs_block.Posix.Laws.{IsPosix}
use fusefs_block.Posix.Runs.{Ends, Runs, Runs-pure, Runs-bind, Runs-seq, Runs-cast}
use fusefs_block.Io.{s_lseek, s_read}
use fusefs_block.Io.Seek.{Runs-s_lseek}
use fusefs_block.Io.Read.{Runs-s_read}
use fusefs_block.Cfs.{CfsFile, Garbage, block_start, off_size, off_bytes, put_off}
use fusefs_block.Cfs.Blocks.{find_loop, cfs_file_find_index}
use fusefs_block.Cfs.Register.{put_off-whole}

-- An index and a hash; the index fits an `off_t`.
pub record Pair : Type 0 where
  pub index : ℤ
  pub hash : Bytes

pub record IsPair (pair : Pair) : Type 0 where
  pub hash_length : length pair.hash ≡ 20
  pub index_fits : of_word 64 (to_size pair.index) ≡ pair.index
  pub word_fits : to_size pair.index < 2 ^ 64

-- How the pairs stand in the file.
unfoldable pub pairs_bytes : List Pair → Bytes
pairs_bytes [] = []
pairs_bytes (pair ∷ pairs) = off_bytes pair.index ++ (pair.hash ++ pairs_bytes pairs)

-- The result of a search, and where it stops: behind the first pair's index that is equal, or at
-- the end.
unfoldable pub search : ℤ → List Pair → ℕ → ℤ × ℕ
search index [] o = (pos 0, o)
search index (pair ∷ pairs) o =
    let later = search index pairs (o + 28) in
    if pair.index ==ℤ index then (pos 1, o + 8) else later

pub length-off_bytes : (z : ℤ) → length (off_bytes z) ≡ 8
length-off_bytes z = unfold off_bytes in length-word_bytes 8 (to_size z)

pub word_value-off_bytes : (z : ℤ) → to_size z < 2 ^ 64 → word_value (off_bytes z) ≡ to_size z
unfolding off_bytes
word_value-off_bytes z h = word_value-word_bytes 8 (to_size z) h

-- An `off_t` is read back from its bytes.
pub put_off-off_bytes :
    (z : ℤ) (pair : Pair) → IsPair pair → put_off z (off_bytes pair.index) ≡ pair.index
put_off-off_bytes z pair is =
    put_off-whole z (off_bytes pair.index) (length-off_bytes pair.index)
    ∙ ap (of_word 64) (word_value-off_bytes pair.index is.word_fits)
    ∙ is.index_fits

pub after_pair :
    (o : ℕ) (c : Bytes) (pair : Pair) (pairs : List Pair)
    → IsPair pair
    → drop o c ≡ pairs_bytes (pair ∷ pairs)
    → drop (o + 28) c ≡ pairs_bytes pairs
unfolding pairs_bytes
after_pair o c pair pairs is rest =
    ap (λ n. drop n c) (let sum : o + 28 ≡ o + 8 + 20 = omega arith in sum)
    ∙ sym (drop-drop 20 (o + 8) c)
    ∙ ap (drop 20) (
        sym (drop-drop 8 o c)
        ∙ ap (drop 8) rest
        ∙ drop-append 8 (off_bytes pair.index) _ (length-off_bytes pair.index))
    ∙ drop-append 20 pair.hash _ is.hash_length

module _ {os : Posix} (law : IsPosix os) {signals : ℕ} (fuel : ℕ) (v : View) (fd : ℕ)
    (d : Descriptor) (p : CString) (c : Bytes) (open_ : find_fd fd v.descriptors ≡ some d)
    (file : d.file ≡ some p) (readable : can_read d.access ≡ true) (holds : v.files p ≡ some c)
    (enough : 8 + signals < fuel) (small : length c < 2 ^ 31) where
  Runs-read_index :
      (o : ℕ) (bytes : Bytes)
      → take 8 (drop o c) ≡ bytes
      → Runs law signals
          (s_read os fuel (pos fd) off_size)
          (moved v fd o)
          (pos (length bytes), bytes)
          (moved v fd (o + length bytes))
  Runs-read_index o bytes e =
      Runs-cast (ap (λ t. (pos (length t), t)) e)
        (moved-moved v fd o _ ∙ ap (λ t. moved v fd (o + length t)) e)
        (Runs-s_read law signals fd p c fuel 8 (moved v fd o) (record d { offset = o })
          (find_fd-seek_fd fd o v.descriptors d open_) file readable holds enough)

  Runs-read_pair :
      (o : ℕ) (pair : Pair) (pairs : List Pair)
      → drop o c ≡ pairs_bytes (pair ∷ pairs)
      → Runs law signals
          (s_read os fuel (pos fd) off_size)
          (moved v fd o)
          (pos 8, off_bytes pair.index)
          (moved v fd (o + 8))
  unfolding pairs_bytes
  Runs-read_pair o pair pairs rest =
      let len : length (off_bytes pair.index) ≡ 8 = length-off_bytes pair.index in
      Runs-cast (ap (λ n. (pos n, off_bytes pair.index)) len) (ap (λ n. moved v fd (o + n)) len) (
        Runs-read_index o (off_bytes pair.index)
          (ap (take 8) rest ∙ take-append 8 (off_bytes pair.index) _ len))

  Runs-skip_hash :
      (o o' : ℕ)
      → o' ≡ o + 20
      → o' ≤ length c
      → Runs law signals
          (s_lseek os fuel (pos fd) (pos 20) seek_cur)
          (moved v fd o)
          (pos o')
          (moved v fd o')
  Runs-skip_hash o o' e within = Runs-cast refl (moved-moved v fd o o') (
      Runs-s_lseek law fuel (moved v fd o) fd (pos 20) seek_cur o' (record d { offset = o }) p c
        (find_fd-seek_fd fd o v.descriptors d open_) file holds sum (omega arith) (omega arith))
    where
      sum : pos o +ℤ pos 20 ≡ pos o'
      sum = unfold ◌+ℤ◌ in ground arith

  pub Runs-find_loop :
      (index buff : ℤ) (pairs : List Pair) (rounds o : ℕ)
      → drop o c ≡ pairs_bytes pairs
      → All IsPair pairs
      → o + 28 * length pairs ≡ length c
      → length pairs < rounds
      → Runs law signals
          (find_loop os fuel rounds (pos fd) index buff)
          (moved v fd o)
          (search index pairs o).0
          (moved v fd (search index pairs o).1)
  unfolding find_loop search
  Runs-find_loop index buff [] zero o rest are ends lt = absurd (omega arith)
  Runs-find_loop index buff [] (suc rounds) o rest are ends lt =
      Runs-bind _ (Runs-read_index o [] (ap (take 8) rest ∙ unfold pairs_bytes in refl))
        (Runs-cast refl (ap (moved v fd) (omega arith)) (Runs-pure (pos 0) _))
  Runs-find_loop index buff (pair ∷ pairs) zero o rest are ends lt = absurd (omega arith)
  Runs-find_loop index buff (pair ∷ pairs) (suc rounds) o rest (is, are) ends lt =
      Runs-bind _ (Runs-read_pair o pair pairs rest) (
        rw (put_off-off_bytes buff pair is) (elim (Bool-cases (pair.index ==ℤ index)) [
          | inl same ↦ rw same (Runs-pure _ _)
          | inr other ↦ rw other (
              Runs-seq (Runs-skip_hash (o + 8) (o + 28) (omega arith) (omega arith)) (
                Runs-find_loop index pair.index pairs rounds (o + 28)
                  (after_pair o c pair pairs is rest) are (omega arith) (omega arith)))
        ]))

-- In a file of less than 2^31 bytes whose header says that it has blocks, and behind whose header
-- stand pairs of an index and a hash, `cfs_file_find_index` ends, whatever short reads and
-- interruptions happen. It returns 1 and leaves the offset behind the first index that is equal,
-- where the hash of that pair begins; if no index is equal, it returns 0 with the offset at the
-- end of the file. Nothing else changes. The descriptor of the file is open for reading; every
-- hash has 20 bytes and every index fits an `off_t`; the fuel is above the number of pairs, and
-- above 8 and the pending signals together.
pub cfs_file_find_index_lem :
    {os : Posix} (law : IsPosix os) (signals fuel fd : ℕ) (s : os.State) (d : Descriptor)
    (p : CString) (c : Bytes) (garbage : Garbage) (file : CfsFile) (index : ℤ) (pairs : List Pair)
    → find_fd fd (law.view s).descriptors ≡ some d
    → d.file ≡ some p
    → can_read d.access ≡ true
    → (law.view s).files p ≡ some c
    → law.pending s ≤ signals
    → 8 + signals < fuel
    → length pairs < fuel
    → length c < 2 ^ 31
    → drop block_start c ≡ pairs_bytes pairs
    → All IsPair pairs
    → block_start + 28 * length pairs ≡ length c
    → file.fd ≡ pos fd
    → file.total_blocks ==ℤ pos 0 ≡ false
    → Ends law signals
        (cfs_file_find_index os fuel garbage file index)
        s
        (search index pairs block_start).0
        (moved (law.view s) fd (search index pairs block_start).1)
unfolding cfs_file_find_index ◌+ℤ◌
cfs_file_find_index_lem law signals fuel fd s d p c garbage file index pairs hd hp ha hc calm enough
      rounds small rest are ends this some_blocks =
    rw (cfs_file_find_index, some_blocks, this)
      ((Runs-seq
          (Runs-s_lseek law fuel (law.view s) fd (pos block_start) seek_set block_start d p c hd hp
            hc refl (omega arith) (omega arith))
          (Runs-find_loop law fuel (law.view s) fd d p c hd hp ha hc enough small index
            garbage.index pairs fuel block_start rest are ends rounds)).from
        s refl calm)
