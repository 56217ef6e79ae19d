-- ===== src/Cfscat/Lines.antt =====
-- The loop of cfs/src/cfscat.c over the pairs of a file.
use fusefs_block.Base.{
  ℕ, suc, ◌+◌, ◌*◌, ◌≤◌, ◌<◌, ◌≡◌, refl, sym, ap, ◌∙◌, some, arith, List, [], ◌∷◌, ◌++◌, All, ℤ,
  pos, to_int, length, take, take-all, take-append, drop, drop-all, drop-append, drop-drop, Bytes,
  CString, Option,
}
use mathlib.Core.List.{append-nil}
use fusefs_block.Posix.{Posix, rd_only}
use fusefs_block.Posix.View.{View}
use fusefs_block.Posix.Laws.{IsPosix}
use fusefs_block.Posix.Runs.{Runs, Runs-pure, Runs-bind, Runs-cast}
use fusefs_block.Io.{s_read}
use fusefs_block.Io.Held.{holding, held-s_read}
use fusefs_block.Util.{hexify}
use fusefs_block.Util.Hexify.{hex_text, hexify_lem}
use fusefs_block.Cfs.{overlay, off_bytes}
use fusefs_block.Cfs.Pairs.{
  Pair, IsPair, pairs_bytes, length-off_bytes, put_off-off_bytes, after_pair,
}
use fusefs_block.Cfscat.{Line, list_loop, text_of}

-- The line of a pair has the index as an `int`, and all 40 digits of its hash.
abbrev pub line_of : Pair → Line
line_of pair = record { index = to_int pair.index; hash_text = hex_text pair.hash }

unfoldable pub lines_of : List Pair → List Line
lines_of [] = []
lines_of (pair ∷ pairs) = line_of pair ∷ lines_of pairs

overlay-whole : (buf bytes : Bytes) → length buf ≡ length bytes → overlay buf bytes ≡ bytes
unfolding overlay
overlay-whole buf bytes e =
    ap (λ t. bytes ++ t) (drop-all (length bytes) buf (omega arith)) ∙ append-nil bytes

-- The buffer of 41 bytes has room for the digits of 20 bytes and the terminator.
whole_text :
    (hash : Bytes) (before : CString)
    → length hash ≡ 20
    → text_of (hexify hash 20 41).1 before ≡ hex_text hash
unfolding text_of
whole_text hash before h =
    ap (λ (r : ℕ × Option CString). text_of r.1 before)
      (hexify_lem hash 20 41 (omega arith) (omega arith) (omega arith))
    ∙ ap hex_text (take-all 20 hash (omega arith))

module _ (o : ℕ) (pair : Pair) (pairs : List Pair) (c : Bytes) (is : IsPair pair)
    (rest : drop o c ≡ pairs_bytes (pair ∷ pairs)) where
  index_here : take 8 (drop o c) ≡ off_bytes pair.index
  unfolding pairs_bytes
  index_here =
      ap (take 8) rest ∙ take-append 8 (off_bytes pair.index) _ (length-off_bytes pair.index)

  hash_here : take 20 (drop (o + 8) c) ≡ pair.hash
  unfolding pairs_bytes
  hash_here =
      ap (take 20) (
        sym (drop-drop 8 o c)
        ∙ ap (drop 8) rest
        ∙ drop-append 8 (off_bytes pair.index) _ (length-off_bytes pair.index))
      ∙ take-append 20 pair.hash _ is.hash_length

module _ {os : Posix} (law : IsPosix os) {signals : ℕ} (fuel : ℕ) (v : View) (fd : ℕ) (p : CString)
    (c : Bytes) (holds : v.files p ≡ some c) (enough : 20 + signals < fuel) where
  Runs-read_part :
      (o n o' : ℕ) (bytes : Bytes)
      → o + n ≡ o'
      → n ≤ 20
      → take n (drop o c) ≡ bytes
      → length bytes ≡ n
      → Runs law signals
          (s_read os fuel (pos fd) n)
          (holding v fd p rd_only o)
          (pos n, bytes)
          (holding v fd p rd_only o')
  Runs-read_part o n o' bytes end few e len =
      Runs-cast (ap (λ t. (pos (length t), t)) e ∙ ap (λ k. (pos k, bytes)) len)
        (ap (λ t. holding v fd p rd_only (o + length t)) e
          ∙ ap (λ k. holding v fd p rd_only (o + k)) len
          ∙ ap (holding v fd p rd_only) end)
        (held-s_read law v fd p rd_only o fuel n holds refl (omega arith))

  pub Runs-list_loop :
      (pairs : List Pair) (o : ℕ) (index_buf : ℤ) (hash_buf : Bytes) (hex_buf : CString)
      → drop o c ≡ pairs_bytes pairs
      → All IsPair pairs
      → length hash_buf ≡ 20
      → Runs law signals
          (list_loop os fuel (length pairs) (pos fd) index_buf hash_buf hex_buf)
          (holding v fd p rd_only o)
          (lines_of pairs)
          (holding v fd p rd_only (o + 28 * length pairs))
  unfolding list_loop lines_of
  Runs-list_loop [] o index_buf hash_buf hex_buf rest are buf =
      Runs-cast refl (ap (holding v fd p rd_only) (let e : o ≡ o + 28 * 0 = omega arith in e))
        (Runs-pure _ _)
  Runs-list_loop (pair ∷ pairs) o index_buf hash_buf hex_buf rest (is, are) buf =
      Runs-bind _
        (Runs-read_part o 8 (o + 8) (off_bytes pair.index) refl (omega arith)
          (index_here o pair pairs c is rest) (length-off_bytes pair.index))
        (Runs-bind _
          (Runs-read_part (o + 8) 20 (o + 28) pair.hash (omega arith) (omega arith)
            (hash_here o pair pairs c is rest) is.hash_length)
          (rw
            (
              put_off-off_bytes index_buf pair is,
              overlay-whole hash_buf pair.hash (buf ∙ sym is.hash_length),
              whole_text pair.hash hex_buf is.hash_length,
            )
            (Runs-bind _
              (Runs-list_loop pairs (o + 28) pair.index pair.hash (hex_text pair.hash)
                (after_pair o c pair pairs is rest) are is.hash_length)
              (Runs-cast refl
                (ap (holding v fd p rd_only) (
                  let e : o + 28 + 28 * length pairs ≡ o + 28 * suc (length pairs) = omega arith in
                  e))
                (Runs-pure _ _)))))
