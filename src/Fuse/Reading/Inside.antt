-- ===== src/Fuse/Reading/Inside.antt =====
-- `bb_read` of cfs/src/bbfs.c where a request begins inside a block that is stored.
use fusefs_block.Base.{
  ℕ, zero, suc, ◌+◌, ◌-◌, ◌*◌, ◌/◌, ◌%◌, ◌≤◌, ◌<◌, ◌≡◌, refl, ap, ◌∙◌, some, arith, [], ◌∷◌, ◌++◌,
  pos, to_int, to_int-pos, lt→ltb, length, take, drop, Bytes, CString,
}
use fusefs_block.Posix.{Posix}
use fusefs_block.Posix.View.{View, Descriptor, overwrite}
use fusefs_block.Posix.Laws.{IsPosix}
use fusefs_block.Posix.Runs.{Ends, Runs, Runs-bind, Runs-cast}
use fusefs_block.Io.Write.{IsWhole}
use fusefs_block.Io.Opened.{IsOpened, at_file, at_file_same, Runs-arg, Runs-view}
use fusefs_block.Storage.{block_size}
use fusefs_block.Cfs.{IsReadable, CfsFile, CfsState, Garbage, overlay}
use fusefs_block.Cfs.Table.{cfs_get_file}
use fusefs_block.Cfs.Image.{Image, image_bytes}
use fusefs_block.Cfs.Search.{Shows}
use fusefs_block.Cfs.Load.{filled, Runs-read_found}
use fusefs_block.Fuse.Data.{zero_block, read_loop, bb_read}
use fusefs_block.Fuse.Aligned.{Runs-read_end}
use fusefs_block.Fuse.Reading.{IsStored}

-- The first bytes of a list, without some in front, do not depend on what follows it.
take-drop-append :
    (k left : ℕ) (xs ys : Bytes)
    → left + k ≤ length xs
    → take k (drop left (xs ++ ys)) ≡ take k (drop left xs)
take-drop-append zero zero xs ys h = refl
take-drop-append (suc k) zero [] ys h = absurd (omega arith)
take-drop-append (suc k) zero (x ∷ xs) ys h =
    ap (λ t. x ∷ t) (take-drop-append k zero xs ys (omega arith))
take-drop-append k (suc left) [] ys h = absurd (omega arith)
take-drop-append k (suc left) (x ∷ xs) ys h = take-drop-append k left xs ys (omega arith)

-- What a read that begins behind `left` bytes copies out of a block.
copied_inside :
    (n left : ℕ) (bytes : Bytes)
    → left + left ≤ length bytes
    → take
        ((filled zero_block (pos n) bytes).size - left - left)
        (drop left (filled zero_block (pos n) bytes).buffer)
      ≡ take (length bytes - left - left) (drop left bytes)
unfolding overlay
copied_inside n left bytes h =
    take-drop-append (length bytes - left - left) left bytes _ (omega arith)

module _ {os : Posix} (law : IsPosix os) (whole : IsWhole os) {signals : ℕ} (fuel : ℕ)
    (enough : block_size + signals < fuel) (v : View) (fd : ℕ) (p : CString) (d : Descriptor)
    (is : IsOpened v fd p d) (garbage : Garbage) (state : CfsState) (file : CfsFile) (image : Image)
    (shows : Shows file fd image) (pairs_rounds : length image.pairs < fuel)
    (readable : IsReadable garbage) where
  -- `bb_read` of bytes that begin inside a stored block, behind `left` of its bytes, and end in
  -- it. The call ends. It puts at the start of its buffer the bytes of the block from there on,
  -- but for the last `left` ones, which it misses, and however many were asked for. Its result
  -- is the length of a block less `left`. Nothing on the system changes but the offset of the
  -- descriptor. The file shows an image and is open for reading and writing, and the fuel is
  -- above the number of the pairs, and above 4096 and the pending signals together, on a system
  -- whose writes take all bytes of a call that is not interrupted. The block has at least twice
  -- `left` bytes; and what stands in place of the argument that cfs.c:355 does not pass is the
  -- address of memory that can be written, and the buffer for a hash has 20 bytes
  -- (`IsReadable`).
  pub bb_read_inside :
      (s : os.State) (out : Bytes) (size left n : ℕ) (bytes : Bytes)
      → cfs_get_file state (pos fd) ≡ some file
      → law.view s ≡ v
      → v.files p ≡ some (image_bytes image)
      → IsStored law v state.storage p image n bytes
      → 0 < size
      → left + left ≤ length bytes
      → left + size ≤ block_size
      → law.pending s ≤ signals
      → (o : ℕ) × Ends law signals
          (bb_read os fuel garbage state (pos fd) out size (block_size * n + left))
          s
          (
            pos (block_size - left),
            overwrite out 0 (take (length bytes - left - left) (drop left bytes)),
          )
          (at_file v fd p (image_bytes image) o)
  unfolding bb_read read_loop
  bb_read_inside s out size left n bytes found here holds stored some_bytes half fits calm =
      let (o, run) =
        Runs-read_found law whole fuel enough v fd p d is state.storage garbage file image shows
          pairs_rounds (pos n) zero_block d.offset stored.hash stored.refs bytes stored.found
          stored.hash_length readable stored.usable stored.apart stored.known stored.some_bytes
          stored.fits in
      let whole_run : Runs law signals
          (bb_read os fuel garbage state (pos fd) out size (block_size * n + left))
          (at_file v fd p (image_bytes image) d.offset)
          (
            pos (block_size - left),
            overwrite out 0 (take (length bytes - left - left) (drop left bytes)),
          )
          (at_file v fd p (image_bytes image) o) =
        rw (bb_read, found)
          (Runs-arg
            (λ rounds.
              read_loop os fuel garbage rounds state file (block_size * n + left) size
                (block_size * n + left) 0 out)
            (let e : fuel ≡ suc (suc (fuel - 2)) = omega arith in e)
            (rw
              (
                read_loop,
                lt→ltb (block_size * n + left) (block_size * n + left + size) (more some_bytes),
                rem fits some_bytes,
                number fits some_bytes,
              )
              (Runs-bind _ run (
                Runs-cast (λ i. (count fits i, overwrite out 0 (copied_inside n left bytes half i)))
                  refl
                  (Runs-read_end law fuel garbage state (fuel - 2) (block_size * n + left) size _ _
                    file _ _ (omega arith)))))) in
      (
        o,
        (Runs-view (at_file_same v fd p d (image_bytes image) is holds) whole_run).from s here calm,
      )
    where
      more : 0 < size → block_size * n + left < block_size * n + left + size
      more h = omega arith

      rem : left + size ≤ block_size → 0 < size → (block_size * n + left) % block_size ≡ left
      rem h k = omega arith

      number : left + size ≤ block_size → 0 < size → (block_size * n + left) / block_size ≡ n
      number h k = omega arith

      count :
          left + size ≤ block_size
          → to_int (pos (block_size * n + left + (block_size - left) - (block_size * n + left)))
            ≡ pos (block_size - left)
      count h =
          ap (λ z. to_int (pos z))
            (let e : block_size * n + left + (block_size - left) - (block_size * n + left)
                  ≡ block_size - left =
                omega arith in
              e)
          ∙ to_int-pos (block_size - left) (omega arith)
