-- ===== src/Fuse/Holes.antt =====
-- `bb_read` of cfs/src/bbfs.c where the file has no blocks.
use fusefs_block.Base.{
  ℕ, zero, suc, ◌+◌, ◌-◌, ◌*◌, ◌/◌, ◌%◌, ◌^◌, ◌≤◌, ◌<◌, ◌≡◌, refl, sym, ap, ◌∙◌, none, some, arith,
  ℤ, pos, to_int, to_int-pos, lt→ltb, length, length-replicate, replicate, min, Bytes, CString,
}
use fusefs_block.Posix.{Posix}
use fusefs_block.Posix.View.{View, Descriptor, overwrite}
use fusefs_block.Posix.Overwrite.{overwrite-nil, overwrite-overwrite}
use fusefs_block.Posix.Laws.{IsPosix}
use fusefs_block.Posix.Runs.{Ends, Runs, Runs-bind, Runs-cast}
use fusefs_block.Io.Write.{IsWhole}
use fusefs_block.Io.Opened.{IsOpened, at_file, at_file_same, Runs-arg}
use fusefs_block.Storage.{block_size}
use native.Mathlib.Decide.{dec_le}
use fusefs_block.Cfs.{CfsFile, CfsState, Garbage}
use fusefs_block.Cfs.Table.{cfs_get_file}
use fusefs_block.Cfs.Slots.{replicate-append}
use fusefs_block.Cfs.Image.{Image, image_bytes, find_pair}
use fusefs_block.Cfs.Search.{Shows}
use fusefs_block.Cfs.Load.{Runs-read_absent}
use fusefs_block.Fuse.Aligned.{Runs-read_end}
use fusefs_block.Fuse.Data.{zero_block, read_loop, bb_read}

-- The zeros of a block, and those behind it.
zeros_joined :
    (buf : Bytes) (index k : ℕ)
    → overwrite
        (overwrite buf index (replicate (min block_size k) 0))
        (index + block_size)
        (replicate (k - block_size) 0)
      ≡ overwrite buf index (replicate k 0)
zeros_joined buf index k = elim (dec_le k block_size) [
  | yes few ↦
      (λ i.
        overwrite (overwrite buf index (replicate (all few i) 0)) (index + block_size)
          (replicate (left few i) 0))
      ∙ overwrite-nil (overwrite buf index (replicate k 0)) (index + block_size)
  | no many ↦
      (λ i.
        overwrite (overwrite buf index (replicate (full many i) 0)) (index + block_size)
          (replicate (k - block_size) 0))
      ∙ overwrite-overwrite buf index (replicate block_size 0) (replicate (k - block_size) 0)
          (index + block_size) (ap (λ n. index + n) (sym (length-replicate {A = ℕ} block_size 0)))
      ∙ ap (overwrite buf index) (replicate-append block_size (k - block_size) 0 k (omega arith))
]
  where
    all : k ≤ block_size → min block_size k ≡ k
    all h = omega arith

    left : k ≤ block_size → k - block_size ≡ 0
    left h = omega arith

    full : ¬ (k ≤ block_size) → min block_size k ≡ block_size
    full h = omega arith

module _ {os : Posix} (law : IsPosix os) (whole : IsWhole os) {signals : ℕ} (fuel : ℕ)
    (enough : block_size + signals < fuel) (v : View) (fd : ℕ) (p : CString) (d : Descriptor)
    (is : IsOpened v fd p d) (garbage : Garbage) (state : CfsState) (file : CfsFile) (image : Image)
    (shows : Shows file fd image) (pairs_rounds : length image.pairs < fuel) where
  -- One round at the start of a block that is not found.
  pub Runs-hole_round :
      (rounds offset size current index n k o : ℕ) (buf : Bytes)
      → find_pair (pos n) image.pairs ≡ none
      → current ≡ block_size * n
      → offset ≤ current
      → k ≡ offset + size - current
      → 0 < k
      → (o' : ℕ) × ((a : ℤ × Bytes) (w : View)
          → Runs law signals
              (read_loop os fuel garbage rounds state file offset size
                (current + block_size)
                (index + block_size)
                (overwrite buf index (replicate (min block_size k) 0)))
              (at_file v fd p (image_bytes image) o')
              a
              w
          → Runs law signals
              (read_loop os fuel garbage (suc rounds) state file offset size current index buf)
              (at_file v fd p (image_bytes image) o)
              a
              w)
  unfolding read_loop
  Runs-hole_round rounds offset size current index n k o buf absent start before left some_left =
      let (o', run) =
        Runs-read_absent law whole fuel enough v fd p d is state.storage garbage file image shows
          pairs_rounds (pos n) zero_block o absent in
      (
        o',
        λ a w rest.
            rw (read_loop, lt→ltb current (offset + size) (omega arith), rem, number)
              (Runs-bind _ run (
                Runs-arg
                  (λ z.
                    read_loop os fuel garbage rounds state file offset size (current + block_size)
                      (index + block_size) (overwrite buf index (replicate z 0)))
                  amount rest)),
      )
    where
      rem : current % block_size ≡ 0
      rem = omega arith

      number : current / block_size ≡ n
      number = omega arith

      amount : min block_size (0 + offset + size - current) - 0 ≡ min block_size k
      amount = omega arith

  -- The rounds of a read over `m` blocks that are not there, of which `k` bytes are asked for.
  Runs-holes :
      (m rounds offset size current index n k o : ℕ) (buf : Bytes)
      → ((j : ℕ) → n ≤ j → find_pair (pos j) image.pairs ≡ none)
      → current ≡ block_size * n
      → offset ≤ current
      → k ≡ offset + size - current
      → k ≤ block_size * m
      → block_size * m < k + block_size
      → m < rounds
      → (o' : ℕ) × Runs law signals
          (read_loop os fuel garbage rounds state file offset size current index buf)
          (at_file v fd p (image_bytes image) o)
          (to_int (pos (current + block_size * m - offset)), overwrite buf index (replicate k 0))
          (at_file v fd p (image_bytes image) o')
  Runs-holes m zero offset size current index n k o buf absent start before left most tight lt =
      absurd (omega arith)
  Runs-holes zero (suc rounds) offset size current index n k o buf absent start before left most
        tight lt =
      (
        o,
        Runs-cast (λ i. (to_int (pos (stays i - offset)), nothing i)) refl
            (Runs-read_end law fuel garbage state rounds offset size current index file buf _
              (omega arith)),
      )
    where
      stays : current ≡ current + block_size * 0
      stays = omega arith

      nothing : buf ≡ overwrite buf index (replicate k 0)
      nothing = sym (
          ap (λ n. overwrite buf index (replicate n 0)) (let e : k ≡ 0 = omega arith in e)
          ∙ overwrite-nil buf index)
  Runs-holes (suc m) (suc rounds) offset size current index n k o buf absent start before left most
        tight lt =
      let (o', round) =
        Runs-hole_round rounds offset size current index n k o buf (absent n (omega arith)) start
          before left (omega arith) in
      let (o'', rest) =
        Runs-holes m rounds offset size (current + block_size) (index + block_size) (suc n)
          (k - block_size) o' (overwrite buf index (replicate (min block_size k) 0))
          (λ j le. absent j (omega arith)) (omega arith) (omega arith) (omega arith) (omega arith)
          (omega arith) (omega arith) in
      (
        o'',
        round _ _ (
            Runs-cast (λ i. (to_int (pos (ends i - offset)), zeros_joined buf index k i)) refl
              rest),
      )
    where
      ends : current + block_size + block_size * m ≡ current + block_size * suc m
      ends = omega arith

  -- `bb_read` of `size` bytes at the start of a block, where the file has no block from there on,
  -- ends and puts `size` zeros at the start of its buffer. Its result is the number of bytes of
  -- the `m` blocks that the request touches, also where fewer bytes were asked for. Nothing on the
  -- system changes but the offset of the descriptor. The file shows an image and is open for
  -- reading and writing; the blocks have less than 2^31 bytes, and the fuel is above the number of
  -- the blocks and of the pairs, and above 4096 and the pending signals together, on a system whose
  -- writes take all bytes of a call that is not interrupted.
  pub bb_read_hole :
      (s : os.State) (out : Bytes) (size n m : ℕ)
      → cfs_get_file state (pos fd) ≡ some file
      → law.view s ≡ v
      → v.files p ≡ some (image_bytes image)
      → ((j : ℕ) → n ≤ j → find_pair (pos j) image.pairs ≡ none)
      → size ≤ block_size * m
      → block_size * m < size + block_size
      → block_size * m < 2 ^ 31
      → m < fuel
      → law.pending s ≤ signals
      → (o : ℕ) × Ends law signals
          (bb_read os fuel garbage state (pos fd) out size (block_size * n))
          s
          (pos (block_size * m), overwrite out 0 (replicate size 0))
          (at_file v fd p (image_bytes image) o)
  unfolding bb_read
  bb_read_hole s out size n m found here holds absent most tight small lt calm =
      let (o, run) =
        Runs-holes m fuel (block_size * n) size (block_size * n) 0 n size d.offset out absent refl
          (omega arith) (omega arith) most tight lt in
      let whole_run : Runs law signals
          (bb_read os fuel garbage state (pos fd) out size (block_size * n))
          (at_file v fd p (image_bytes image) d.offset)
          (pos (block_size * m), overwrite out 0 (replicate size 0))
          (at_file v fd p (image_bytes image) o) =
        rw (bb_read, found)
          (Runs-cast (λ i. (count i, overwrite out 0 (replicate size 0))) refl run) in
      (o, whole_run.from s (here ∙ sym (at_file_same v fd p d (image_bytes image) is holds)) calm)
    where
      count : to_int (pos (block_size * n + block_size * m - block_size * n)) ≡ pos (block_size * m)
      count =
          ap (λ k. to_int (pos k))
            (let e : block_size * n + block_size * m - block_size * n ≡ block_size * m =
                omega arith in
              e)
          ∙ to_int-pos (block_size * m) small
