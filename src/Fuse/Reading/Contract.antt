-- ===== src/Fuse/Reading/Contract.antt =====
-- `bb_read` of cfs/src/bbfs.c on a file that is given by its abstract contents.
use fusefs_block.Base.{
  ℕ, zero, suc, ◌+◌, ◌-◌, ◌*◌, ◌^◌, ◌≤◌, ◌<◌, ◌≡◌, refl, sym, ap, ◌∙◌, Option, none, some, arith, ℤ,
  pos, to_int, to_int-pos, length, Bytes, CString,
}
use fusefs_block.Posix.{Posix}
use fusefs_block.Posix.View.{View, Descriptor, overwrite}
use fusefs_block.Posix.Overwrite.{overwrite-nil}
use fusefs_block.Posix.Laws.{IsPosix}
use fusefs_block.Posix.Runs.{Ends, Runs, Runs-cast}
use fusefs_block.Io.Write.{IsWhole}
use fusefs_block.Io.Opened.{IsOpened, at_file, at_file_same, Runs-arg, Runs-view}
use fusefs_block.Storage.{block_size}
use fusefs_block.Cfs.{IsReadable, CfsFile, CfsState, Garbage}
use fusefs_block.Cfs.Table.{cfs_get_file}
use fusefs_block.Cfs.Image.{Image, image_bytes}
use fusefs_block.Cfs.Search.{Shows}
use fusefs_block.Cfs.Load.{filled, Runs-read_found}
use fusefs_block.Fuse.Data.{zero_block, read_loop, bb_read}
use fusefs_block.Fuse.Aligned.{Runs-read_round, Runs-read_end, copied_filled}
use fusefs_block.Fuse.Holes.{Runs-hole_round}
use fusefs_block.Fuse.Reading.{
  Contents, block_text, contents_text, IsBlock, IsFull, contents_text_joined,
}

module _ {os : Posix} (law : IsPosix os) (whole : IsWhole os) {signals : ℕ} (fuel : ℕ)
    (enough : block_size + signals < fuel) (v : View) (fd : ℕ) (p : CString) (d : Descriptor)
    (is : IsOpened v fd p d) (garbage : Garbage) (state : CfsState) (file : CfsFile) (image : Image)
    (shows : Shows file fd image) (pairs_rounds : length image.pairs < fuel)
    (readable : IsReadable garbage) where
  -- One round at the start of a block.
  Runs-block_round :
      (rounds offset size current index n k o : ℕ) (buf : Bytes) (block : Option Bytes)
      → IsBlock law v state.storage p image n block
      → current ≡ block_size * n
      → offset ≤ current
      → k ≡ offset + size - current
      → 0 < k
      → (o' : ℕ) × ((a : ℤ × Bytes) (w : View)
          → Runs law signals
              (read_loop os fuel garbage rounds state file offset size
                (current + block_size)
                (index + block_size)
                (overwrite buf index (block_text k block)))
              (at_file v fd p (image_bytes image) o')
              a
              w
          → Runs law signals
              (read_loop os fuel garbage (suc rounds) state file offset size current index buf)
              (at_file v fd p (image_bytes image) o)
              a
              w)
  Runs-block_round rounds offset size current index n k o buf none absent start before left
        some_left =
      Runs-hole_round law whole fuel enough v fd p d is garbage state file image shows pairs_rounds
        rounds offset size current index n k o buf absent start before left some_left
  Runs-block_round rounds offset size current index n k o buf (some bytes) stored start before left
        some_left =
      let (o', run) =
        Runs-read_found law whole fuel enough v fd p d is state.storage garbage file image shows
          pairs_rounds (pos n) zero_block o stored.hash stored.refs bytes stored.found
          stored.hash_length readable stored.usable stored.apart stored.known stored.some_bytes
          stored.fits in
      (
        o',
        λ a w rest.
            Runs-read_round law fuel garbage state rounds offset size current index n file buf
              (filled zero_block (pos n) bytes) _ _ _ _ (omega arith) (omega arith) (omega arith)
              run
              (Runs-arg
                (λ (z : ℕ × ℕ × Bytes).
                  read_loop os fuel garbage rounds state file offset size z.0 z.1
                    (overwrite buf index z.2))
                (λ i.
                  (forward current i, forward index i, copied_filled zero_block (pos n) bytes i))
                rest),
      )
    where
      forward : (c : ℕ) → c + (block_size - 0) ≡ c + block_size
      forward c = omega arith

  -- The rounds of a read over `m` blocks, of which `k` bytes are asked for.
  Runs-blocks :
      (contents : Contents) (m rounds offset size current index n k o : ℕ) (buf : Bytes)
      → ((j : ℕ) → n ≤ j → j < n + m → IsBlock law v state.storage p image j (contents j))
      → ((j : ℕ) → n ≤ j → suc j < n + m → IsFull (contents j))
      → current ≡ block_size * n
      → offset ≤ current
      → k ≡ offset + size - current
      → k ≤ block_size * m
      → block_size * m < k + block_size
      → m < rounds
      → (o' : ℕ) × Runs law signals
          (read_loop os fuel garbage rounds state file offset size current index buf)
          (at_file v fd p (image_bytes image) o)
          (
            to_int (pos (current + block_size * m - offset)),
            overwrite buf index (contents_text contents m n k),
          )
          (at_file v fd p (image_bytes image) o')
  unfolding contents_text
  Runs-blocks contents m zero offset size current index n k o buf are full start before left most
        tight lt =
      absurd (omega arith)
  Runs-blocks contents zero (suc rounds) offset size current index n k o buf are full start before
        left most tight lt =
      (
        o,
        Runs-cast (λ i. (to_int (pos (stays i - offset)), sym (overwrite-nil buf index) i)) refl
            (Runs-read_end law fuel garbage state rounds offset size current index file buf _
              (omega arith)),
      )
    where
      stays : current ≡ current + block_size * 0
      stays = omega arith
  Runs-blocks contents (suc m) (suc rounds) offset size current index n k o buf are full start
        before left most tight lt =
      let (o', round) =
        Runs-block_round rounds offset size current index n k o buf (contents n)
          (are n (omega arith) (omega arith)) start before left (omega arith) in
      let (o'', rest) =
        Runs-blocks contents m rounds offset size (current + block_size) (index + block_size)
          (suc n) (k - block_size) o' (overwrite buf index (block_text k (contents n)))
          (λ j le lt. are j (omega arith) (omega arith))
          (λ j le lt. full j (omega arith) (omega arith)) (omega arith) (omega arith) (omega arith)
          (omega arith) (omega arith) (omega arith) in
      (
        o'',
        round _ _ (
            Runs-cast
              (λ i. (
                to_int (pos (ends i - offset)),
                contents_text_joined contents m n k buf index (λ some_left. omega arith)
                    (λ some_left. full n (omega arith) (omega arith)) i,
              ))
              refl rest),
      )
    where
      ends : current + block_size + block_size * m ≡ current + block_size * suc m
      ends = omega arith

  -- `bb_read` of `size` bytes at the start of a block. The file is given by its abstract
  -- contents: each of the `m` blocks that the request touches is either not in the image, or
  -- found there and stored with its bytes, which are 4096 for all but the last block. The call
  -- ends, and puts at the start of its buffer the bytes of the stored blocks and zeros for the
  -- others, in order; of the last block it takes all bytes if it is stored, also where fewer
  -- were asked for. Its result is the number of bytes of the `m` blocks. Nothing on the system
  -- changes but the offset of the descriptor. The file shows an image and is open for reading
  -- and writing; the blocks have less than 2^31 bytes, and the fuel is above the number of the
  -- blocks and of the pairs, and above 4096 and the pending signals together, on a system whose
  -- writes take all bytes of a call that is not interrupted; and what stands in place of the
  -- argument that cfs.c:355 does not pass is the address of memory that can be written, and the
  -- buffer for a hash has 20 bytes (`IsReadable`).
  pub bb_read_lem :
      (s : os.State) (out : Bytes) (contents : Contents) (size n m : ℕ)
      → cfs_get_file state (pos fd) ≡ some file
      → law.view s ≡ v
      → v.files p ≡ some (image_bytes image)
      → ((j : ℕ) → n ≤ j → j < n + m → IsBlock law v state.storage p image j (contents j))
      → ((j : ℕ) → n ≤ j → suc j < n + m → IsFull (contents j))
      → size ≤ block_size * m
      → block_size * m < size + block_size
      → block_size * m < 2 ^ 31
      → m < fuel
      → law.pending s ≤ signals
      → (o : ℕ) × Ends law signals
          (bb_read os fuel garbage state (pos fd) out size (block_size * n))
          s
          (pos (block_size * m), overwrite out 0 (contents_text contents m n size))
          (at_file v fd p (image_bytes image) o)
  unfolding bb_read
  bb_read_lem s out contents size n m found here holds are full most tight small lt calm =
      let (o, run) =
        Runs-blocks contents m fuel (block_size * n) size (block_size * n) 0 n size d.offset out are
          full refl (omega arith) (omega arith) most tight lt in
      let whole_run : Runs law signals
          (bb_read os fuel garbage state (pos fd) out size (block_size * n))
          (at_file v fd p (image_bytes image) d.offset)
          (pos (block_size * m), overwrite out 0 (contents_text contents m n size))
          (at_file v fd p (image_bytes image) o) =
        rw (bb_read, found)
          (Runs-cast (λ i. (count i, overwrite out 0 (contents_text contents m n size))) refl
            run) in
      (
        o,
        (Runs-view (at_file_same v fd p d (image_bytes image) is holds) whole_run).from s here calm,
      )
    where
      count : to_int (pos (block_size * n + block_size * m - block_size * n)) ≡ pos (block_size * m)
      count =
          ap (λ k. to_int (pos k))
            (let e : block_size * n + block_size * m - block_size * n ≡ block_size * m =
                omega arith in
              e)
          ∙ to_int-pos (block_size * m) small
