-- ===== src/Fuse/Inside/Contract.antt =====
-- `bb_write` of cfs/src/bbfs.c inside a block that the file does not have, and `bb_read` of the
-- block.
use fusefs_block.Base.{
  ℕ, suc, ◌+◌, ◌-◌, ◌*◌, ◌/◌, ◌%◌, ◌≤◌, ◌<◌, ◌≡◌, refl, sym, ap, ◌∙◌, true, false, inl, inr, ◌==◌,
  none, some, arith, ◌++◌, pos, to_int, to_int-pos, lt→ltb, length, take, drop, replicate, min,
  Bytes, CString,
}
use fusefs_block.Posix.{Posix, ◌>>=◌}
use fusefs_block.Posix.View.{
  View, Descriptor, overwrite, moved, moved-moved, stored, put_file, put_file_same, find_fd-seek_fd,
}
use fusefs_block.Storage.Refs.{block_file}
use fusefs_block.Posix.Laws.{IsPosix}
use fusefs_block.Posix.Runs.{Ends, Runs, Runs-pure, Runs-bind, Runs-cast}
use fusefs_block.Io.Write.{IsWhole}
use fusefs_block.Io.Opened.{IsOpened, at_file, at_file_same, Runs-arg, Runs-view}
use fusefs_block.Storage.{block_path, block_size}
use fusefs_block.Storage.Shared.{Keeps, after_store}
use fusefs_block.Cfs.{IsReadable, CfsFile, CfsBlock, CfsState, Garbage}
use fusefs_block.Cfs.Table.{cfs_get_file}
use fusefs_block.Cfs.Image.{Image, image_bytes, find_pair}
use fusefs_block.Cfs.Search.{Shows}
use fusefs_block.Cfs.Append.{grown_file, with_pair}
use fusefs_block.Cfs.Load.{Runs-read_absent, filled}
use fusefs_block.Cfs.Blocks.{cfs_file_read_block}
use fusefs_block.Cfs.Contract.{hash_of, IsWritable, Runs-register, Runs-read_back}
use fusefs_block.Fuse.Data.{
  zero_block, put_entry, write_block, write_loop, read_loop, bb_write, bb_read,
}
use fusefs_block.Fuse.Entry.{get-put_entry}
use fusefs_block.Fuse.Aligned.{Runs-write_end, Runs-read_round, Runs-read_end, copied_filled}
use fusefs_block.Fuse.Inside.{inside_block, take-inside_block}

-- A view in which the descriptor of the file has moved.
module _ (v : View) (fd : ℕ) (p : CString) (d : Descriptor) (is : IsOpened v fd p d) (o : ℕ) where
  at_file-moved : (c : Bytes) → v.files p ≡ some c → at_file v fd p c o ≡ moved v fd o
  at_file-moved c h =
      ap (λ f. moved (record v { files = f }) fd o)
        (ap (λ t. put_file p t v.files) (sym h) ∙ put_file_same p v.files)

  moved-IsOpened : IsOpened (moved v fd o) fd p (record d { offset = o })
  moved-IsOpened = record {
    found = find_fd-seek_fd fd o v.descriptors d is.found;
    path_same = is.path_same;
    reads = is.reads;
    writes = is.writes;
  }

  after_store-moved :
      (path : CString) (bytes : Bytes) (keeps : Keeps v path bytes) (c : Bytes) (o' : ℕ)
      → at_file (after_store (moved v fd o) path bytes keeps) fd p c o'
        ≡ at_file (after_store v path bytes keeps) fd p c o'
  after_store-moved path bytes (inl absent) c o' =
      moved-moved (stored (stored v path (some (block_file 1 bytes))) p (some c)) fd o o'
  after_store-moved path bytes (inr known) c o' = moved-moved (stored v p (some c)) fd o o'

module _ {os : Posix} (law : IsPosix os) (whole : IsWhole os) (signals fuel : ℕ)
    (enough : block_size + signals < fuel) (sha1 : Bytes → Bytes) (garbage : Garbage)
    (state : CfsState) (file : CfsFile) (image : Image) (k fd : ℕ) (p : CString) (d : Descriptor)
    (buf : Bytes) (left size n : ℕ) (found : cfs_get_file state (pos fd) ≡ some file)
    (shows : Shows file fd image) (rounds : length image.pairs + 1 < fuel)
    (old_size : file.size ≡ pos k)
    (usable : law.usable (block_path state.storage (hash_of sha1 (inside_block buf left size n)))
      ≡ true)
    (writable : IsWritable state.storage
      (inside_block buf left size n)
      (hash_of sha1 (inside_block buf left size n))
      p
      k
      image)
    (absent : find_pair (pos n) image.pairs ≡ none) (some_left : 0 < left) (some_bytes : 0 < size)
    (fits : left + size ≤ block_size) where
  abbrev block : CfsBlock
  block = inside_block buf left size n

  abbrev name : CString
  name = block_path state.storage (hash_of sha1 block)

  abbrev bytes : Bytes
  bytes = take (left + size) block.buffer

  -- The only round: the block is not found, and the new one is registered.
  Runs-write_inside :
      (v : View)
      → IsOpened v fd p d
      → v.files p ≡ some (image_bytes image)
      → (keeps : Keeps v name bytes)
      → (o : ℕ) × Runs law signals
          (write_loop os fuel garbage sha1 fuel state file
            (block_size * n + left)
            size
            (block_size * n + left)
            0
            buf)
          v
          (grown_file file (left + size))
          (at_file
            (after_store (moved v fd o) name bytes keeps)
            fd
            p
            (image_bytes (with_pair image (pos (k + (left + size))) (pos n) (hash_of sha1 block)))
            23)
  unfolding write_loop write_block
  Runs-write_inside v is holds keeps =
      let (o, read_run) =
        Runs-read_absent law whole fuel enough v fd p d is state.storage garbage file image shows
          (omega arith) (pos n) zero_block d.offset absent in
      (
        o,
        Runs-arg
            (λ rounds.
              write_loop os fuel garbage sha1 rounds state file (block_size * n + left) size
                (block_size * n + left) 0 buf)
            (let e : fuel ≡ suc (suc (fuel - 2)) = omega arith in e)
            (rw
              (
                write_loop,
                lt→ltb (block_size * n + left) (block_size * n + left + size) more,
                rem,
                number,
                amount,
                not_zero,
              )
              (Runs-bind _
                (Runs-view (at_file_same v fd p d (image_bytes image) is holds)
                  (Runs-cast refl (at_file-moved v fd p d is o (image_bytes image) holds) read_run))
                (Runs-bind _
                  (Runs-register law whole signals fuel enough sha1 state.storage garbage file image
                    k fd p (record d { offset = o }) block shows rounds old_size usable writable
                    absent (moved v fd o) (moved-IsOpened v fd p d is o) holds keeps)
                  (Runs-write_end law fuel garbage state sha1 (fuel - 2) (block_size * n + left)
                    size _ _ (grown_file file (left + size)) buf _ (omega arith))))),
      )
    where
      more : block_size * n + left < block_size * n + left + size
      more = omega arith

      rem : (block_size * n + left) % block_size ≡ left
      rem = omega arith

      number : (block_size * n + left) / block_size ≡ n
      number = omega arith

      amount :
          min block_size (left + (block_size * n + left) + size - (block_size * n + left))
          ≡ left + size
      amount = omega arith

      not_zero : (left == 0) ≡ false
      not_zero = ground arith

  -- `bb_write` of bytes that begin inside a block that the file does not have, and end in it,
  -- followed by `bb_read` of the block up to their end: both end, and the read puts zeros and
  -- then the written bytes at the start of its buffer. Its result is 4096. The file has one more
  -- pair, and its size counts the zeros in front of the bytes as well. The other conditions are
  -- those of `cfs_file_register_block_lem`; and what stands in place of the argument that
  -- cfs.c:355 does not pass is the address of memory that can be written, and the buffer for a
  -- hash has 20 bytes (`IsReadable`).
  pub bb_read-bb_write_inside :
      (s : os.State) (out : Bytes)
      → size ≤ length buf
      → IsOpened (law.view s) fd p d
      → (law.view s).files p ≡ some (image_bytes image)
      → (keeps : Keeps (law.view s) name bytes) → IsReadable garbage
      → law.pending s ≤ signals
      → (o : ℕ) × Ends law signals
          (bb_write os fuel garbage sha1 state (pos fd) buf size (block_size * n + left) >>= λ r.
            bb_read os fuel garbage r.1 (pos fd) out (left + size) (block_size * n))
          s
          (pos block_size, overwrite out 0 (replicate left 0 ++ take size buf))
          (at_file
            (after_store (law.view s) name bytes keeps)
            fd
            p
            (image_bytes (with_pair image (pos (k + (left + size))) (pos n) (hash_of sha1 block)))
            o)
  unfolding bb_write bb_read write_block
  bb_read-bb_write_inside s out within is holds keeps readable calm =
      let v : View = law.view s in
      let file' : CfsFile = grown_file file (left + size) in
      let state' : CfsState = put_entry state (pos fd) file' in
      let (found', storage') = get-put_entry state (pos fd) file file' found in
      let (o, write_run) = Runs-write_inside v is holds keeps in
      let (o', run) =
        Runs-read_back law whole signals fuel enough sha1 state.storage garbage file image k fd p
          (record d { offset = o }) block shows rounds old_size usable writable absent
          (moved v fd o) zero_block (moved-IsOpened v fd p d is o) keeps readable in
      let wrote : Runs law signals
          (bb_write os fuel garbage sha1 state (pos fd) buf size (block_size * n + left)) v
          (pos size, state')
          (at_file (after_store (moved v fd o) name bytes keeps) fd p
            (image_bytes (with_pair image (pos (k + (left + size))) (pos n) (hash_of sha1 block)))
            23) =
        rw (bb_write, found)
          (Runs-bind _ write_run (
            Runs-cast (ap (λ z. (z, state')) (to_int-pos size (omega arith))) refl
              (Runs-pure _ _))) in
      (
        o',
        (Runs-bind _ wrote (
              rw (bb_read, found')
                (Runs-arg
                  (λ rounds.
                    read_loop os fuel garbage rounds state' file' (block_size * n) (left + size)
                      (block_size * n) 0 out)
                  (let e : fuel ≡ suc (suc (fuel - 2)) = omega arith in e)
                  (Runs-read_round law fuel garbage state' (suc (fuel - 2)) (block_size * n)
                    (left + size) (block_size * n) 0 n file' out (filled zero_block (pos n) bytes) _
                    _ _ _ (omega arith) (omega arith) (omega arith)
                    (Runs-arg
                      (λ st. cfs_file_read_block os fuel garbage st file' (pos n) zero_block)
                      storage' run)
                    (Runs-cast (λ i. (all_read i, overwrite out 0 (same_bytes within i)))
                      (after_store-moved v fd p d is o name bytes keeps _ o')
                      (Runs-read_end law fuel garbage state' (fuel - 2) (block_size * n)
                        (left + size) (block_size * n + (block_size - 0)) (0 + (block_size - 0))
                        file' _ _ (omega arith))))))).from
            s refl calm,
      )
    where
      all_read : to_int (pos (block_size * n + (block_size - 0) - block_size * n)) ≡ pos block_size
      all_read =
          ap (λ z. to_int (pos z))
            (let e : block_size * n + (block_size - 0) - block_size * n ≡ block_size =
                omega arith in
              e)
          ∙ to_int-pos block_size (omega arith)

      same_bytes :
          size ≤ length buf
          → take
              ((filled zero_block (pos n) bytes).size - 0 - 0)
              (drop 0 (filled zero_block (pos n) bytes).buffer)
            ≡ replicate left 0 ++ take size buf
      same_bytes within =
          copied_filled zero_block (pos n) bytes ∙ take-inside_block buf left size n fits within
