-- ===== src/Fuse/Contract.antt =====
-- What `bb_write` and `bb_read` of cfs/src/bbfs.c promise each other.
use fusefs_block.Base.{
  ℕ, suc, ◌+◌, ◌-◌, ◌*◌, ◌≤◌, ◌<◌, ◌≡◌, refl, ap, ◌∙◌, true, none, some, arith, pos, to_int,
  to_int-pos, length, take, drop, Bytes, CString,
}
use fusefs_block.Posix.{Posix, ◌>>=◌}
use fusefs_block.Posix.View.{View, Descriptor, overwrite}
use fusefs_block.Posix.Laws.{IsPosix}
use fusefs_block.Posix.Runs.{Ends, Runs, Runs-pure, Runs-bind, Runs-cast}
use fusefs_block.Io.Write.{IsWhole}
use fusefs_block.Io.Opened.{IsOpened, at_file, Runs-arg}
use fusefs_block.Storage.{block_path, block_size}
use fusefs_block.Storage.Shared.{Keeps, after_store}
use fusefs_block.Cfs.{IsReadable, CfsFile, CfsState, Garbage}
use fusefs_block.Cfs.Blocks.{cfs_file_read_block}
use fusefs_block.Cfs.Table.{cfs_get_file}
use fusefs_block.Cfs.Image.{Image, image_bytes, find_pair}
use fusefs_block.Cfs.Search.{Shows}
use fusefs_block.Cfs.Append.{grown_file, with_pair}
use fusefs_block.Cfs.Load.{filled}
use fusefs_block.Cfs.Contract.{hash_of, IsWritable, Runs-register, Runs-read_back}
use fusefs_block.Fuse.Data.{
  zero_block, put_entry, write_block, write_loop, read_loop, bb_write, bb_read,
}
use fusefs_block.Fuse.Entry.{get-put_entry}
use fusefs_block.Fuse.Aligned.{
  whole_block, take-whole_block, Runs-write_round, Runs-write_end, Runs-read_round, Runs-read_end,
  copied_filled,
}

all_read : (offset : ℕ) → to_int (pos (offset + (block_size - 0) - offset)) ≡ pos block_size
all_read offset =
    ap (λ n. to_int (pos n))
      (let e : offset + (block_size - 0) - offset ≡ block_size = omega arith in e)
    ∙ to_int-pos block_size (omega arith)

module _ {os : Posix} (law : IsPosix os) (whole : IsWhole os) (signals fuel : ℕ)
    (enough : block_size + signals < fuel) (sha1 : Bytes → Bytes) (garbage : Garbage)
    (state : CfsState) (file : CfsFile) (image : Image) (k fd : ℕ) (p : CString) (d : Descriptor)
    (buf : Bytes) (size offset n : ℕ) (found : cfs_get_file state (pos fd) ≡ some file)
    (shows : Shows file fd image) (rounds : length image.pairs + 1 < fuel)
    (old_size : file.size ≡ pos k)
    (usable : law.usable (block_path state.storage (hash_of sha1 (whole_block buf 0 size n)))
      ≡ true)
    (writable : IsWritable state.storage
      (whole_block buf 0 size n)
      (hash_of sha1 (whole_block buf 0 size n))
      p
      k
      image)
    (absent : find_pair (pos n) image.pairs ≡ none) (aligned : offset ≡ block_size * n)
    (some_bytes : 0 < size) (at_most : size ≤ block_size) where
  Runs-bb_write :
      (v : View)
      → IsOpened v fd p d
      → v.files p ≡ some (image_bytes image)
      → (keeps : Keeps v
          (block_path state.storage (hash_of sha1 (whole_block buf 0 size n)))
          (take size (whole_block buf 0 size n).buffer))
      → Runs law signals
          (bb_write os fuel garbage sha1 state (pos fd) buf size offset)
          v
          (pos size, put_entry state (pos fd) (grown_file file size))
          (at_file
            (after_store v
              (block_path state.storage (hash_of sha1 (whole_block buf 0 size n)))
              (take size (whole_block buf 0 size n).buffer)
              keeps)
            fd
            p
            (image_bytes
              (with_pair image (pos (k + size)) (pos n) (hash_of sha1 (whole_block buf 0 size n))))
            23)
  unfolding bb_write write_block
  Runs-bb_write v is holds keeps =
      rw (bb_write, found)
        (Runs-bind _
          (Runs-arg
            (λ rounds. write_loop os fuel garbage sha1 rounds state file offset size offset 0 buf)
            (let e : fuel ≡ suc (suc (fuel - 2)) = omega arith in e)
            (Runs-write_round law fuel garbage state sha1 (suc (fuel - 2)) offset size offset 0 n
              size file (grown_file file size) buf v _ _ (pos 0) _ (omega arith) (omega arith)
              (omega arith) (omega arith)
              (Runs-register law whole signals fuel enough sha1 state.storage garbage file image k
                fd p d (whole_block buf 0 size n) shows rounds old_size usable writable absent v is
                holds keeps)
              (Runs-write_end law fuel garbage state sha1 (fuel - 2) offset size (offset + size)
                (0 + (size - 0)) (grown_file file size) buf _ (omega arith))))
          (Runs-cast
            (ap (λ z. (z, put_entry state (pos fd) (grown_file file size)))
              (to_int-pos size (omega arith)))
            refl (Runs-pure _ _)))

  -- From any view in which the file is open.
  pub Runs-write_read :
      (v : View) (out : Bytes)
      → size ≤ length buf
      → IsOpened v fd p d
      → v.files p ≡ some (image_bytes image)
      → (keeps : Keeps v
          (block_path state.storage (hash_of sha1 (whole_block buf 0 size n)))
          (take size (whole_block buf 0 size n).buffer))
      → IsReadable garbage
      → (o : ℕ) × Runs law signals
          (bb_write os fuel garbage sha1 state (pos fd) buf size offset >>= λ r.
            bb_read os fuel garbage r.1 (pos fd) out size offset)
          v
          (pos block_size, overwrite out 0 (take size buf))
          (at_file
            (after_store v
              (block_path state.storage (hash_of sha1 (whole_block buf 0 size n)))
              (take size (whole_block buf 0 size n).buffer)
              keeps)
            fd
            p
            (image_bytes
              (with_pair image (pos (k + size)) (pos n) (hash_of sha1 (whole_block buf 0 size n))))
            o)
  unfolding bb_read write_block
  Runs-write_read v out within is holds keeps readable =
      let file' : CfsFile = grown_file file size in
      let state' : CfsState = put_entry state (pos fd) file' in
      let (found', storage') = get-put_entry state (pos fd) file file' found in
      let (o, run) =
        Runs-read_back law whole signals fuel enough sha1 state.storage garbage file image k fd p d
          (whole_block buf 0 size n) shows rounds old_size usable writable absent v zero_block is
          keeps readable in
      (
        o,
        (Runs-bind _ (Runs-bb_write v is holds keeps) (
            rw (bb_read, found')
              (Runs-arg
                (λ rounds. read_loop os fuel garbage rounds state' file' offset size offset 0 out)
                (let e : fuel ≡ suc (suc (fuel - 2)) = omega arith in e)
                (Runs-read_round law fuel garbage state' (suc (fuel - 2)) offset size offset 0 n
                  file' out
                  (filled zero_block (pos n) (take size (whole_block buf 0 size n).buffer)) _ _ _ _
                  (omega arith) (omega arith) (omega arith)
                  (Runs-arg (λ st. cfs_file_read_block os fuel garbage st file' (pos n) zero_block)
                    storage' run)
                  (Runs-cast (λ i. (all_read offset i, overwrite out 0 (same_bytes i))) refl
                    (Runs-read_end law fuel garbage state' (fuel - 2) offset size
                      (offset + (block_size - 0)) (0 + (block_size - 0)) file' _ _
                      (omega arith))))))),
      )
    where
      same_bytes :
          take
            ((filled zero_block (pos n) (take size (whole_block buf 0 size n).buffer)).size - 0 - 0)
            (drop 0
              (filled zero_block (pos n) (take size (whole_block buf 0 size n).buffer)).buffer)
          ≡ take size buf
      same_bytes =
          copied_filled zero_block (pos n) (take size (whole_block buf 0 size n).buffer)
          ∙ take-whole_block buf 0 size n (omega arith)

  -- `bb_write` of 1 to 4096 bytes at the start of a block that the file does not have, followed
  -- by `bb_read` of as many bytes at the same offset: both end, and the read puts the written
  -- bytes at the start of its buffer. Its result is 4096, the length of a block, also where
  -- fewer bytes were asked for. The file then has one more pair and its size counts the bytes,
  -- and the store holds the block; nothing else changes. The other conditions are those of
  -- `cfs_file_register_block_lem`; and what stands in place of the argument that cfs.c:355 does
  -- not pass is the address of memory that can be written, and the buffer for a hash has 20
  -- bytes (`IsReadable`).
  pub bb_read-bb_write :
      (s : os.State) (out : Bytes)
      → size ≤ length buf
      → IsOpened (law.view s) fd p d
      → (law.view s).files p ≡ some (image_bytes image)
      → (keeps : Keeps
          (law.view s)
          (block_path state.storage (hash_of sha1 (whole_block buf 0 size n)))
          (take size (whole_block buf 0 size n).buffer))
      → IsReadable garbage
      → law.pending s ≤ signals
      → (o : ℕ) × Ends law signals
          (bb_write os fuel garbage sha1 state (pos fd) buf size offset >>= λ r.
            bb_read os fuel garbage r.1 (pos fd) out size offset)
          s
          (pos block_size, overwrite out 0 (take size buf))
          (at_file
            (after_store
              (law.view s)
              (block_path state.storage (hash_of sha1 (whole_block buf 0 size n)))
              (take size (whole_block buf 0 size n).buffer)
              keeps)
            fd
            p
            (image_bytes
              (with_pair image (pos (k + size)) (pos n) (hash_of sha1 (whole_block buf 0 size n))))
            o)
  bb_read-bb_write s out within is holds keeps readable calm =
      let (o, run) = Runs-write_read (law.view s) out within is holds keeps readable in
      (o, run.from s refl calm)
