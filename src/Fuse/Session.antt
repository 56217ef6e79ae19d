-- ===== src/Fuse/Session.antt =====
-- A session of callbacks of cfs/src/bbfs.c: a file is made, opened, written and read.
use fusefs_block.Base.{
  ℕ, ◌+◌, ◌*◌, ◌^◌, ◌≤◌, ◌<◌, ◌≡◌, refl, ap, ◌∙◌, true, none, some, arith, [], pos, length, take,
  Bytes, CString,
}
use mathlib.Core.Path.{subst}
use fusefs_block.Posix.{Posix, Sys, rd_wr, ◌>>=◌, ◌>>◌}
use fusefs_block.Posix.View.{View, overwrite, stored, put_file_self}
use fusefs_block.Posix.Laws.{IsPosix, owner_rw}
use fusefs_block.Posix.Runs.{Ends, Runs, Runs-bind, Runs-seq, Runs-cast}
use fusefs_block.Io.Write.{IsWhole}
use fusefs_block.Io.Held.{at_offset, holding, find_held}
use fusefs_block.Io.Opened.{IsOpened, at_file}
use fusefs_block.Storage.{BlkStore, block_path, block_size}
use fusefs_block.Storage.Shared.{Keeps, after_store}
use fusefs_block.Cfs.{IsReadable, CfsState, Garbage}
use fusefs_block.Cfs.Table.{cfs_get_file}
use fusefs_block.Cfs.Invariant.{IsTable}
use fusefs_block.Cfs.Create.{new_header, new_header-HasMagic}
use fusefs_block.Cfs.Register.{Registered}
use fusefs_block.Cfs.Image.{image_bytes, find_pair}
use fusefs_block.Cfs.Append.{with_pair}
use fusefs_block.Cfs.Contract.{hash_of, IsWritable}
use fusefs_block.Fuse.{bb_fullpath, bb_mknod, regular, bb_open}
use fusefs_block.Fuse.Data.{bb_write, bb_read}
use fusefs_block.Fuse.Aligned.{whole_block}
use fusefs_block.Fuse.Made.{
  new_image, new_header-image, registered-Shows, Runs-bb_mknod, Runs-bb_open,
}
use fusefs_block.Fuse.Contract.{Runs-write_read}

module _ {os : Posix} (law : IsPosix os) (whole : IsWhole os) (signals fuel : ℕ)
    (enough : block_size + signals < fuel) (sha1 : Bytes → Bytes) (garbage : Garbage)
    (rootdir path : CString) (state : CfsState) (mode : ℕ) (mkfifo mknod : Sys ℕ) (buf out : Bytes)
    (size n : ℕ) (usable : law.usable (bb_fullpath rootdir path) ≡ true)
    (owner : owner_rw mode ≡ true) (table : IsTable state) (room : state.fds_cap < 2 ^ 63)
    (readable : IsReadable garbage) (some_bytes : 0 < size) (at_most : size ≤ block_size)
    (within : size ≤ length buf) where
  abbrev name : BlkStore → CString
  name storage = block_path storage (hash_of sha1 (whole_block buf 0 size n))

  abbrev bytes : Bytes
  bytes = take size (whole_block buf 0 size n).buffer

  -- The view in which the new file is open.
  abbrev new_view : View → View
  new_view v =
      let made : View = stored v (bb_fullpath rootdir path) (some new_header) in
      holding made (law.fresh made) (bb_fullpath rootdir path) rd_wr 23

  -- A write and a read through the entry of a new file, for the store that it stands in.
  Session : View → CfsState → ℕ → BlkStore → Type 0
  Session v after fd storage =
      law.usable (name storage) ≡ true
      → IsWritable storage (whole_block buf 0 size n) (hash_of sha1 (whole_block buf 0 size n))
          (bb_fullpath rootdir path) 0 new_image
      → (keeps : Keeps v (name storage) bytes)
      → (o : ℕ) × Runs law signals
          (bb_write os fuel garbage sha1 after (pos fd) buf size (block_size * n) >>= λ w.
            bb_read os fuel garbage w.1 (pos fd) out size (block_size * n))
          v (pos block_size, overwrite out 0 (take size buf))
          (at_file (after_store v (name storage) bytes keeps) fd (bb_fullpath rootdir path)
            (image_bytes
              (with_pair new_image (pos size) (pos n) (hash_of sha1 (whole_block buf 0 size n))))
            o)

  -- The descriptor is open in the new view, in which the file is the new image.
  new-IsOpened :
      (v : View)
      → IsOpened
          (new_view v)
          (law.fresh (stored v (bb_fullpath rootdir path) (some new_header)))
          (bb_fullpath rootdir path)
          (at_offset (bb_fullpath rootdir path) rd_wr 23)
  new-IsOpened v = record {
    found =
        find_held (stored v (bb_fullpath rootdir path) (some new_header))
          (law.fresh (stored v (bb_fullpath rootdir path) (some new_header)))
          (bb_fullpath rootdir path) rd_wr 23;
    path_same = refl;
    reads = refl;
    writes = refl;
  }

  new_file-Session :
      (v : View) (after : CfsState)
      → Registered state after
          (bb_fullpath rootdir path)
          (law.fresh (stored v (bb_fullpath rootdir path) (some new_header)))
          new_header
      → Session
          (new_view v)
          after
          (law.fresh (stored v (bb_fullpath rootdir path) (some new_header)))
          state.storage
  unfolding Session
  new_file-Session v after registered =
      let fd : ℕ = law.fresh (stored v (bb_fullpath rootdir path) (some new_header)) in
      let (file, found, header) = registered.header in
      let shows =
        registered-Shows state after (bb_fullpath rootdir path) fd file registered found in
      subst (Session (new_view v) after fd) registered.claimed.storage_same (λ named writable keeps.
        let (o, run) =
          Runs-write_read law whole signals fuel enough sha1 garbage after file new_image 0 fd
            (bb_fullpath rootdir path) (at_offset (bb_fullpath rootdir path) rd_wr 23) buf size
            (block_size * n) n found shows (omega arith) shows.size_same named writable
            (find_none n) refl some_bytes at_most (new_view v) out within (new-IsOpened v)
            (put_file_self _ _ _ ∙ ap some new_header-image) keeps readable in
        (
          o,
          Runs-cast refl
              (ap
                (λ z.
                  at_file (after_store (new_view v) (name after.storage) bytes keeps) fd
                    (bb_fullpath rootdir path)
                    (image_bytes (
                      with_pair new_image (pos z) (pos n)
                        (hash_of sha1 (whole_block buf 0 size n))))
                    o)
                (let e : 0 + size ≡ size = omega arith in e))
              run,
        ))
    where
      find_none : (n : ℕ) → find_pair (pos n) [] ≡ none
      find_none n = unfold find_pair in refl

  -- On a path without a file, `bb_mknod` for a regular file, `bb_open`, `bb_write` of 1 to 4096
  -- bytes at the start of a block, and `bb_read` of as many bytes there, in this order: all end,
  -- and the read puts the written bytes at the start of its buffer and returns 4096. The file
  -- then holds one pair and has the size of the bytes, the store holds the block, and the file
  -- is open under one more descriptor; nothing else changes. The table meets its invariant, has
  -- less than 2^63 entries and not the descriptor that is opened; the mode lets the owner read
  -- and write; the paths of the file and of the block are in directories that the process may
  -- change, files there may be opened for reading and writing, and the paths differ; what stands
  -- in place of the argument that cfs.c:355 does not pass is the address of memory that can be
  -- written, and the buffer for a hash has 20 bytes (`IsReadable`); the name of the block in the
  -- store is free or holds the same bytes; the index fits an `off_t` and a hash has 20 bytes;
  -- the writes of the system take all bytes of a call that is not interrupted; and the fuel is
  -- above 4096 and the pending signals together.
  pub session_lem :
      (s : os.State)
      → (law.view s).files (bb_fullpath rootdir path) ≡ none
      → cfs_get_file state
          (pos (law.fresh (stored (law.view s) (bb_fullpath rootdir path) (some new_header))))
        ≡ none
      → law.usable (name state.storage) ≡ true
      → IsWritable state.storage
          (whole_block buf 0 size n)
          (hash_of sha1 (whole_block buf 0 size n))
          (bb_fullpath rootdir path)
          0
          new_image
      → (keeps : Keeps (new_view (law.view s)) (name state.storage) bytes) → law.pending s ≤ signals
      → (o : ℕ) × Ends law signals
          (bb_mknod os fuel garbage rootdir path regular mode mkfifo mknod
            >> (bb_open os fuel garbage rootdir state path >>= λ opened.
                bb_write os fuel garbage sha1 opened.state opened.fh buf size (block_size * n)
                >>= λ w. bb_read os fuel garbage w.1 opened.fh out size (block_size * n)))
          s
          (pos block_size, overwrite out 0 (take size buf))
          (at_file
            (after_store (new_view (law.view s)) (name state.storage) bytes keeps)
            (law.fresh (stored (law.view s) (bb_fullpath rootdir path) (some new_header)))
            (bb_fullpath rootdir path)
            (image_bytes
              (with_pair new_image (pos size) (pos n) (hash_of sha1 (whole_block buf 0 size n))))
            o)
  unfolding Session
  session_lem s absent unknown named writable keeps calm =
      let made : View = stored (law.view s) (bb_fullpath rootdir path) (some new_header) in
      let (after, run, registered) =
        Runs-bb_open law {signals = signals} fuel garbage rootdir path made usable state new_header
          (put_file_self _ _ _) table room unknown new_header-HasMagic.long (omega arith) in
      let (o, rest) = new_file-Session (law.view s) after registered named writable keeps in
      (
        o,
        (Runs-seq
              (Runs-bb_mknod law fuel garbage rootdir path (law.view s) mode mkfifo mknod
                (law.usable_creatable (bb_fullpath rootdir path) mode usable owner) absent
                (omega arith))
              (Runs-bind _ run rest)).from
            s refl calm,
      )
