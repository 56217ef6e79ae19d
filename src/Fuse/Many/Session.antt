-- ===== src/Fuse/Many/Session.antt =====
-- A session of callbacks of cfs/src/bbfs.c with a request of several blocks.
use fusefs_block.Base.{
  ℕ, ◌+◌, ◌*◌, ◌^◌, ◌≤◌, ◌<◌, ◌≡◌, refl, ap, ◌∙◌, true, none, some, arith, pos, take, Bytes,
  CString,
}
use fusefs_block.Posix.{Posix, Sys, rd_wr, ◌>>=◌, ◌>>◌}
use fusefs_block.Posix.View.{View, overwrite, stored, put_file_self}
use fusefs_block.Posix.Laws.{IsPosix, owner_rw}
use fusefs_block.Posix.Runs.{Ends, Runs-bind, Runs-seq}
use fusefs_block.Io.Write.{IsWhole}
use fusefs_block.Io.Held.{at_offset, holding, find_held}
use fusefs_block.Io.Opened.{IsOpened, at_file}
use fusefs_block.Storage.{block_size}
use fusefs_block.Storage.Shared.{Keeps}
use fusefs_block.Cfs.{IsReadable, CfsState, Garbage}
use fusefs_block.Cfs.Table.{cfs_get_file}
use fusefs_block.Cfs.Invariant.{IsTable}
use fusefs_block.Cfs.Create.{new_header, new_header-HasMagic}
use fusefs_block.Cfs.Image.{image_bytes}
use fusefs_block.Fuse.{bb_fullpath, bb_mknod, regular, bb_open}
use fusefs_block.Fuse.Data.{bb_write, bb_read}
use fusefs_block.Fuse.Made.{
  new_image, new_header-image, registered-Shows, Runs-bb_mknod, Runs-bb_open,
}
use fusefs_block.Fuse.Many.{Transfer, nth_path, nth_bytes, written, AreWritable}
use fusefs_block.Fuse.Many.Views.{Wrote}
use fusefs_block.Fuse.Many.Contract.{Runs-bb_write_blocks, Runs-bb_read_blocks}

-- A request to a new file.
abbrev pub new_transfer : (Bytes → Bytes) → CfsState → CString → Bytes → ℕ → ℕ → Transfer
new_transfer sha1 state p buf size n = record {
  sha1 = sha1;
  storage = state.storage;
  buf = buf;
  size = size;
  n = n;
  p = p;
  k = 0;
  image = new_image;
}

module _ {os : Posix} (law : IsPosix os) (whole : IsWhole os) (signals fuel : ℕ)
    (enough : block_size + signals < fuel) (sha1 : Bytes → Bytes) (garbage : Garbage)
    (rootdir path : CString) (state : CfsState) (mode : ℕ) (mkfifo mknod : Sys ℕ) (buf out : Bytes)
    (size n m : ℕ) (usable : law.usable (bb_fullpath rootdir path) ≡ true)
    (owner : owner_rw mode ≡ true) (table : IsTable state) (room : state.fds_cap < 2 ^ 63)
    (readable : IsReadable garbage) (few : m < fuel) (small : block_size * m < 2 ^ 31) where
  abbrev transfer : Transfer
  transfer = new_transfer sha1 state (bb_fullpath rootdir path) buf size n

  -- The view with the new file, and that in which it is open.
  abbrev made : View → View
  made v = stored v (bb_fullpath rootdir path) (some new_header)

  abbrev opened_view : View → View
  opened_view v = holding (made v) (law.fresh (made v)) (bb_fullpath rootdir path) rd_wr 23

  opened_view-IsOpened :
      (v : View)
      → IsOpened
          (opened_view v)
          (law.fresh (made v))
          (bb_fullpath rootdir path)
          (at_offset (bb_fullpath rootdir path) rd_wr 23)
  opened_view-IsOpened v = record {
    found = find_held (made v) (law.fresh (made v)) (bb_fullpath rootdir path) rd_wr 23;
    path_same = refl;
    reads = refl;
    writes = refl;
  }

  -- On a path without a file, `bb_mknod` for a regular file, `bb_open`, `bb_write` of any number
  -- of bytes from the start of a block on, and `bb_read` of as many bytes there, in this order:
  -- all end, and the read puts the written bytes at the start of its buffer; its result is the
  -- number of bytes of the `m` blocks. The file then has one pair for each block, in order, and
  -- is open under one more descriptor; the store has every block; what it had before is
  -- unchanged, and so are the other files and descriptors. The table meets its invariant, has
  -- less than 2^63 entries and not the descriptor that is opened; the mode lets the owner read
  -- and write; the paths of the file and of the blocks are in directories that the process may
  -- change, and files there may be opened for reading and writing; what stands in place of the
  -- argument that cfs.c:355 does not pass is the address of memory that can be written, and the
  -- buffer for a hash has 20 bytes (`IsReadable`); every block can be written (`AreWritable`),
  -- and its name in the store is free or holds the same bytes; the blocks have less than 2^31
  -- bytes; the writes of the system take all bytes of a call that is not interrupted; and the
  -- fuel is above the number of blocks, and above 4096 and the pending signals together.
  pub session_blocks :
      (s : os.State) (are : AreWritable transfer m)
      → (law.view s).files (bb_fullpath rootdir path) ≡ none
      → cfs_get_file state (pos (law.fresh (made (law.view s)))) ≡ none
      → ((i : ℕ) → i < m → law.usable (nth_path transfer i) ≡ true)
      → ((i : ℕ)
          → i < m
          → Keeps (opened_view (law.view s)) (nth_path transfer i) (nth_bytes transfer i))
      → law.pending s ≤ signals
      → (w : View) × Wrote transfer m are
          (opened_view (law.view s))
          (law.fresh (made (law.view s)))
          w
          m
        × (o : ℕ) × Ends law signals
            (bb_mknod os fuel garbage rootdir path regular mode mkfifo mknod
              >> (bb_open os fuel garbage rootdir state path >>= λ opened.
                  bb_write os fuel garbage sha1 opened.state opened.fh buf size (block_size * n)
                  >>= λ t. bb_read os fuel garbage t.1 opened.fh out size (block_size * n)))
            s
            (pos (block_size * m), overwrite out 0 (take size buf))
            (at_file w
              (law.fresh (made (law.view s)))
              (bb_fullpath rootdir path)
              (image_bytes (written transfer m))
              o)
  session_blocks s are absent unknown named keeps calm =
      let v : View = law.view s in
      let fd : ℕ = law.fresh (made v) in
      let p : CString = bb_fullpath rootdir path in
      let (after, run, registered) =
        Runs-bb_open law {signals = signals} fuel garbage rootdir path (made v) usable state
          new_header (put_file_self _ _ _) table room unknown new_header-HasMagic.long
          (omega arith) in
      let (file, found, header) = registered.header in
      let shows = registered-Shows state after p fd file registered found in
      let (w, wrote, write_run) =
        Runs-bb_write_blocks law whole signals fuel enough garbage transfer m are after file fd
          (at_offset p rd_wr 23) found shows shows.size_same (omega arith)
          registered.claimed.storage_same named small (opened_view v) (opened_view-IsOpened v)
          (put_file_self _ _ _ ∙ ap some new_header-image) keeps in
      let (o, read_run) =
        Runs-bb_read_blocks law whole signals fuel enough garbage transfer m are after file fd
          (at_offset p rd_wr 23) found shows shows.size_same (omega arith)
          registered.claimed.storage_same named small (opened_view v) w wrote out readable in
      (
        w,
        wrote,
        o,
        (Runs-seq
              (Runs-bb_mknod law fuel garbage rootdir path v mode mkfifo mknod
                (law.usable_creatable (bb_fullpath rootdir path) mode usable owner) absent
                (omega arith))
              (Runs-bind _ run (Runs-bind _ write_run read_run))).from
            s refl calm,
      )
