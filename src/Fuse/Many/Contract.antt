-- ===== src/Fuse/Many/Contract.antt =====
-- What `bb_write` and `bb_read` of cfs/src/bbfs.c promise for requests of several blocks.
use fusefs_block.Base.{
  ℕ, ◌+◌, ◌*◌, ◌^◌, ◌≤◌, ◌<◌, ◌≡◌, refl, sym, ap, ◌∙◌, true, some, arith, pos, to_int-pos, length,
  take, Bytes,
}
use fusefs_block.Posix.{Posix, ◌>>=◌}
use fusefs_block.Posix.View.{View, Descriptor, overwrite}
use fusefs_block.Posix.Laws.{IsPosix}
use fusefs_block.Posix.Runs.{Ends, Runs, Runs-pure, Runs-bind, Runs-cast}
use fusefs_block.Io.Write.{IsWhole}
use fusefs_block.Io.Opened.{IsOpened, at_file, at_file_same, Runs-arg, Runs-view}
use fusefs_block.Storage.{block_size}
use fusefs_block.Storage.Shared.{Keeps}
use fusefs_block.Cfs.{IsReadable, CfsFile, CfsState, Garbage}
use fusefs_block.Cfs.Table.{cfs_get_file}
use fusefs_block.Cfs.Image.{image_bytes}
use fusefs_block.Cfs.Search.{Shows}
use fusefs_block.Fuse.Data.{put_entry, write_loop, read_loop, bb_write, bb_read}
use fusefs_block.Fuse.Entry.{get-put_entry}
use fusefs_block.Fuse.Many.{
  Transfer, done, nth_path, nth_bytes, written, grown, AreWritable, grown-Shows,
}
use fusefs_block.Fuse.Many.Views.{Wrote, Wrote-start}
use fusefs_block.Fuse.Many.Write.{Runs-writes}
use fusefs_block.Fuse.Many.Read.{Runs-reads}

module _ {os : Posix} (law : IsPosix os) (whole : IsWhole os) (signals fuel : ℕ)
    (enough : block_size + signals < fuel) (garbage : Garbage) (r : Transfer) (m : ℕ)
    (are : AreWritable r m) (state : CfsState) (file : CfsFile) (fd : ℕ) (d : Descriptor)
    (found : cfs_get_file state (pos fd) ≡ some file) (shows : Shows file fd r.image)
    (old_size : file.size ≡ pos r.k) (rounds_left : length r.image.pairs + m < fuel)
    (storage_same : state.storage ≡ r.storage)
    (usable : (i : ℕ) → i < m → law.usable (nth_path r i) ≡ true)
    (small : block_size * m < 2 ^ 31) where
  pub Runs-bb_write_blocks :
      (v : View)
      → IsOpened v fd r.p d
      → v.files r.p ≡ some (image_bytes r.image)
      → ((i : ℕ) → i < m → Keeps v (nth_path r i) (nth_bytes r i))
      → (w : View) × Wrote r m are v fd w m
        × Runs law signals
            (bb_write os fuel garbage r.sha1 state (pos fd) r.buf r.size (block_size * r.n))
            v
            (pos r.size, put_entry state (pos fd) (grown r file m))
            w
  unfolding bb_write grown
  Runs-bb_write_blocks v is holds keeps =
      let (w, wrote, run) =
        Runs-writes law whole signals fuel enough garbage r m are state file fd shows old_size
          rounds_left storage_same usable v m 0 fuel v (omega arith) (omega arith)
          (Wrote-start r m are v fd d is holds keeps) in
      (
        w,
        wrote,
        rw (bb_write, found)
            (Runs-bind _
              (Runs-arg
                (λ (z : ℕ × ℕ).
                  write_loop os fuel garbage r.sha1 fuel state file (block_size * r.n) r.size z.0
                    z.1 r.buf)
                (λ j. (start j, none_done j)) run)
              (Runs-cast
                (ap (λ z. (z, put_entry state (pos fd) (grown r file m)))
                  (to_int-pos r.size (omega (arith, are.most))))
                refl (Runs-pure _ _))),
      )
    where
      start : block_size * r.n ≡ block_size * r.n + done r 0
      start = omega arith

      none_done : 0 ≡ done r 0
      none_done = omega arith

  pub Runs-bb_read_blocks :
      (v w : View)
      → Wrote r m are v fd w m
      → (out : Bytes) → IsReadable garbage
      → (o : ℕ) × Runs law signals
          (bb_read os fuel garbage
            (put_entry state (pos fd) (grown r file m))
            (pos fd)
            out
            r.size
            (block_size * r.n))
          w
          (pos (block_size * m), overwrite out 0 (take r.size r.buf))
          (at_file w fd r.p (image_bytes (written r m)) o)
  unfolding bb_read overwrite
  Runs-bb_read_blocks v w wrote out readable =
      let file' : CfsFile = grown r file m in
      let (found', storage') = get-put_entry state (pos fd) file file' found in
      let (o, run) =
        Runs-reads law whole signals fuel enough garbage r m are (put_entry state (pos fd) file')
          file' fd (grown-Shows r m are file fd shows old_size m (omega arith)).0 rounds_left
          (storage' ∙ storage_same) readable usable v w wrote out m 0 fuel wrote.descriptor.offset
          (omega arith) (omega arith) in
      let done_run : Runs law signals
          (bb_read os fuel garbage (put_entry state (pos fd) (grown r file m)) (pos fd) out r.size
            (block_size * r.n))
          (at_file w fd r.p (image_bytes (written r m)) wrote.descriptor.offset)
          (pos (block_size * m), overwrite out 0 (take r.size r.buf))
          (at_file w fd r.p (image_bytes (written r m)) o) =
        rw (bb_read, found')
          (Runs-cast
            (ap (λ z. (z, overwrite out 0 (take r.size r.buf))) (to_int-pos (block_size * m) small))
            refl
            (Runs-arg
              (λ (z : ℕ × ℕ × Bytes).
                read_loop os fuel garbage fuel (put_entry state (pos fd) file') file'
                  (block_size * r.n) r.size z.0 z.1 z.2)
              (λ j. (start j, none_done j, nothing j)) run)) in
      (
        o,
        Runs-view
            (at_file_same w fd r.p wrote.descriptor (image_bytes (written r m)) wrote.opened
              wrote.holds)
            done_run,
      )
    where
      start : block_size * r.n ≡ block_size * r.n + block_size * 0
      start = omega arith

      none_done : 0 ≡ block_size * 0
      none_done = omega arith

      nothing : out ≡ overwrite out 0 (take (done r 0) r.buf)
      nothing =
          sym (ap (λ k. overwrite out 0 (take k r.buf)) (let e : done r 0 ≡ 0 = omega arith in e))

  -- `bb_write` of any number of bytes at the start of a block, over `m` blocks that the file
  -- does not have: it ends with the number of bytes. The file then holds its old pairs and one
  -- for each block, in order, and its size counts the bytes, in the header and in the entry of
  -- the table; the store has every block; what it had before is unchanged, and so are the other
  -- files and descriptors. The conditions are that every block can be written (`AreWritable`),
  -- that the name of each block is free or holds the same bytes, that the file is registered and
  -- open for reading and writing, that the writes of the system take all bytes of a call that is
  -- not interrupted, that the blocks have less than 2^31 bytes, and that the fuel is above the
  -- number of old and new pairs, and above 4096 and the pending signals together.
  pub bb_write_blocks :
      (s : os.State)
      → IsOpened (law.view s) fd r.p d
      → (law.view s).files r.p ≡ some (image_bytes r.image)
      → ((i : ℕ) → i < m → Keeps (law.view s) (nth_path r i) (nth_bytes r i))
      → law.pending s ≤ signals
      → (w : View) × Wrote r m are (law.view s) fd w m
        × Ends law signals
            (bb_write os fuel garbage r.sha1 state (pos fd) r.buf r.size (block_size * r.n))
            s
            (pos r.size, put_entry state (pos fd) (grown r file m))
            w
        × Shows (grown r file m) fd (written r m)
        × ((grown r file m).size ≡ pos (r.k + r.size))
  bb_write_blocks s is holds keeps calm =
      let (w, wrote, run) = Runs-bb_write_blocks (law.view s) is holds keeps in
      let (shows', size') = grown-Shows r m are file fd shows old_size m (omega arith) in
      let total : r.k + done r m ≡ r.k + r.size = omega (arith, are.most) in
      (w, wrote, run.from s refl calm, shows', size' ∙ ap pos total)

  -- `bb_read` of as many bytes at the same offset after such a `bb_write`: both end, and the
  -- read puts the written bytes at the start of its buffer. Its result is the number of bytes of
  -- the `m` blocks, also where fewer bytes were asked for. The view is the one that the write
  -- left, but for the offset of the descriptor. The conditions are those of `bb_write_blocks`;
  -- and what stands in place of the argument that cfs.c:355 does not pass is the address of
  -- memory that can be written, and the buffer for a hash has 20 bytes (`IsReadable`).
  pub bb_read-bb_write_blocks :
      (s : os.State) (out : Bytes)
      → IsOpened (law.view s) fd r.p d
      → (law.view s).files r.p ≡ some (image_bytes r.image)
      → ((i : ℕ) → i < m → Keeps (law.view s) (nth_path r i) (nth_bytes r i))
      → IsReadable garbage
      → law.pending s ≤ signals
      → (w : View) × Wrote r m are (law.view s) fd w m
        × (o : ℕ) × Ends law signals
            (bb_write os fuel garbage r.sha1 state (pos fd) r.buf r.size (block_size * r.n) >>= λ t.
              bb_read os fuel garbage t.1 (pos fd) out r.size (block_size * r.n))
            s
            (pos (block_size * m), overwrite out 0 (take r.size r.buf))
            (at_file w fd r.p (image_bytes (written r m)) o)
  bb_read-bb_write_blocks s out is holds keeps readable calm =
      let (w, wrote, run) = Runs-bb_write_blocks (law.view s) is holds keeps in
      let (o, back) = Runs-bb_read_blocks (law.view s) w wrote out readable in
      (w, wrote, o, (Runs-bind _ run back).from s refl calm)
