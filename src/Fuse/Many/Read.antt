-- ===== src/Fuse/Many/Read.antt =====
-- The rounds of `bb_read` of cfs/src/bbfs.c over the blocks of a request that has been written.
use fusefs_block.Base.{
  ℕ, zero, suc, ◌+◌, ◌-◌, ◌*◌, ◌<◌, ◌≡◌, refl, ap, ◌∙◌, true, arith, ◌++◌, pos, to_int, length,
  length-take, take, take_split, drop, Bytes,
}
use fusefs_block.Posix.{Posix}
use fusefs_block.Posix.View.{View, overwrite}
use fusefs_block.Posix.Overwrite.{overwrite-overwrite}
use fusefs_block.Posix.Laws.{IsPosix}
use fusefs_block.Posix.Runs.{Runs, Runs-cast}
use fusefs_block.Io.Write.{IsWhole}
use fusefs_block.Io.Opened.{at_file, Runs-arg}
use fusefs_block.Storage.{block_size}
use fusefs_block.Cfs.{IsReadable, CfsFile, CfsState, Garbage}
use fusefs_block.Cfs.Blocks.{cfs_file_read_block}
use fusefs_block.Cfs.Image.{image_bytes}
use fusefs_block.Cfs.Search.{Shows}
use fusefs_block.Cfs.Load.{filled, Runs-read_found}
use fusefs_block.Fuse.Data.{zero_block, read_loop}
use fusefs_block.Fuse.Aligned.{
  length-whole_block, take-whole_block, Runs-read_round, Runs-read_end, copied_filled,
}
use fusefs_block.Fuse.Many.{
  Transfer, done, part, nth_block, nth_hash, nth_path, nth_bytes, written, AreWritable,
  length-written, find_written,
}
use fusefs_block.Fuse.Many.Views.{Wrote}

-- A block has the bytes of its part of the request.
length-nth_bytes :
    (r : Transfer) (m : ℕ) → AreWritable r m → (i : ℕ) → i < m → length (nth_bytes r i) ≡ part r i
length-nth_bytes r m are i lt = omega (
  arith,
  length-take (part r i) (nth_block r i).buffer,
  length-whole_block r.buf (block_size * i) (part r i) (r.n + i) (omega arith),
)

-- What the reader has after block `i`.
joined :
    (r : Transfer) (m : ℕ)
    → AreWritable r m
    → (i : ℕ) (out : Bytes) → i < m
    → overwrite (overwrite out 0 (take (done r i) r.buf)) (block_size * i) (nth_bytes r i)
      ≡ overwrite out 0 (take (done r (suc i)) r.buf)
joined r m are i out lt =
    overwrite-overwrite out 0 (take (done r i) r.buf) (nth_bytes r i) (block_size * i)
      (omega (arith, length-take (done r i) r.buf, are.tight, are.within))
    ∙ ap (overwrite out 0) (
        ap (λ t. take (done r i) r.buf ++ t)
          (take-whole_block r.buf (block_size * i) (part r i) (r.n + i)
              (omega (arith, are.tight, are.within))
            ∙ (λ j. take (amount j) (drop (start j) r.buf)))
        ∙ take_split (done r i) (done r (suc i)) r.buf (omega arith))
  where
    amount : part r i ≡ done r (suc i) - done r i
    amount = omega (arith, are.tight)

    start : block_size * i ≡ done r i
    start = omega (arith, are.tight)

module _ {os : Posix} (law : IsPosix os) (whole : IsWhole os) (signals fuel : ℕ)
    (enough : block_size + signals < fuel) (garbage : Garbage) (r : Transfer) (m : ℕ)
    (are : AreWritable r m) (state : CfsState) (file : CfsFile) (fd : ℕ)
    (shows : Shows file fd (written r m)) (rounds_left : length r.image.pairs + m < fuel)
    (storage_same : state.storage ≡ r.storage) (readable : IsReadable garbage)
    (usable : (i : ℕ) → i < m → law.usable (nth_path r i) ≡ true) (v w : View)
    (wrote : Wrote r m are v fd w m) (out : Bytes) where
  -- Block `i` is loaded.
  Runs-read_nth :
      (i o : ℕ)
      → i < m
      → (o' : ℕ) × Runs law signals
          (cfs_file_read_block os fuel garbage r.storage file (pos (r.n + i)) zero_block)
          (at_file w fd r.p (image_bytes (written r m)) o)
          (pos 1, filled zero_block (pos (r.n + i)) (nth_bytes r i))
          (at_file w fd r.p (image_bytes (written r m)) o')
  Runs-read_nth i o lt =
      let (refs, known) = wrote.blocks i lt in
      Runs-read_found law whole fuel enough w fd r.p wrote.descriptor wrote.opened r.storage garbage
        file (written r m) shows (omega (arith, length-written r m)) (pos (r.n + i)) zero_block o
        (nth_hash r i) refs (nth_bytes r i) (find_written r m are m i (omega arith) lt)
        (are.hash_lengths i lt) readable (usable i lt) (are.apart i lt) known
        (omega (arith, length-nth_bytes r m are i lt, are.tight))
        (omega (arith, length-nth_bytes r m are i lt))

  -- The rounds from block `i` on, of which `left` are to come.
  pub Runs-reads :
      (left i rounds o : ℕ)
      → i + left ≡ m
      → left < rounds
      → (o' : ℕ) × Runs law signals
          (read_loop os fuel garbage rounds state file
            (block_size * r.n)
            r.size
            (block_size * r.n + block_size * i)
            (block_size * i)
            (overwrite out 0 (take (done r i) r.buf)))
          (at_file w fd r.p (image_bytes (written r m)) o)
          (to_int (pos (block_size * m)), overwrite out 0 (take r.size r.buf))
          (at_file w fd r.p (image_bytes (written r m)) o')
  Runs-reads left i zero o sum lt = absurd (omega arith)
  Runs-reads zero i (suc rounds) o sum lt = (
    o,
    Runs-cast (λ j. (to_int (pos (count j)), overwrite out 0 (take (all j) r.buf))) refl
        (Runs-read_end law fuel garbage state rounds (block_size * r.n) r.size _ _ file _ _
          (omega (arith, are.most))),
  )
    where
      count : block_size * r.n + block_size * i - block_size * r.n ≡ block_size * m
      count = omega arith

      all : done r i ≡ r.size
      all = omega (arith, are.most)
  Runs-reads (suc left) i (suc rounds) o sum lt =
      let more : i < m = omega arith in
      let (o', run) = Runs-read_nth i o more in
      let (o'', rest) = Runs-reads left (suc i) rounds o' (omega arith) (omega arith) in
      (
        o'',
        Runs-read_round law fuel garbage state rounds (block_size * r.n) r.size
            (block_size * r.n + block_size * i) (block_size * i) (r.n + i) file
            (overwrite out 0 (take (done r i) r.buf))
            (filled zero_block (pos (r.n + i)) (nth_bytes r i)) _ _ _ _ (omega arith) (omega arith)
            (omega (arith, are.tight))
            (Runs-arg (λ st. cfs_file_read_block os fuel garbage st file (pos (r.n + i)) zero_block)
              storage_same run)
            (Runs-arg
              (λ (z : ℕ × ℕ × Bytes).
                read_loop os fuel garbage rounds state file (block_size * r.n) r.size z.0 z.1 z.2)
              (λ j. (current_next j, index_next j, buf_next more j)) rest),
      )
    where
      current_next :
          block_size * r.n + block_size * i + (block_size - 0)
          ≡ block_size * r.n + block_size * suc i
      current_next = omega arith

      index_next : block_size * i + (block_size - 0) ≡ block_size * suc i
      index_next = omega arith

      buf_next :
          i < m
          → overwrite (overwrite out 0 (take (done r i) r.buf)) (block_size * i) (
              take
                ((filled zero_block (pos (r.n + i)) (nth_bytes r i)).size - 0 - 0)
                (drop 0 (filled zero_block (pos (r.n + i)) (nth_bytes r i)).buffer))
            ≡ overwrite out 0 (take (done r (suc i)) r.buf)
      buf_next more =
          ap (overwrite (overwrite out 0 (take (done r i) r.buf)) (block_size * i))
            (copied_filled zero_block (pos (r.n + i)) (nth_bytes r i))
          ∙ joined r m are i out more
