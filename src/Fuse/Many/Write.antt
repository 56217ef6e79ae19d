-- ===== src/Fuse/Many/Write.antt =====
-- The rounds of `bb_write` of cfs/src/bbfs.c over the blocks of a request.
use fusefs_block.Base.{ℕ, zero, suc, ◌+◌, ◌-◌, ◌*◌, ◌<◌, ◌≡◌, refl, ap, true, arith, pos, length}
use fusefs_block.Posix.{Posix}
use fusefs_block.Posix.View.{View}
use fusefs_block.Posix.Laws.{IsPosix}
use mathlib.Core.Path.{subst}
use fusefs_block.Posix.Runs.{Runs, Runs-cast}
use fusefs_block.Io.Write.{IsWhole}
use fusefs_block.Io.Opened.{at_file, Runs-arg}
use fusefs_block.Storage.{block_size}
use fusefs_block.Cfs.{CfsFile, CfsState, Garbage}
use fusefs_block.Cfs.Search.{Shows}
use fusefs_block.Cfs.Contract.{Runs-register}
use fusefs_block.Cfs.Append.{with_pair}
use fusefs_block.Cfs.Image.{image_bytes}
use fusefs_block.Storage.Shared.{after_store}
use fusefs_block.Cfs.Blocks.{cfs_file_register_block}
use fusefs_block.Fuse.Data.{write_block, write_loop}
use fusefs_block.Fuse.Aligned.{Runs-write_round, Runs-write_end}
use fusefs_block.Fuse.Many.{
  Transfer, done, part, nth_block, nth_hash, nth_path, nth_bytes, written, grown, AreWritable,
  length-written, find_unwritten, nth-IsWritable, grown-Shows,
}
use fusefs_block.Fuse.Many.Views.{Wrote, next_view, Wrote-next}

module _ {os : Posix} (law : IsPosix os) (whole : IsWhole os) (signals fuel : ℕ)
    (enough : block_size + signals < fuel) (garbage : Garbage) (r : Transfer) (m : ℕ)
    (are : AreWritable r m) (state : CfsState) (file : CfsFile) (fd : ℕ)
    (shows : Shows file fd r.image) (old_size : file.size ≡ pos r.k)
    (rounds_left : length r.image.pairs + m < fuel) (storage_same : state.storage ≡ r.storage)
    (usable : (i : ℕ) → i < m → law.usable (nth_path r i) ≡ true) (v : View) where
  -- Block `i` is registered.
  Runs-register_nth :
      (w : View) (i : ℕ) (wrote : Wrote r m are v fd w i) (lt : i < m)
      → Runs law signals
          (cfs_file_register_block os fuel r.sha1 garbage r.storage
            (grown r file i)
            (nth_block r i))
          w
          (pos 0, grown r file (suc i))
          (next_view r m are v fd w i (wrote.keeps i lt))
  unfolding grown written write_block
  Runs-register_nth w i wrote lt =
      let (shows', size') = grown-Shows r m are file fd shows old_size i (omega arith) in
      let total : r.k + done r i + part r i ≡ r.k + done r (suc i) = omega arith in
      Runs-cast refl
        (ap
          (λ z.
            at_file (after_store w (nth_path r i) (nth_bytes r i) (wrote.keeps i lt)) fd r.p
              (image_bytes (with_pair (written r i) (pos z) (pos (r.n + i)) (nth_hash r i))) 23)
          total)
        (Runs-register law whole signals fuel enough r.sha1 r.storage garbage (grown r file i)
          (written r i) (r.k + done r i) fd r.p wrote.descriptor (nth_block r i) shows'
          (omega (arith, length-written r i)) size' (usable i lt) (nth-IsWritable r m are i lt)
          (find_unwritten r m are i i (omega arith) lt) w wrote.opened wrote.holds
          (wrote.keeps i lt))

  -- The rounds from block `i` on, of which `left` are to come.
  pub Runs-writes :
      (left i rounds : ℕ) (w : View)
      → i + left ≡ m
      → left < rounds
      → Wrote r m are v fd w i
      → (w' : View) × Wrote r m are v fd w' m
        × Runs law signals
            (write_loop os fuel garbage r.sha1 rounds state
              (grown r file i)
              (block_size * r.n)
              r.size
              (block_size * r.n + done r i)
              (done r i)
              r.buf)
            w
            (grown r file m)
            w'
  Runs-writes left i zero w sum lt wrote = absurd (omega arith)
  Runs-writes zero i (suc rounds) w sum lt wrote =
      let last : i ≡ m = omega arith in
      (
        w,
        subst (Wrote r m are v fd w) last wrote,
        Runs-cast (ap (grown r file) last) refl (
            Runs-write_end law fuel garbage state r.sha1 rounds (block_size * r.n) r.size _ _
              (grown r file i) r.buf w (omega (arith, are.most))),
      )
  Runs-writes (suc left) i (suc rounds) w sum lt wrote =
      let more : i < m = omega arith in
      let whole_before : done r i ≡ block_size * i = omega (arith, are.tight) in
      let (w', wrote', rest) =
        Runs-writes left (suc i) rounds _ (omega arith) (omega arith)
          (Wrote-next r m are v fd w i wrote more) in
      (
        w',
        wrote',
        Runs-arg
            (λ z.
              write_loop os fuel garbage r.sha1 (suc rounds) state (grown r file i)
                (block_size * r.n) r.size (block_size * r.n + z) z r.buf)
            whole_before
            (Runs-write_round law fuel garbage state r.sha1 rounds (block_size * r.n) r.size
              (block_size * r.n + block_size * i) (block_size * i) (r.n + i) (part r i)
              (grown r file i) (grown r file (suc i)) r.buf w
              (next_view r m are v fd w i (wrote.keeps i more)) w' (pos 0) _ (omega arith)
              (omega arith) (omega (arith, are.tight)) (omega arith)
              (Runs-arg
                (λ st.
                  cfs_file_register_block os fuel r.sha1 garbage st (grown r file i)
                    (nth_block r i))
                storage_same (Runs-register_nth w i wrote more))
              (Runs-arg
                (λ z.
                  write_loop os fuel garbage r.sha1 rounds state (grown r file (suc i))
                    (block_size * r.n) r.size z (block_size * i + (part r i - 0)) r.buf)
                (current_next more)
                (Runs-arg
                  (λ z.
                    write_loop os fuel garbage r.sha1 rounds state (grown r file (suc i))
                      (block_size * r.n) r.size (block_size * r.n + done r (suc i)) z r.buf)
                  (index_next more) rest))),
      )
    where
      current_next :
          i < m → block_size * r.n + block_size * i + part r i ≡ block_size * r.n + done r (suc i)
      current_next more = omega (arith, are.tight)

      index_next : i < m → block_size * i + (part r i - 0) ≡ done r (suc i)
      index_next more = omega (arith, are.tight)
