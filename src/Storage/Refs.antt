-- ===== src/Storage/Refs.antt =====
-- The reference counter of a block: `block_inc_ref` and `block_dec_ref` of cfs/src/storage.c.
use mathlib.Core.Path.{ap₂}
use fusefs_block.Base.{
  ℕ, ◌+◌, ◌-◌, ◌%◌, ◌^◌, ◌<◌, ◌≡◌, refl, sym, ap, ◌∙◌, ◌≢◌, true, false, some, none, [], ◌++◌,
  arith, ==_refl, bytes_eq_refl, ◌==◌, if◌then◌else◌, ℤ, pos, ◌+ℤ◌, to_int, to_size, CString,
  length, take, take-append, Bytes, word_bytes, word_value, length-word_bytes,
  word_value-word_bytes,
}
use fusefs_block.Posix.{Posix, Access, rd_wr, seek_set, M, ◌>>=◌, ◌>>◌}
use fusefs_block.Posix.View.{View, stored, unlinked, closed, find_fd, can_read, drop_fd, orphan_fds}
use fusefs_block.Posix.Overwrite.{overwrite_middle}
use fusefs_block.Posix.Laws.{IsPosix}
use fusefs_block.Posix.Runs.{Runs, Runs-pure, Runs-bind, Runs-seq, Runs-cast}
use fusefs_block.Posix.Calls.{Runs-open_existing, Runs-unlink, Runs-lock, Runs-close}
use fusefs_block.Io.{s_lseek, s_read, s_write}
use fusefs_block.Io.Write.{IsWhole}
use fusefs_block.Io.Held.{holding, held-close, held-lock, held-s_lseek, held-s_read, held-s_write}
use fusefs_block.Storage.{BlkStore, block_path, ref_size, read_write, give_up}
use fusefs_block.Storage.Counter.{block_inc_ref, inc_write, block_dec_ref, dec_write, dec_finish}

-- The contents of a block file.
unfoldable pub block_file : ℕ → Bytes → Bytes
block_file refs buffer = word_bytes ref_size refs ++ buffer

module _ {os : Posix} (law : IsPosix os) (whole : IsWhole os) {signals : ℕ} (fuel : ℕ)
    (enough : ref_size + signals < fuel) where
  module _ (v : View) (fd : ℕ) (p : CString) (refs old : ℕ) (buffer : Bytes)
      (h : v.files p ≡ some (block_file old buffer)) where
    held-write_refs :
        Runs law signals
          (s_write os fuel (pos fd) (word_bytes ref_size refs))
          (holding v fd p rd_wr 0)
          (pos 8)
          (holding (stored v p (some (block_file refs buffer))) fd p rd_wr 8)
    unfolding block_file
    held-write_refs =
        Runs-cast (ap pos (length-word_bytes 8 refs))
          (ap₂ (λ c o. holding (stored v p (some c)) fd p rd_wr o)
            (overwrite_middle [] (word_bytes 8 old) buffer (word_bytes 8 refs) 0 refl
              (length-word_bytes 8 refs ∙ sym (length-word_bytes 8 old)))
            (omega (arith, length-word_bytes 8 refs)))
          (held-s_write law v fd p rd_wr 0 whole fuel (word_bytes ref_size refs) h refl
            (omega (arith, length-word_bytes 8 refs)) (omega (arith, length-word_bytes 8 refs)))

    pub held-read_refs :
        (a : Access)
        → can_read a ≡ true
        → Runs law signals
            (s_read os fuel (pos fd) ref_size)
            (holding v fd p a 0)
            (pos 8, word_bytes 8 old)
            (holding v fd p a 8)
    unfolding block_file
    held-read_refs a r =
        let front : take 8 (word_bytes 8 old ++ buffer) ≡ word_bytes 8 old =
          take-append 8 _ buffer (length-word_bytes 8 old) in
        let size : length (take 8 (word_bytes 8 old ++ buffer)) ≡ 8 =
          ap length front ∙ length-word_bytes 8 old in
        Runs-cast (λ i. (pos (size i), front i)) (λ i. holding v fd p a (size' size i))
          (held-s_read law v fd p a 0 fuel ref_size h r enough)
      where
        size' : {n : ℕ} → n ≡ 8 → 0 + n ≡ 8
        size' e = omega arith

    held-inc_write :
        (o : ℕ)
        → Runs law signals
            (inc_write os fuel fd refs)
            (holding v fd p rd_wr o)
            (to_int (pos refs))
            (stored v p (some (block_file refs buffer)))
    unfolding inc_write to_size ◌+ℤ◌
    held-inc_write o =
        Runs-seq
          (held-s_lseek law v fd p rd_wr o fuel (pos 0) seek_set 0 h refl (omega arith)
            (omega arith))
          (Runs-bind _ held-write_refs (
            Runs-bind _ (held-lock law _ fd p rd_wr 8 _ _)
              (Runs-seq (held-close law _ fd p rd_wr 8) (Runs-pure _ _))))

    held-dec_write :
        (o : ℕ)
        → refs ≢ 0
        → Runs law signals
            (dec_write os fuel p fd refs)
            (holding v fd p rd_wr o)
            (to_int (pos refs))
            (stored v p (some (block_file refs buffer)))
    unfolding dec_write dec_finish to_size ◌+ℤ◌
    held-dec_write o positive = rw nonzero (
        Runs-seq
          (held-s_lseek law v fd p rd_wr o fuel (pos 0) seek_set 0 h refl (omega arith)
            (omega arith))
          (Runs-bind _ held-write_refs (
            Runs-bind _ (held-lock law _ fd p rd_wr 8 _ _)
              (Runs-seq (held-close law _ fd p rd_wr 8) (Runs-pure _ _)))))
      where
        nonzero : (refs == 0) ≡ false
        nonzero = ground arith

    -- The last reference: the file is removed while the descriptor is still open.
    held-dec_last :
        (o : ℕ)
        → law.usable p ≡ true
        → Runs law signals
            (dec_write os fuel p fd 0)
            (holding v fd p rd_wr o)
            (pos 0)
            (unlinked v p)
    unfolding dec_write dec_finish to_int
    held-dec_last o u = Runs-seq (Runs-unlink law _ p u h) (
        Runs-bind _ (Runs-lock law _ fd _ _ found)
          (Runs-seq (Runs-cast refl removed (Runs-close law _ fd found)) (Runs-pure _ _)))
      where
        after : View
        after = unlinked (holding v fd p rd_wr o) p

        found :
            find_fd fd after.descriptors ≡ some (record { file = none; offset = o; access = rd_wr })
        found = unfold find_fd orphan_fds in rw (==_refl fd, bytes_eq_refl p)

        removed : closed after fd ≡ unlinked v p
        removed = unfold drop_fd orphan_fds in rw (==_refl fd)

-- The results of `refs++` and `refs--` on a `size_t`.
unfoldable pub incremented : ℕ → ℕ
incremented refs = (refs + 1) % 2 ^ 64

unfoldable pub decremented : ℕ → ℕ
decremented refs = (refs + 2 ^ 64 - 1) % 2 ^ 64

module _ {os : Posix} (law : IsPosix os) (whole : IsWhole os) {signals : ℕ} (fuel : ℕ)
    (enough : ref_size + signals < fuel) (storage : BlkStore) (hash : Bytes) (v : View)
    (usable : law.usable (block_path storage hash) ≡ true) where
  module _ (refs : ℕ) (buffer : Bytes) (fits : refs < 2 ^ 64)
      (h : v.files (block_path storage hash) ≡ some (block_file refs buffer)) where
    -- Both functions open and lock the file, read the counter and go on with its new value.
    read_counter :
        (f : ℕ → M os.State ℤ) {a : ℤ} {w : View}
        → Runs law signals (f refs) (holding v (law.fresh v) (block_path storage hash) rd_wr 8) a w
        → Runs law signals
            (do
              s_lseek os fuel (pos (law.fresh v)) (pos 0) seek_set
              (n, buf) ← s_read os fuel (pos (law.fresh v)) ref_size
              if to_size n == ref_size then f (word_value buf) else give_up os (law.fresh v))
            (holding v (law.fresh v) (block_path storage hash) rd_wr 0)
            a
            w
    unfolding to_size ◌+ℤ◌
    read_counter f r =
        let value : word_value (word_bytes 8 refs) ≡ refs = word_value-word_bytes 8 refs fits in
        Runs-seq
          (held-s_lseek law v (law.fresh v) (block_path storage hash) rd_wr 0 fuel (pos 0) seek_set
            0 h refl (omega arith) (omega arith))
          (Runs-bind _
            (held-read_refs law whole fuel enough v (law.fresh v) (block_path storage hash) 0 refs
              buffer h rd_wr refl)
            (rw value r))

    -- The counter goes up by one, and nothing else changes.
    pub Runs-block_inc_ref :
        Runs law signals
          (block_inc_ref os fuel storage hash)
          v
          (to_int (pos (incremented refs)))
          (stored v (block_path storage hash) (some (block_file (incremented refs) buffer)))
    unfolding block_inc_ref incremented
    Runs-block_inc_ref =
        Runs-bind _ (Runs-open_existing law v (block_path storage hash) read_write 0 usable h refl)
          (Runs-bind _ (held-lock law v (law.fresh v) (block_path storage hash) rd_wr 0 _ _) (
            read_counter (λ n. inc_write os fuel (law.fresh v) ((n + 1) % 2 ^ 64))
              (held-inc_write law whole fuel enough v (law.fresh v) (block_path storage hash)
                ((refs + 1) % 2 ^ 64) refs buffer h 8)))

    pub Runs-block_dec_ref :
        decremented refs ≢ 0
        → Runs law signals
            (block_dec_ref os fuel storage hash)
            v
            (to_int (pos (decremented refs)))
            (stored v (block_path storage hash) (some (block_file (decremented refs) buffer)))
    unfolding block_dec_ref decremented
    Runs-block_dec_ref more =
        Runs-bind _ (Runs-open_existing law v (block_path storage hash) read_write 0 usable h refl)
          (Runs-bind _ (held-lock law v (law.fresh v) (block_path storage hash) rd_wr 0 _ _) (
            read_counter
              (λ n.
                dec_write os fuel (block_path storage hash) (law.fresh v)
                  ((n + 2 ^ 64 - 1) % 2 ^ 64))
              (held-dec_write law whole fuel enough v (law.fresh v) (block_path storage hash)
                ((refs + 2 ^ 64 - 1) % 2 ^ 64) refs buffer h 8 more)))

    pub Runs-block_dec_ref_last :
        decremented refs ≡ 0
        → Runs law signals
            (block_dec_ref os fuel storage hash)
            v
            (pos 0)
            (unlinked v (block_path storage hash))
    unfolding block_dec_ref decremented
    Runs-block_dec_ref_last last =
        Runs-bind _ (Runs-open_existing law v (block_path storage hash) read_write 0 usable h refl)
          (Runs-bind _ (held-lock law v (law.fresh v) (block_path storage hash) rd_wr 0 _ _) (
            read_counter
              (λ n.
                dec_write os fuel (block_path storage hash) (law.fresh v)
                  ((n + 2 ^ 64 - 1) % 2 ^ 64))
              (rw last (
                held-dec_last law whole fuel enough v (law.fresh v) (block_path storage hash) 0 refs
                  buffer h 8 usable))))
