-- ===== src/Storage/Blocks.antt =====
-- Storing, loading and measuring blocks: `store_block`, `load_block` and `block_get_size` of
-- cfs/src/storage.c.
use fusefs_block.Base.{
  ℕ, ◌+◌, ◌^◌, ◌≤◌, ◌<◌, ◌≡◌, min, is_some, refl, sym, ap, ◌∙◌, true, some, none, [], arith,
  ==_refl, lt→ltb, ltb, pos, negsuc, ◌+ℤ◌, to_int, to_size, to_int-pos, to_size-pos, CString,
  length, length-append, length-take, take, drop, drop-append, Bytes, word_bytes, length-word_bytes,
}
use fusefs_block.Posix.{Posix, rd_only, rd_wr, seek_set, seek_end}
use fusefs_block.Posix.View.{View, put_file, put_file_self, put_file-put_file, stored, overwrite}
use fusefs_block.Posix.Overwrite.{overwrite_end}
use fusefs_block.Posix.Laws.{IsPosix}
use fusefs_block.Posix.Runs.{Runs, Runs-pure, Runs-bind, Runs-seq, Runs-cast}
use fusefs_block.Posix.Calls.{Runs-open_existing, Runs-open_creating}
use fusefs_block.Io.{s_read, s_write}
use fusefs_block.Io.Write.{IsWhole}
use fusefs_block.Io.Seek.{Runs-file_exists}
use fusefs_block.Io.Held.{holding, held-close, held-lock, held-s_lseek, held-s_read, held-s_write}
use fusefs_block.Storage.{
  BlkStore, Loaded, block_path, block_size, ref_size, read_only, read_write_create, nothing_loaded,
}
use fusefs_block.Storage.Block.{store_block, store_write, load_block, load_read, block_get_size}
use fusefs_block.Storage.Refs.{block_file, held-read_refs}

-- What `load_block` returns for a block file.
unfoldable pub loaded : ℕ → Bytes → Loaded
loaded refs buffer = record {
  ret = pos 0;
  bytes = take block_size buffer;
  size = some (length (take block_size buffer));
  refs = word_bytes ref_size refs;
}

length-block_file :
    (refs : ℕ) (buffer : Bytes) → length (block_file refs buffer) ≡ 8 + length buffer
unfolding block_file
length-block_file refs buffer =
    omega (arith, length-append (word_bytes 8 refs) buffer, length-word_bytes 8 refs)

counter_fits : to_size (to_int (pos 8)) ≡ 8
unfolding to_size to_int
counter_fits = refl

module _ {os : Posix} (law : IsPosix os) (whole : IsWhole os) {signals : ℕ} (fuel : ℕ)
    (enough : block_size + signals < fuel) where
  module _ (v : View) (fd : ℕ) (p : CString) where
    -- The two writes to an empty file.
    held-write_counter :
        Runs law signals
          (s_write os fuel (pos fd) (word_bytes ref_size 1))
          (holding (stored v p (some [])) fd p rd_wr 0)
          (pos 8)
          (holding (stored v p (some (word_bytes 8 1))) fd p rd_wr 8)
    held-write_counter =
        Runs-cast (ap pos (length-word_bytes 8 1))
          (λ i.
            holding
              (record v {
                files =
                    (put_file-put_file p (some (overwrite [] 0 (word_bytes 8 1))) (some []) v.files
                        ∙ ap (λ c. put_file p (some c) v.files)
                            (overwrite_end [] 0 (word_bytes 8 1) refl))
                      i;
              })
              fd p rd_wr (reach i))
          (held-s_write law (stored v p (some [])) fd p rd_wr 0 whole fuel (word_bytes ref_size 1)
            (put_file_self p _ v.files) refl (omega (arith, length-word_bytes 8 1))
            (omega (arith, length-word_bytes 8 1)))
      where
        reach : 0 + length (word_bytes 8 1) ≡ 8
        reach = omega (arith, length-word_bytes 8 1)

    held-write_data :
        (buffer : Bytes)
        → 0 < length buffer
        → length buffer ≤ block_size
        → Runs law signals
            (s_write os fuel (pos fd) buffer)
            (holding (stored v p (some (word_bytes 8 1))) fd p rd_wr 8)
            (pos (length buffer))
            (holding (stored v p (some (block_file 1 buffer))) fd p rd_wr (8 + length buffer))
    unfolding block_file
    held-write_data buffer sl le =
        Runs-cast refl
          (λ i.
            holding
              (record v {
                files =
                    (put_file-put_file p (some (overwrite (word_bytes 8 1) 8 buffer))
                          (some (word_bytes 8 1)) v.files
                        ∙ ap (λ c. put_file p (some c) v.files)
                            (overwrite_end (word_bytes 8 1) 8 buffer (sym (length-word_bytes 8 1))))
                      i;
              })
              fd p rd_wr (8 + length buffer))
          (held-s_write law (stored v p (some (word_bytes 8 1))) fd p rd_wr 8 whole fuel buffer
            (put_file_self p _ v.files) refl sl (omega arith))

    held-store_write :
        (buffer : Bytes) (size : ℕ)
        → 0 < size
        → size ≤ block_size
        → size ≤ length buffer
        → Runs law signals
            (store_write os fuel fd buffer size)
            (holding (stored v p (some [])) fd p rd_wr 0)
            (pos size)
            (stored v p (some (block_file 1 (take size buffer))))
    unfolding store_write
    held-store_write buffer size sl le fits =
        let len : length (take size buffer) ≡ size = omega (arith, length-take size buffer) in
        let int_size : to_int (pos size) ≡ pos size = to_int-pos size (omega arith) in
        let size_size : to_size (pos size) ≡ size = to_size-pos size (omega arith) in
        Runs-bind _ held-write_counter (
          rw counter_fits (
            Runs-bind _
              (Runs-cast (ap pos len) refl
                (held-write_data (take size buffer) (omega arith) (omega arith)))
              (rw (int_size, size_size, ==_refl size)
                (Runs-bind _ (held-lock law _ fd p rd_wr _ _ _) (
                  Runs-seq (held-close law _ fd p rd_wr _)
                    (Runs-cast int_size refl (Runs-pure _ _)))))))

    held-load_read :
        (refs : ℕ) (buffer : Bytes)
        → v.files p ≡ some (block_file refs buffer)
        → 0 < length buffer
        → Runs law signals (load_read os fuel fd) (holding v fd p rd_only 0) (loaded refs buffer) v
    unfolding load_read loaded ◌+ℤ◌
    held-load_read refs buffer h sl =
        Runs-seq
          (held-s_lseek law v fd p rd_only 0 fuel (pos 0) seek_set 0 h refl (omega arith)
            (omega arith))
          (Runs-bind _
            (held-read_refs law whole fuel (omega arith) v fd p 0 refs buffer h rd_only refl)
            (Runs-seq
              (held-s_lseek law v fd p rd_only 8 fuel (pos 8) seek_set 8 h refl (omega arith)
                (omega arith))
              (Runs-bind _ read_data (
                rw some_data (
                  Runs-bind _ (held-lock law v fd p rd_only _ _ _) (
                    Runs-seq (held-close law v fd p rd_only _)
                      (Runs-cast sized refl (Runs-pure _ _))))))))
      where
        len : length (take block_size buffer) ≡ min block_size (length buffer)
        len = length-take block_size buffer

        some_data : ltb 0 (length (take block_size buffer)) ≡ true
        some_data = lt→ltb 0 _ (omega (arith, len))

        size_size :
            to_size (pos (length (take block_size buffer))) ≡ length (take block_size buffer)
        size_size = to_size-pos _ (omega (arith, len))

        sized :
            record {
              ret = pos 0;
              bytes = take block_size buffer;
              size = some (to_size (pos (length (take block_size buffer))));
              refs = word_bytes ref_size refs;
            }
            ≡ loaded refs buffer
        sized = λ i. record {
          ret = pos 0;
          bytes = take block_size buffer;
          size = some (size_size i);
          refs = word_bytes ref_size refs;
        }

        bytes_read : take block_size (drop 8 (block_file refs buffer)) ≡ take block_size buffer
        bytes_read =
            unfold block_file in
            ap (take block_size)
              (drop-append 8 (word_bytes 8 refs) buffer (length-word_bytes 8 refs))

        read_data :
            Runs law signals
              (s_read os fuel (pos fd) block_size)
              (holding v fd p rd_only 8)
              (pos (length (take block_size buffer)), take block_size buffer)
              (holding v fd p rd_only (8 + length (take block_size buffer)))
        read_data =
            Runs-cast (ap (λ t. (pos (length t), t)) bytes_read)
              (ap (λ t. holding v fd p rd_only (8 + length t)) bytes_read)
              (held-s_read law v fd p rd_only 8 fuel block_size h refl enough)

  module _ (storage : BlkStore) (hash : Bytes) (v : View)
      (usable : law.usable (block_path storage hash) ≡ true) where
    -- A block that is not there yet is stored with one reference.
    pub Runs-store_block_new :
        (buffer : Bytes) (size : ℕ)
        → v.files (block_path storage hash) ≡ none
        → 0 < size
        → size ≤ block_size
        → size ≤ length buffer
        → Runs law signals
            (store_block os fuel storage buffer size hash)
            v
            (pos size)
            (stored v (block_path storage hash) (some (block_file 1 (take size buffer))))
    unfolding store_block
    Runs-store_block_new buffer size h sl le fits =
        Runs-bind _ (Runs-cast (ap is_some h) refl (Runs-file_exists law v _ usable)) (
          Runs-bind _
            (Runs-open_creating law v _ read_write_create 384
              (law.usable_creatable (block_path storage hash) 384 usable refl) h refl)
            (Runs-bind _
              (held-lock law (stored v (block_path storage hash) (some [])) (law.fresh v) _ rd_wr 0
                _ _)
              (held-store_write v (law.fresh v) _ buffer size sl le fits)))

    -- A block whose name is taken is not written again.
    pub Runs-store_block_known :
        (buffer : Bytes) (size : ℕ) {c : Bytes}
        → v.files (block_path storage hash) ≡ some c
        → Runs law signals (store_block os fuel storage buffer size hash) v (pos 0) v
    unfolding store_block
    Runs-store_block_known buffer size h =
        Runs-bind _ (Runs-cast (ap is_some h) refl (Runs-file_exists law v _ usable))
          (Runs-pure _ _)

    pub Runs-load_block :
        (refs : ℕ) (buffer : Bytes)
        → v.files (block_path storage hash) ≡ some (block_file refs buffer)
        → 0 < length buffer
        → Runs law signals (load_block os fuel storage hash) v (loaded refs buffer) v
    unfolding load_block
    Runs-load_block refs buffer h sl =
        Runs-bind _ (Runs-cast (ap is_some h) refl (Runs-file_exists law v _ usable)) (
          Runs-bind _ (Runs-open_existing law v _ read_only 0 usable h refl) (
            Runs-bind _ (held-lock law v (law.fresh v) _ rd_only 0 _ _)
              (held-load_read v (law.fresh v) _ refs buffer h sl)))

    pub Runs-load_block_missing :
        v.files (block_path storage hash) ≡ none
        → Runs law signals (load_block os fuel storage hash) v (nothing_loaded (negsuc 16)) v
    unfolding load_block
    Runs-load_block_missing h =
        Runs-bind _ (Runs-cast (ap is_some h) refl (Runs-file_exists law v _ usable))
          (Runs-pure _ _)

    -- The size that is returned counts the reference counter too.
    pub Runs-block_get_size :
        (refs : ℕ) (buffer : Bytes)
        → v.files (block_path storage hash) ≡ some (block_file refs buffer)
        → 8 + length buffer < 2 ^ 31
        → Runs law signals (block_get_size os fuel storage hash) v (pos (8 + length buffer)) v
    unfolding block_get_size ◌+ℤ◌
    Runs-block_get_size refs buffer h small =
        let len : length (block_file refs buffer) ≡ 8 + length buffer =
          length-block_file refs buffer in
        let fd = law.fresh v in
        Runs-bind _ (Runs-open_existing law v _ read_only 0 usable h refl) (
          Runs-bind _ (held-lock law v fd _ rd_only 0 _ _) (
            Runs-seq
              (held-s_lseek law v fd _ rd_only 0 fuel (pos 8) seek_set 8 h refl (omega arith)
                (omega arith))
              (Runs-bind _
                (held-s_lseek law v fd _ rd_only 8 fuel (pos 0) seek_end (8 + length buffer) h
                  (ground (arith, len)) small (omega arith))
                (Runs-bind _ (held-lock law v fd _ rd_only _ _ _)
                  (Runs-seq (held-close law v fd _ rd_only _) (Runs-pure _ _))))))
