-- ===== src/Cfs/Create.antt =====
-- What `cfs_create_file` and `cfs_file_stat` of cfs/src/cfs.c promise each other.
use fusefs_block.Base.{
  ℕ, ◌+◌, ◌<◌, ◌≤◌, ◌≡◌, refl, ap, ◌∙◌, true, none, some, arith, [], ◌∷◌, ◌++◌, ℤ, pos, int_or,
  to_int, to_size, length, length-take, length-drop, take, drop, of_word, word_bytes, word_value,
  bytes_eq, Bytes, CString,
}
use fusefs_block.Posix.{Posix, M, rd_only, wr_only, ◌>>=◌, ◌>>◌}
use fusefs_block.Posix.View.{View, moved, stored, put_file, put_file_self, put_file-put_file}
use fusefs_block.Posix.Overwrite.{overwrite_end}
use fusefs_block.Posix.Laws.{IsPosix, owner_rw}
use fusefs_block.Posix.Runs.{Ends, Runs, Runs-pure, Runs-bind, Runs-seq, Runs-cast}
use fusefs_block.Posix.Calls.{Runs-open_creating, Runs-open_existing}
use fusefs_block.Io.{s_write, s_read}
use fusefs_block.Io.Write.{written, s_write_all}
use fusefs_block.Io.Held.{holding, at_offset, find_held, moved_held, held-s_read}
use fusefs_block.Storage.{read_only}
use fusefs_block.Cfs.{CfsFile, Garbage, magic, magic_size, off_size, off_bytes, overlay, c_string}
use fusefs_block.Cfs.File.{cfs_create_file, cfs_file_stat, create_exclusive, magic_text}
use fusefs_block.Cfs.Header.{size_field, blocks_field, length-size_field, length-blocks_field}
use fusefs_block.Cfs.Register.{put_off-whole}

module _ {os : Posix} (law : IsPosix os) {signals : ℕ} (v : View) (fd : ℕ) (p : CString) where
  -- A write at the end of a file that has been opened for writing, before other calls.
  held-append :
      {B : Type 0} {k : M os.State B} {b : B} {x : View} (fuel o : ℕ) (c bs : Bytes)
      → o ≡ length c
      → 0 < length bs
      → length bs + signals < fuel
      → Runs law signals k (holding (stored v p (some (c ++ bs))) fd p wr_only (o + length bs)) b x
      → Runs law signals
          (s_write os fuel (pos fd) bs >> k)
          (holding (stored v p (some c)) fd p wr_only o)
          b
          x
  unfolding ◌>>◌ ◌>>=◌
  held-append {B} {k} {b} {x} fuel o c bs at_end some_bytes enough r = record {
    from = λ s e calm.
        let w =
          s_write_all law fuel fd bs (holding (stored v p (some c)) fd p wr_only o)
            (at_offset p wr_only o) p c s (find_held (stored v p (some c)) fd p wr_only o) refl refl
            (put_file_self p (some c) v.files) e calm some_bytes enough in
        let q = r.from w.ends.after (w.ends.shows ∙ reached) w.ends.calm in
        record {
          after = q.after;
          returns = rw (w.ends.returns, ◌>>◌, ◌>>=◌) q.returns;
          shows = q.shows;
          calm = q.calm;
        };
  }
    where
      reached :
          written (holding (stored v p (some c)) fd p wr_only o) fd (at_offset p wr_only o) p c bs
          ≡ holding (stored v p (some (c ++ bs))) fd p wr_only (o + length bs)
      reached =
          ap (λ f. moved (holding (record v { files = f }) fd p wr_only o) fd (o + length bs))
            (put_file-put_file p _ _ v.files
              ∙ ap (λ t. put_file p (some t) v.files) (overwrite_end c o bs at_end))
          ∙ moved_held (stored v p (some (c ++ bs))) fd p wr_only o (o + length bs)

-- The header of a new file: the magic string with its terminator, and twice the number 0.
unfoldable pub new_header : Bytes
new_header = (magic ++ (0 ∷ [])) ++ off_bytes (pos 0) ++ off_bytes (pos 0)

-- A file that begins as CFS files do, with room for the two numbers.
pub record HasMagic (c : Bytes) : Type 0 where
  pub magic_first : take 7 c ≡ magic ++ (0 ∷ [])
  pub long : 23 ≤ length c

module _ {os : Posix} (law : IsPosix os) {signals : ℕ} (fuel : ℕ) (v : View) (p : CString) where
  pub Runs-cfs_create_file :
      (mode : ℕ)
      → law.creatable p mode ≡ true
      → v.files p ≡ none
      → 8 + signals < fuel
      → Runs law signals
          (cfs_create_file os fuel p mode)
          v
          (pos (law.fresh v))
          (holding (stored v p (some new_header)) (law.fresh v) p wr_only 23)
  unfolding cfs_create_file new_header off_bytes word_bytes to_size
  Runs-cfs_create_file mode creatable absent enough =
      let fd = law.fresh v in
      Runs-bind _ (Runs-open_creating law v p create_exclusive mode creatable absent refl) (
        held-append law v fd p fuel 0 [] (magic ++ (0 ∷ [])) refl (omega arith) (omega arith) (
          held-append law v fd p fuel 7 _ (off_bytes (pos 0)) refl (omega arith) (omega arith) (
            held-append law v fd p fuel 15 _ (off_bytes (pos 0)) refl (omega arith) (omega arith)
              (Runs-pure _ _))))

module _ {os : Posix} (law : IsPosix os) {signals : ℕ} (fuel : ℕ) (v : View) (p : CString)
    (usable : law.usable p ≡ true) where
  pub Runs-cfs_file_stat :
      (garbage : Garbage) (stat_buf : CfsFile) (c : Bytes)
      → v.files p ≡ some c
      → HasMagic c
      → 8 + signals < fuel
      → Runs law signals
          (cfs_file_stat os fuel garbage p stat_buf)
          v
          (
            pos 8,
            record stat_buf {
              size = of_word 64 (word_value (size_field c));
              total_blocks = of_word 64 (word_value (blocks_field c));
            },
          )
          (holding v (law.fresh v) p rd_only 23)
  unfolding cfs_file_stat to_size to_int int_or bytes_eq magic_text overlay c_string
  Runs-cfs_file_stat garbage stat_buf c h has enough =
      let fd = law.fresh v in
      Runs-bind _ (Runs-open_existing law v p read_only 0 usable h refl) (
        Runs-bind _ (held-read_magic fd) (
          Runs-bind _ (held-read_field fd 7 (omega arith)) (
            Runs-bind _ (held-read_field fd 15 (omega arith)) (
              Runs-cast
                (λ i. (
                  pos 8,
                  record stat_buf {
                    size =
                        put_off-whole stat_buf.size (size_field c) (length-size_field c has.long) i;
                    total_blocks =
                        put_off-whole stat_buf.total_blocks (blocks_field c)
                          (length-blocks_field c has.long) i;
                  },
                ))
                refl (Runs-pure _ _)))))
    where
      held-read_magic :
          (fd : ℕ)
          → Runs law signals
              (s_read os fuel (pos fd) magic_size)
              (holding v fd p rd_only 0)
              (pos 7, magic ++ (0 ∷ []))
              (holding v fd p rd_only 7)
      held-read_magic fd =
          Runs-cast (ap (λ t. (pos (length t), t)) has.magic_first)
            (ap (λ t. holding v fd p rd_only (0 + length t)) has.magic_first)
            (held-s_read law v fd p rd_only 0 fuel 7 h refl (omega arith))

      held-read_field :
          (fd o : ℕ)
          → o + 8 ≤ length c
          → Runs law signals
              (s_read os fuel (pos fd) off_size)
              (holding v fd p rd_only o)
              (pos 8, take 8 (drop o c))
              (holding v fd p rd_only (o + 8))
      held-read_field fd o within =
          let len : length (take 8 (drop o c)) ≡ 8 =
            omega (arith, length-take 8 (drop o c), length-drop o c) in
          Runs-cast (ap (λ n. (pos n, take 8 (drop o c))) len)
            (ap (λ n. holding v fd p rd_only (o + n)) len)
            (held-s_read law v fd p rd_only o fuel 8 h refl enough)

pub new_header-HasMagic : HasMagic new_header
unfolding new_header off_bytes word_bytes to_size
new_header-HasMagic = record { magic_first = refl; long = omega arith }

-- Both numbers of a new file are 0.
pub new_header_zeros :
    let numbers : ℤ × ℤ = (
      of_word 64 (word_value (size_field new_header)),
      of_word 64 (word_value (blocks_field new_header)),
    ) in
    numbers ≡ (pos 0, pos 0)
unfolding new_header off_bytes word_bytes to_size word_value
new_header_zeros = refl

-- A file that `cfs_create_file` makes, where there was none, is a CFS file of size 0 without
-- blocks to `cfs_file_stat`, whose result is 8, whatever short writes and reads and
-- interruptions happen. Afterwards the new file is the only one that changed. Two more
-- descriptors are open: the one that `cfs_create_file` returns to its caller, and one of
-- `cfs_file_stat`, which nothing returns. The mode lets the owner read and write; the path is in
-- a directory that the process may change, and a file there may be opened for reading; and the
-- fuel is above 8 and the pending signals together.
pub stat-create :
    {os : Posix} (law : IsPosix os) (signals fuel : ℕ) (s : os.State) (path : CString) (mode : ℕ)
    (garbage : Garbage) (stat_buf : CfsFile)
    → law.usable path ≡ true
    → owner_rw mode ≡ true
    → (law.view s).files path ≡ none
    → law.pending s ≤ signals
    → 8 + signals < fuel
    → let created : View =
        holding
          (stored (law.view s) path (some new_header))
          (law.fresh (law.view s))
          path
          wr_only
          23 in
      Ends law signals
        (cfs_create_file os fuel path mode >> cfs_file_stat os fuel garbage path stat_buf)
        s
        (pos 8, record stat_buf { size = pos 0; total_blocks = pos 0 })
        (holding created (law.fresh created) path rd_only 23)
stat-create law signals fuel s path mode garbage stat_buf usable owner absent calm enough =
    (Runs-seq
        (Runs-cfs_create_file law fuel (law.view s) path mode
          (law.usable_creatable path mode usable owner) absent enough)
        (Runs-cast
          (ap (λ (z : ℤ × ℤ). (pos 8, record stat_buf { size = z.0; total_blocks = z.1 }))
            new_header_zeros)
          refl
          (Runs-cfs_file_stat law fuel _ path usable garbage stat_buf new_header
            (put_file_self _ _ _) new_header-HasMagic enough))).from
      s refl calm
