-- ===== src/Fuse/Made.antt =====
-- Making and opening a file, in cfs/src/bbfs.c.
use fusefs_block.Base.{
  ℕ, ◌+◌, ◌^◌, ◌≤◌, ◌<◌, ◌≡◌, refl, sym, ap, ◌∙◌, true, none, some, arith, [], to_size, word_bytes,
  ℤ, pos, length, Bytes, CString,
}
use fusefs_block.Posix.{Posix, Sys, rd_wr, rd_only, ◌>>◌}
use fusefs_block.Posix.View.{View, stored, put_file_self}
use fusefs_block.Posix.Laws.{IsPosix, owner_rw}
use fusefs_block.Posix.Runs.{Ends, Runs, Runs-pure, Runs-bind, Runs-seq, Runs-cast}
use fusefs_block.Posix.Calls.{Runs-open_existing}
use fusefs_block.Log.{log_syscall}
use fusefs_block.Io.Held.{at_offset, holding, find_held, moved_held, held-close}
use fusefs_block.Storage.{block_size, read_write}
use fusefs_block.Cfs.{CfsFile, CfsState, Garbage, off_bytes}
use fusefs_block.Cfs.Table.{cfs_get_file}
use fusefs_block.Cfs.Invariant.{IsTable}
use fusefs_block.Cfs.Create.{
  new_header, new_header_zeros, new_header-HasMagic, Runs-cfs_create_file, Runs-cfs_file_stat,
}
use fusefs_block.Cfs.Register.{Registered, Runs-cfs_register_file}
use fusefs_block.Cfs.Image.{Image, image_bytes}
use fusefs_block.Cfs.Pairs.{pairs_bytes}
use fusefs_block.Cfs.Search.{Shows}
use fusefs_block.Fuse.{bb_fullpath, bb_mknod, regular, bb_open, bb_getattr, Stat}

-- A new file has the size 0 and no pairs.
abbrev pub new_image : Image
new_image = record { size = pos 0; pairs = [] }

pub new_header-image : new_header ≡ image_bytes new_image
unfolding new_header image_bytes pairs_bytes off_bytes word_bytes to_size
new_header-image = refl

-- The entry of a new file shows this image.
pub registered-Shows :
    (before after : CfsState) (p : CString) (fd : ℕ) (file : CfsFile)
    → Registered before after p fd new_header
    → cfs_get_file after (pos fd) ≡ some file
    → Shows file fd new_image
registered-Shows before after p fd file registered found =
    let (f, f_found, header) = registered.header in
    let (g, g_found, entry) = registered.claimed.entered in
    let f_same : f ≡ file = some_inj f file (sym f_found ∙ found) in
    let g_same : g ≡ file = some_inj g file (sym g_found ∙ found) in
    record {
      fd_same = ap (λ (t : CfsFile). t.fd) (sym g_same) ∙ entry.fd_same;
      size_same =
          ap (λ (t : CfsFile). t.size) (sym f_same)
          ∙ header.size_same
          ∙ ap (λ (z : ℤ × ℤ). z.0) new_header_zeros;
      blocks_same =
          ap (λ (t : CfsFile). t.total_blocks) (sym f_same)
          ∙ header.blocks_same
          ∙ ap (λ (z : ℤ × ℤ). z.1) new_header_zeros;
      pairs_fit = tt;
      small = omega arith;
    }
  where
    some_inj : (a b : CfsFile) → some a ≡ some b → a ≡ b
    some_inj a b e = cc

module _ {os : Posix} (law : IsPosix os) {signals : ℕ} (fuel : ℕ) (garbage : Garbage)
    (rootdir path : CString) (v : View) where
  pub Runs-bb_mknod :
      (mode : ℕ) (mkfifo mknod : Sys ℕ)
      → law.creatable (bb_fullpath rootdir path) mode ≡ true
      → v.files (bb_fullpath rootdir path) ≡ none
      → 8 + signals < fuel
      → Runs law signals
          (bb_mknod os fuel garbage rootdir path regular mode mkfifo mknod)
          v
          (pos 0)
          (stored v (bb_fullpath rootdir path) (some new_header))
  unfolding bb_mknod log_syscall
  Runs-bb_mknod mode mkfifo mknod creatable absent enough =
      Runs-bind _
        (Runs-cfs_create_file law fuel v (bb_fullpath rootdir path) mode creatable absent enough)
        (Runs-bind _ (held-close law _ _ _ _ 23) (Runs-pure _ _))

module _ {os : Posix} (law : IsPosix os) {signals : ℕ} (fuel : ℕ) (garbage : Garbage)
    (rootdir path : CString) (v : View)
    (usable : law.usable (bb_fullpath rootdir path) ≡ true) where
  pub Runs-bb_open :
      (state : CfsState) (c : Bytes)
      → v.files (bb_fullpath rootdir path) ≡ some c
      → IsTable state
      → state.fds_cap < 2 ^ 63
      → cfs_get_file state (pos (law.fresh v)) ≡ none
      → 23 ≤ length c
      → 8 + signals < fuel
      → (after : CfsState) × Runs law signals
          (bb_open os fuel garbage rootdir state path)
          v
          (record { retstat = pos 0; fh = pos (law.fresh v); state = after })
          (holding v (law.fresh v) (bb_fullpath rootdir path) rd_wr 23)
        × Registered state after (bb_fullpath rootdir path) (law.fresh v) c
  unfolding bb_open
  Runs-bb_open state c holds table room absent long enough =
      let fd : ℕ = law.fresh v in
      let p : CString = bb_fullpath rootdir path in
      let (after, run, registered) =
        Runs-cfs_register_file law signals fuel garbage state p fd (holding v fd p rd_wr 0)
          (at_offset p rd_wr 0) p c table room absent (find_held v fd p rd_wr 0) refl refl holds
          long enough in
      (
        after,
        Runs-bind _ (Runs-open_existing law v p read_write 0 usable holds refl)
            (Runs-bind _ (Runs-cast refl (moved_held v fd p rd_wr 0 23) run) (Runs-pure _ _)),
        registered,
      )

module _ {os : Posix} (law : IsPosix os) (signals fuel : ℕ) (enough : 8 + signals < fuel)
    (garbage : Garbage) (rootdir path : CString) (mode : ℕ) (mkfifo mknod : Sys ℕ)
    (lstat_result : Sys ℕ) (statbuf : Stat) (usable : law.usable (bb_fullpath rootdir path) ≡ true)
    (owner : owner_rw mode ≡ true) where
  -- After `bb_mknod` for a regular file on a path without a file, `bb_getattr` reports the size
  -- 0 and 0 blocks of 4096 bytes, and the result of `lstat`. The file has the header of a new
  -- file. One descriptor is open that was not: `bb_getattr` leaves it behind. The mode lets the
  -- owner read and write; the path is in a directory that the process may change, and a file
  -- there may be opened for reading; and the fuel is above 8 and the pending signals together.
  pub bb_getattr-bb_mknod :
      (s : os.State)
      → (law.view s).files (bb_fullpath rootdir path) ≡ none
      → law.pending s ≤ signals
      → let made : View = stored (law.view s) (bb_fullpath rootdir path) (some new_header) in
        Ends law signals
          (bb_mknod os fuel garbage rootdir path regular mode mkfifo mknod
            >> bb_getattr os fuel garbage rootdir path lstat_result statbuf)
          s
          (
            log_syscall lstat_result,
            record { st_size = pos 0; st_blksize = pos block_size; st_blocks = pos 0 },
          )
          (holding made (law.fresh made) (bb_fullpath rootdir path) rd_only 23)
  unfolding bb_getattr
  bb_getattr-bb_mknod s absent calm =
      (Runs-seq
          (Runs-bb_mknod law fuel garbage rootdir path (law.view s) mode mkfifo mknod
            (law.usable_creatable (bb_fullpath rootdir path) mode usable owner) absent enough)
          (Runs-bind _
            (Runs-cfs_file_stat law fuel _ (bb_fullpath rootdir path) usable garbage garbage.file
              new_header (put_file_self _ _ _) new_header-HasMagic enough)
            (Runs-cast
              (ap
                (λ (z : ℤ × ℤ). (
                  log_syscall lstat_result,
                  record { st_size = z.0; st_blksize = pos block_size; st_blocks = z.1 },
                ))
                new_header_zeros)
              refl (Runs-pure _ _)))).from
        s refl calm
