-- ===== src/Io/Seek.antt =====
-- `s_lseek` and `file_exists` of cfs/src/io.c.
use fusefs_block.Base.{
  ℕ, zero, suc, ◌^◌, ◌<◌, ◌≡◌, refl, some, ℤ, pos, ◌+ℤ◌, to_int-pos, length, Bytes, CString,
  is_some, true, arith,
}
use fusefs_block.Posix.{Posix, Whence}
use fusefs_block.Posix.View.{View, Descriptor, find_fd, moved}
use fusefs_block.Posix.Laws.{IsPosix, base}
use fusefs_block.Posix.Runs.{Runs, Runs-pure, Runs-bind, Runs-cast}
use fusefs_block.Posix.Calls.{Runs-seek, Runs-access}
use fusefs_block.Io.{s_lseek, file_exists}

module _ {os : Posix} (law : IsPosix os) {signals : ℕ} where
  -- The new offset is the result, as long as it fits an `int`.
  pub Runs-s_lseek :
      (fuel : ℕ) (v : View) (fd : ℕ) (z : ℤ) (whence : Whence) (n : ℕ) (d : Descriptor)
      (p : CString) (c : Bytes)
      → find_fd fd v.descriptors ≡ some d
      → d.file ≡ some p
      → v.files p ≡ some c
      → pos (base whence d.offset (length c)) +ℤ z ≡ pos n
      → n < 2 ^ 31
      → 0 < fuel
      → Runs law signals (s_lseek os fuel (pos fd) z whence) v (pos n) (moved v fd n)
  unfolding s_lseek
  Runs-s_lseek zero v fd z whence n d p c hd hp hc x fits f = absurd (omega arith)
  Runs-s_lseek (suc fuel) v fd z whence n d p c hd hp hc x fits f =
      Runs-cast (to_int-pos n fits) refl
        (Runs-bind _ (Runs-seek law v fd z whence n hd hp hc x) (Runs-pure _ _))

  pub Runs-file_exists :
      (v : View) (p : CString)
      → law.usable p ≡ true
      → Runs law signals (file_exists os p) v (is_some (v.files p)) v
  unfolding file_exists
  Runs-file_exists v p u = Runs-access law v p u
