-- ===== src/Io/Held.antt =====
-- The functions of cfs/src/io.c on a file that the program has just opened. Its descriptor
-- stands in front of all others.
use fusefs_block.Base.{
  ℕ, ◌+◌, ◌<◌, ◌^◌, ◌≡◌, refl, true, some, ◌∷◌, ==_refl, ℤ, pos, ◌+ℤ◌, length, take, drop, Bytes,
  CString,
}
use fusefs_block.Posix.{Posix, ok, Access, LockCommand, Flock, Whence, call}
use fusefs_block.Posix.View.{
  View, Descriptor, find_fd, seek_fd, drop_fd, overwrite, can_read, can_write, moved, closed,
  stored,
}
use fusefs_block.Posix.Laws.{IsPosix, base}
use fusefs_block.Posix.Runs.{Runs, Runs-cast}
use fusefs_block.Posix.Calls.{Runs-close, Runs-lock}
use fusefs_block.Io.{s_lseek, s_read, s_write}
use fusefs_block.Io.Read.{Runs-s_read}
use fusefs_block.Io.Write.{IsWhole, Runs-s_write}
use fusefs_block.Io.Seek.{Runs-s_lseek}

abbrev pub at_offset : CString → Access → ℕ → Descriptor
at_offset p a o = record { file = some p; offset = o; access = a }

-- The view with one more descriptor.
abbrev pub holding : View → ℕ → CString → Access → ℕ → View
holding v fd p a o = record v { descriptors = (fd, at_offset p a o) ∷ v.descriptors }

module _ (v : View) (fd : ℕ) (p : CString) (a : Access) (o : ℕ) where
  pub find_held : find_fd fd (holding v fd p a o).descriptors ≡ some (at_offset p a o)
  unfolding find_fd
  find_held = rw (==_refl fd)

  pub moved_held : (o' : ℕ) → moved (holding v fd p a o) fd o' ≡ holding v fd p a o'
  unfolding seek_fd
  moved_held o' = rw (==_refl fd)

  pub closed_held : closed (holding v fd p a o) fd ≡ v
  unfolding drop_fd
  closed_held = rw (==_refl fd)

module _ {os : Posix} (law : IsPosix os) {signals : ℕ} (v : View) (fd : ℕ) (p : CString)
    (a : Access) (o : ℕ) where
  pub held-close : Runs law signals (call (os.close_file (pos fd))) (holding v fd p a o) (ok 0) v
  held-close = Runs-cast refl (closed_held v fd p a o) (Runs-close law _ fd (find_held v fd p a o))

  pub held-lock :
      (command : LockCommand) (fl : Flock)
      → Runs law signals
          (call (os.lock_file (pos fd) command fl))
          (holding v fd p a o)
          (ok 0)
          (holding v fd p a o)
  held-lock command fl = Runs-lock law _ fd command fl (find_held v fd p a o)

  pub held-s_lseek :
      (fuel : ℕ) (z : ℤ) (whence : Whence) (n : ℕ) {c : Bytes}
      → v.files p ≡ some c
      → pos (base whence o (length c)) +ℤ z ≡ pos n
      → n < 2 ^ 31
      → 0 < fuel
      → Runs law signals
          (s_lseek os fuel (pos fd) z whence)
          (holding v fd p a o)
          (pos n)
          (holding v fd p a n)
  held-s_lseek fuel z whence n {c} h x fits f = Runs-cast refl (moved_held v fd p a o n) (
      Runs-s_lseek law fuel _ fd z whence n (at_offset p a o) p c (find_held v fd p a o) refl h x
        fits f)

  pub held-s_read :
      (fuel n : ℕ) {c : Bytes}
      → v.files p ≡ some c
      → can_read a ≡ true
      → n + signals < fuel
      → let bs = take n (drop o c) in
        Runs law signals
          (s_read os fuel (pos fd) n)
          (holding v fd p a o)
          (pos (length bs), bs)
          (holding v fd p a (o + length bs))
  held-s_read fuel n {c} h r f =
      Runs-cast refl (moved_held v fd p a o _) (
        Runs-s_read law signals fd p c fuel n _ (at_offset p a o) (find_held v fd p a o) refl r h f)

  pub held-s_write :
      IsWhole os
      → (fuel : ℕ) (bs : Bytes) {c : Bytes} → v.files p ≡ some c
      → can_write a ≡ true
      → 0 < length bs
      → length bs + signals < fuel
      → Runs law signals
          (s_write os fuel (pos fd) bs)
          (holding v fd p a o)
          (pos (length bs))
          (holding (stored v p (some (overwrite c o bs))) fd p a (o + length bs))
  held-s_write whole fuel bs {c} h w sl f =
      Runs-cast refl (moved_held (stored v p (some (overwrite c o bs))) fd p a o _) (
        Runs-s_write law whole fuel fd bs _ (at_offset p a o) p c (find_held v fd p a o) refl w h sl
          f)
