-- ===== src/Io/Opened.antt =====
-- The functions of cfs/src/io.c on a file that is open at some place among the descriptors. The
-- views are those in which the file holds given bytes and its descriptor stands at an offset.
use fusefs_block.Base.{
  ℕ, ◌+◌, ◌<◌, ◌^◌, ◌≡◌, refl, sym, ap, ◌∙◌, true, some, ℤ, pos, ◌+ℤ◌, length, take, drop, Bytes,
  CString,
}
use mathlib.Core.Path.{subst}
use fusefs_block.Posix.{Posix, M, Whence}
use fusefs_block.Posix.View.{
  View, Descriptor, find_fd, find_fd-seek_fd, can_read, can_write, overwrite, moved, moved-moved,
  moved_same, stored, put_file, put_file_self, put_file-put_file, put_file_same,
}
use fusefs_block.Posix.Laws.{IsPosix, base}
use fusefs_block.Posix.Runs.{Runs, Runs-cast}
use fusefs_block.Io.{s_lseek, s_read, s_write}
use fusefs_block.Io.Read.{Runs-s_read}
use fusefs_block.Io.Write.{IsWhole, Runs-s_write}
use fusefs_block.Io.Seek.{Runs-s_lseek}

abbrev pub at_file : View → ℕ → CString → Bytes → ℕ → View
at_file v fd p c o = moved (stored v p (some c)) fd o

-- The file at `p` is open for reading and writing under `fd`.
pub record IsOpened (v : View) (fd : ℕ) (p : CString) (d : Descriptor) : Type 0 where
  pub found : find_fd fd v.descriptors ≡ some d
  pub path_same : d.file ≡ some p
  pub reads : can_read d.access ≡ true
  pub writes : can_write d.access ≡ true

-- A view is one of these, for what the file holds and where its descriptor stands.
pub at_file_same :
    (v : View) (fd : ℕ) (p : CString) (d : Descriptor) (c : Bytes)
    → IsOpened v fd p d
    → v.files p ≡ some c
    → at_file v fd p c d.offset ≡ v
at_file_same v fd p d c is h =
    ap (λ f. moved (record v { files = f }) fd d.offset)
      (ap (λ t. put_file p t v.files) (sym h) ∙ put_file_same p v.files)
    ∙ moved_same v fd d is.found

pub found_at :
    (v : View) (fd : ℕ) (p : CString) (d : Descriptor)
    → IsOpened v fd p d
    → (c : Bytes) (o : ℕ)
    → find_fd fd (at_file v fd p c o).descriptors ≡ some (record d { offset = o })
found_at v fd p d is c o = find_fd-seek_fd fd o v.descriptors d is.found

module _ {os : Posix} (law : IsPosix os) {signals : ℕ} (v : View) (fd : ℕ) (p : CString)
    (d : Descriptor) (is : IsOpened v fd p d) where
  pub opened-s_lseek :
      (fuel : ℕ) (c : Bytes) (o : ℕ) (z : ℤ) (whence : Whence) (n : ℕ)
      → pos (base whence o (length c)) +ℤ z ≡ pos n
      → n < 2 ^ 31
      → 0 < fuel
      → Runs law signals
          (s_lseek os fuel (pos fd) z whence)
          (at_file v fd p c o)
          (pos n)
          (at_file v fd p c n)
  opened-s_lseek fuel c o z whence n x fits f =
      Runs-cast refl (moved-moved (stored v p (some c)) fd o n) (
        Runs-s_lseek law fuel (at_file v fd p c o) fd z whence n (record d { offset = o }) p c
          (found_at v fd p d is c o) is.path_same (put_file_self p _ v.files) x fits f)

  pub opened-s_read :
      (fuel : ℕ) (c : Bytes) (o n : ℕ)
      → n + signals < fuel
      → Runs law signals
          (s_read os fuel (pos fd) n)
          (at_file v fd p c o)
          (pos (length (take n (drop o c))), take n (drop o c))
          (at_file v fd p c (o + length (take n (drop o c))))
  opened-s_read fuel c o n f = Runs-cast refl (moved-moved (stored v p (some c)) fd o _) (
      Runs-s_read law signals fd p c fuel n (at_file v fd p c o) (record d { offset = o })
        (found_at v fd p d is c o) is.path_same is.reads (put_file_self p _ v.files) f)

  pub opened-s_write :
      IsWhole os
      → (fuel : ℕ) (c : Bytes) (o : ℕ) (bs c' : Bytes) (o' : ℕ) → overwrite c o bs ≡ c'
      → o + length bs ≡ o'
      → 0 < length bs
      → length bs + signals < fuel
      → Runs law signals
          (s_write os fuel (pos fd) bs)
          (at_file v fd p c o)
          (pos (length bs))
          (at_file v fd p c' o')
  opened-s_write whole fuel c o bs c' o' over reach sl f =
      Runs-cast refl
        (moved-moved (stored (stored v p (some c)) p (some (overwrite c o bs))) fd o _
          ∙ ap (λ f. moved (record v { files = f }) fd (o + length bs))
              (put_file-put_file p _ _ v.files)
          ∙ (λ i. at_file v fd p (over i) (reach i)))
        (Runs-s_write law whole fuel fd bs (at_file v fd p c o) (record d { offset = o }) p c
          (found_at v fd p d is c o) is.path_same is.writes (put_file_self p _ v.files) sl f)

-- A computation on a value that is known by an equation.
pub Runs-arg :
    {os : Posix} {law : IsPosix os} {signals : ℕ} {A B : Type 0} (m : B → M os.State A) {z z' : B}
    {v w : View} {a : A}
    → z ≡ z'
    → Runs law signals (m z') v a w
    → Runs law signals (m z) v a w
Runs-arg {law} {signals} m {v} {w} {a} e r = subst (λ y. Runs law signals (m y) v a w) (sym e) r

-- A computation from a view that is known by an equation.
pub Runs-view :
    {os : Posix} {law : IsPosix os} {signals : ℕ} {A : Type 0} {m : M os.State A} {v v' w : View}
    {a : A}
    → v ≡ v'
    → Runs law signals m v a w
    → Runs law signals m v' a w
Runs-view {law} {signals} {m} {w} {a} e r = subst (λ z. Runs law signals m z a w) e r
