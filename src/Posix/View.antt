-- ===== src/Posix/View.antt =====
-- What can be observed of the system: the contents of the regular files by path, and the open
-- descriptors. The calls' documented effects are functions on views.
use fusefs_block.Base.{
  ℕ, zero, suc, ◌≡◌, refl, ap, ◌≢◌, Bool, true, false, Option, none, some, List, [], ◌∷◌, arith,
  ◌==◌, if◌then◌else◌, Bytes, CString, bytes_eq, bytes_eq_refl, bytes_eq→eq, ne→bytes_eq,
  Bool-cases, inl, inr,
}
use mathlib.Core.Path.{fun_ext}
use fusefs_block.Posix.{Access, rd_only, wr_only}

-- An open file description; `file` is `none` once its path has been unlinked.
pub record Descriptor : Type 0 where
  pub file : Option CString
  pub offset : ℕ
  pub access : Access

abbrev pub Descriptors : Type 0
Descriptors = List (ℕ × Descriptor)

abbrev pub Files : Type 0
Files = CString → Option Bytes

pub record View : Type 0 where
  pub files : Files
  pub descriptors : Descriptors

abbrev pub can_read : Access → Bool
can_read wr_only = false
can_read _ = true

abbrev pub can_write : Access → Bool
can_write rd_only = false
can_write _ = true

unfoldable pub find_fd : ℕ → Descriptors → Option Descriptor
find_fd fd [] = none
find_fd fd ((k, d) ∷ ds) = if k == fd then some d else find_fd fd ds

unfoldable pub seek_fd : ℕ → ℕ → Descriptors → Descriptors
seek_fd fd off [] = []
seek_fd fd off ((k, d) ∷ ds) =
    if k == fd then (k, record d { offset = off }) ∷ ds else (k, d) ∷ seek_fd fd off ds

unfoldable pub drop_fd : ℕ → Descriptors → Descriptors
drop_fd fd [] = []
drop_fd fd ((k, d) ∷ ds) = if k == fd then ds else (k, d) ∷ drop_fd fd ds

-- The descriptors of a path lose it when it is unlinked.
abbrev orphan : CString → Descriptor → Descriptor
orphan p d = elim d.file [
  | none ↦ d
  | some q ↦ if bytes_eq p q then record d { file = none } else d
]

unfoldable pub orphan_fds : CString → Descriptors → Descriptors
orphan_fds p [] = []
orphan_fds p ((k, d) ∷ ds) = (k, orphan p d) ∷ orphan_fds p ds

unfoldable pub put_file : CString → Option Bytes → Files → Files
put_file p c files q = if bytes_eq p q then c else files q

-- A write at an offset: a gap before it is filled with zero bytes.
unfoldable pub overwrite : Bytes → ℕ → Bytes → Bytes
overwrite c off [] = c
overwrite [] zero (b ∷ bs) = b ∷ bs
overwrite (x ∷ c) zero (b ∷ bs) = b ∷ overwrite c zero bs
overwrite [] (suc off) (b ∷ bs) = 0 ∷ overwrite [] off (b ∷ bs)
overwrite (x ∷ c) (suc off) (b ∷ bs) = x ∷ overwrite c off (b ∷ bs)

abbrev pub moved : View → ℕ → ℕ → View
moved v fd off = record v { descriptors = seek_fd fd off v.descriptors }

abbrev pub opened : View → ℕ → CString → Access → View
opened v fd p a = record v {
  descriptors = (fd, record { file = some p; offset = 0; access = a }) ∷ v.descriptors;
}

abbrev pub closed : View → ℕ → View
closed v fd = record v { descriptors = drop_fd fd v.descriptors }

abbrev pub stored : View → CString → Option Bytes → View
stored v p c = record v { files = put_file p c v.files }

abbrev pub unlinked : View → CString → View
unlinked v p = record { files = put_file p none v.files; descriptors = orphan_fds p v.descriptors }

-- The laws of these functions.
pub put_file_self : (p : CString) (c : Option Bytes) (f : Files) → put_file p c f p ≡ c
unfolding put_file
put_file_self p c f = rw bytes_eq_refl

pub put_file_ne : (p q : CString) (c : Option Bytes) (f : Files) → p ≢ q → put_file p c f q ≡ f q
unfolding put_file
put_file_ne p q c f h = rw (ne→bytes_eq p q h)

pub put_file-put_file :
    (p : CString) (c d : Option Bytes) (f : Files) → put_file p c (put_file p d f) ≡ put_file p c f
unfolding put_file
put_file-put_file p c d f = fun_ext λ q. ground arith

-- Storing what is there changes nothing.
pub put_file_same : (p : CString) (f : Files) → put_file p (f p) f ≡ f
unfolding put_file
put_file_same p f =
    fun_ext
      λ q. elim (Bool-cases (bytes_eq p q)) [ inl e ↦ rw (e, bytes_eq→eq p q e) | inr e ↦ rw e ]

pub find_fd-seek_fd :
    (fd off : ℕ) (ds : Descriptors) (d : Descriptor)
    → find_fd fd ds ≡ some d
    → find_fd fd (seek_fd fd off ds) ≡ some (record d { offset = off })
unfolding find_fd seek_fd
find_fd-seek_fd fd off [] e h = cc
find_fd-seek_fd fd off ((k, d) ∷ ds) e h = ground (arith, find_fd-seek_fd fd off ds e)

pub seek_fd-seek_fd :
    (fd a b : ℕ) (ds : Descriptors) → seek_fd fd b (seek_fd fd a ds) ≡ seek_fd fd b ds
unfolding seek_fd
seek_fd-seek_fd fd a b [] = refl
seek_fd-seek_fd fd a b ((k, d) ∷ ds) = ground (arith, seek_fd-seek_fd fd a b ds)

pub find_fd-seek_fd_ne :
    (fd k off : ℕ) (ds : Descriptors) → fd ≢ k → find_fd k (seek_fd fd off ds) ≡ find_fd k ds
unfolding find_fd seek_fd
find_fd-seek_fd_ne fd k off [] h = refl
find_fd-seek_fd_ne fd k off ((j, d) ∷ ds) h = ground (arith, find_fd-seek_fd_ne fd k off ds)

same_head :
    (k : ℕ) (d : Descriptor) (ds : Descriptors) (e : Descriptor) (fd : ℕ)
    → some d ≡ some e
    → (k == fd) ≡ true
    → seek_fd fd e.offset ((k, d) ∷ ds) ≡ (k, d) ∷ ds
unfolding seek_fd
same_head k d ds e fd h same = let off : e.offset ≡ d.offset = cc in rw (same, off)

-- A descriptor that is moved to where it stands.
pub seek_fd_same :
    (fd : ℕ) (ds : Descriptors) (d : Descriptor)
    → find_fd fd ds ≡ some d
    → seek_fd fd d.offset ds ≡ ds
unfolding find_fd seek_fd
seek_fd_same fd [] e h = refl
seek_fd_same fd ((k, d) ∷ ds) e h = elim (Bool-cases (k == fd)) [
  | inl same ↦ same_head k d ds e fd (rw same at h) same
  | inr other ↦ rw (other, seek_fd_same fd ds e (rw other at h))
]

pub moved-moved : (v : View) (fd a b : ℕ) → moved (moved v fd a) fd b ≡ moved v fd b
moved-moved v fd a b =
    ap (λ ds. record v { descriptors = ds }) (seek_fd-seek_fd fd a b v.descriptors)

pub moved_same :
    (v : View) (fd : ℕ) (d : Descriptor)
    → find_fd fd v.descriptors ≡ some d
    → moved v fd d.offset ≡ v
moved_same v fd d h = ap (λ ds. record v { descriptors = ds }) (seek_fd_same fd v.descriptors d h)
