-- ===== src/Posix.antt =====
-- The operating system that the program calls, as a parameter: the system calls over a state
-- that only the system knows, and the monad of a process that makes them.
pub mod View
pub mod Overwrite
pub mod Laws
pub mod Runs
pub mod Calls
pub mod Memory
use fusefs_block.Base.{ℕ, ◌≡◌, ◌⊎◌, inl, inr, refl, Bool, Option, none, some, ℤ, Bytes, CString}

-- `errno` numbers that the code names.
abbrev pub enoent : ℕ
enoent = 2

abbrev pub eintr : ℕ
eintr = 4

abbrev pub eexist : ℕ
eexist = 17

-- What a system call returns: a value, or -1 with `errno` set.
pub data Sys (A : Type 0) : Type 0 where
  ok : A → Sys A
  fail : ℕ → Sys A

pub Sys-cases : {A : Type 0} (r : Sys A) → ((a : A) × (r ≡ ok a)) ⊎ ((e : ℕ) × (r ≡ fail e))
Sys-cases (ok a) = inl (a, refl)
Sys-cases (fail e) = inr (e, refl)

pub data Access : Type 0 where
  rd_only wr_only rd_wr : Access

pub record OpenFlags : Type 0 where
  pub access : Access
  pub create : Bool
  pub exclusive : Bool

pub data Whence : Type 0 where
  seek_set seek_cur seek_end : Whence

-- The `l_type` values that the code stores; `f_ulock` is the `lockf` command of that name.
pub data LockKind : Type 0 where
  f_rdlck f_wrlck f_unlck f_ulock : LockKind

-- The fields of a `struct flock` that the code sets; `l_whence` is always `SEEK_SET`.
pub record Flock : Type 0 where
  pub l_type : LockKind
  pub l_start : ℕ
  pub l_len : ℕ

pub data LockCommand : Type 0 where
  f_setlkw f_ofd_setlkw : LockCommand

-- Descriptors are `int`s. `access_f_ok` is `access(path, F_OK) != -1`, and `is_dir` is whether
-- `stat` succeeds.
pub record Posix : Type 1 where
  pub State : Type 0
  pub open_file : CString → OpenFlags → ℕ → State → Sys ℕ × State
  pub close_file : ℤ → State → Sys ℕ × State
  pub read_file : ℤ → ℕ → State → Sys Bytes × State
  pub write_file : ℤ → Bytes → State → Sys ℕ × State
  pub seek_file : ℤ → ℤ → Whence → State → Sys ℕ × State
  pub lock_file : ℤ → LockCommand → Flock → State → Sys ℕ × State
  pub access_f_ok : CString → State → Bool × State
  pub unlink_file : CString → State → Sys ℕ × State
  pub stat_path : CString → State → Sys ℕ × State
  pub make_dir : CString → ℕ → State → Sys ℕ × State

-- A computation of the process. `none` is a loop whose fuel ran out.
abbrev pub M : Type 0 → Type 0 → Type 0
M S A = S → Option (A × S)

module _ {S : Type 0} where
  unfoldable pub pure : {A : Type 0} → A → M S A
  pure a s = some (a, s)

  -- A system call always returns.
  unfoldable pub call : {A : Type 0} → (S → A × S) → M S A
  call f s = some (f s)

  infixl 5 ◌>>=◌ ◌>>◌
  unfoldable pub ◌>>=◌ : {A B : Type 0} → M S A → (A → M S B) → M S B
  ◌>>=◌ m f s = elim (m s) [ none ↦ none | some (a, t) ↦ f a t ]

  unfoldable pub ◌>>◌ : {A B : Type 0} → M S A → M S B → M S B
  unfolding ◌>>=◌
  m >> k = m >>= λ _. k
