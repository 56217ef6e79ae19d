-- ===== src/Posix/Laws.antt =====
-- What the program relies on: the documented behaviour of the calls on regular files, for paths
-- that the process may use, where no device error occurs, descriptors do not run out and locks
-- are granted. A read or write may be interrupted by one of finitely many pending signals, and
-- may be short.
use fusefs_block.Base.{
  ℕ, ◌+◌, ◌/◌, ◌%◌, ◌==◌, ◌≤◌, ◌<◌, ◌≡◌, ◌⊎◌, Bool, true, false, none, some, [], is_some, ℤ, pos,
  ◌+ℤ◌, length, take, drop, Bytes, CString,
}
use fusefs_block.Posix.{
  Posix, Sys, ok, fail, enoent, eintr, eexist, OpenFlags, Whence, seek_set, seek_cur, seek_end,
  LockCommand, Flock,
}
use fusefs_block.Posix.View.{
  View, Descriptor, find_fd, overwrite, can_read, can_write, moved, opened, closed, stored,
  unlinked,
}

-- The call's result, the view after it, and at most `n` signals still pending.
pub record Gives {S A : Type 0} (view : S → View) (pending : S → ℕ) (out : Sys A × S) (a : Sys A)
    (w : View) (n : ℕ) : Type 0 where
  pub result : out.0 ≡ a
  pub view_after : view out.1 ≡ w
  pub pending_after : pending out.1 ≤ n

-- Whether a mode lets the owner read and write.
abbrev pub owner_rw : ℕ → Bool
owner_rw mode = mode / 128 % 4 == 3

abbrev pub base : Whence → ℕ → ℕ → ℕ
base seek_set off len = 0
base seek_cur off len = off
base seek_end off len = len

pub record IsPosix (os : Posix) : Type 0 where
  pub view : os.State → View
  -- The number of signals that can still interrupt a call.
  pub pending : os.State → ℕ
  -- Paths in directories that the process may change, of regular files that the process may open
  -- for reading and for writing whenever they are there.
  pub usable : CString → Bool
  -- Paths in directories that the process may change, where it makes files with this mode.
  pub creatable : CString → ℕ → Bool
  -- The owner's bits of a mode pass the file mode creation mask: files that are made with them
  -- stay files that may be opened for reading and for writing.
  pub usable_creatable :
      (p : CString) (mode : ℕ) → usable p ≡ true → owner_rw mode ≡ true → creatable p mode ≡ true
  pub fresh : View → ℕ
  pub fresh_free : (v : View) → find_fd (fresh v) v.descriptors ≡ none
  pub open_existing :
      (s : os.State) (p : CString) (f : OpenFlags) (mode : ℕ) {c : Bytes}
      → usable p ≡ true
      → (view s).files p ≡ some c
      → f.exclusive ≡ false
      → Gives view pending
          (os.open_file p f mode s)
          (ok (fresh (view s)))
          (opened (view s) (fresh (view s)) p f.access)
          (pending s)
  pub open_missing :
      (s : os.State) (p : CString) (f : OpenFlags) (mode : ℕ)
      → usable p ≡ true
      → (view s).files p ≡ none
      → f.create ≡ false
      → Gives view pending (os.open_file p f mode s) (fail enoent) (view s) (pending s)
  pub open_creating :
      (s : os.State) (p : CString) (f : OpenFlags) (mode : ℕ)
      → creatable p mode ≡ true
      → (view s).files p ≡ none
      → f.create ≡ true
      → Gives view pending
          (os.open_file p f mode s)
          (ok (fresh (view s)))
          (opened (stored (view s) p (some [])) (fresh (view s)) p f.access)
          (pending s)
  pub open_exclusive :
      (s : os.State) (p : CString) (f : OpenFlags) (mode : ℕ) {c : Bytes}
      → creatable p mode ≡ true
      → (view s).files p ≡ some c
      → f.create ≡ true
      → f.exclusive ≡ true
      → Gives view pending (os.open_file p f mode s) (fail eexist) (view s) (pending s)
  pub close_lem :
      (s : os.State) (fd : ℕ) {d : Descriptor}
      → find_fd fd (view s).descriptors ≡ some d
      → Gives view pending (os.close_file (pos fd) s) (ok 0) (closed (view s) fd) (pending s)
  -- A read before the end of the file gives at least one byte, or is interrupted.
  pub read_lem :
      (s : os.State) (fd n : ℕ) {d : Descriptor} {p : CString} {c : Bytes}
      → find_fd fd (view s).descriptors ≡ some d
      → d.file ≡ some p
      → can_read d.access ≡ true
      → (view s).files p ≡ some c
      → ((m : ℕ) × (m < pending s)
          × Gives view pending (os.read_file (pos fd) n s) (fail eintr) (view s) m)
        ⊎ ((k : ℕ) × (k ≤ n)
            × (k ≤ length (drop d.offset c))
            × (0 < n → 0 < length (drop d.offset c) → 0 < k)
            × Gives view pending
                (os.read_file (pos fd) n s)
                (ok (take k (drop d.offset c)))
                (moved (view s) fd (d.offset + k))
                (pending s))
  -- A write takes at least one byte, if there is one, or is interrupted.
  pub write_lem :
      (s : os.State) (fd : ℕ) (bs : Bytes) {d : Descriptor} {p : CString} {c : Bytes}
      → find_fd fd (view s).descriptors ≡ some d
      → d.file ≡ some p
      → can_write d.access ≡ true
      → (view s).files p ≡ some c
      → ((m : ℕ) × (m < pending s)
          × Gives view pending (os.write_file (pos fd) bs s) (fail eintr) (view s) m)
        ⊎ ((k : ℕ) × (k ≤ length bs)
            × (0 < length bs → 0 < k)
            × Gives view pending
                (os.write_file (pos fd) bs s)
                (ok k)
                (moved
                  (stored (view s) p (some (overwrite c d.offset (take k bs))))
                  fd
                  (d.offset + k))
                (pending s))
  pub seek_lem :
      (s : os.State) (fd : ℕ) (z : ℤ) (whence : Whence) (n : ℕ) {d : Descriptor} {p : CString}
      {c : Bytes}
      → find_fd fd (view s).descriptors ≡ some d
      → d.file ≡ some p
      → (view s).files p ≡ some c
      → pos (base whence d.offset (length c)) +ℤ z ≡ pos n
      → Gives view pending
          (os.seek_file (pos fd) z whence s)
          (ok n)
          (moved (view s) fd n)
          (pending s)
  pub lock_lem :
      (s : os.State) (fd : ℕ) (command : LockCommand) (fl : Flock) {d : Descriptor}
      → find_fd fd (view s).descriptors ≡ some d
      → Gives view pending (os.lock_file (pos fd) command fl s) (ok 0) (view s) (pending s)
  pub access_lem :
      (s : os.State) (p : CString)
      → usable p ≡ true
      → ((os.access_f_ok p s).0 ≡ is_some ((view s).files p))
        × (view (os.access_f_ok p s).1 ≡ view s)
        × (pending (os.access_f_ok p s).1 ≤ pending s)
  pub unlink_lem :
      (s : os.State) (p : CString) {c : Bytes}
      → usable p ≡ true
      → (view s).files p ≡ some c
      → Gives view pending (os.unlink_file p s) (ok 0) (unlinked (view s) p) (pending s)
