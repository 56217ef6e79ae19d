-- ===== src/Posix/Calls.antt =====
-- The documented calls as computations on views.
use mathlib.Core.Path.{subst}
use fusefs_block.Base.{
  ℕ, ◌≡◌, true, false, none, some, [], is_some, ℤ, pos, ◌+ℤ◌, length, Bytes, CString, arith, ap,
  ◌∙◌,
}
use fusefs_block.Posix.{
  Posix, Sys, ok, fail, enoent, eexist, OpenFlags, Whence, LockCommand, Flock, call,
}
use fusefs_block.Posix.View.{View, Descriptor, find_fd, moved, opened, closed, stored, unlinked}
use fusefs_block.Posix.Laws.{IsPosix, Gives, base}
use fusefs_block.Posix.Runs.{Runs, Runs-call}

module _ {os : Posix} (law : IsPosix os) where
  abbrev Gave : {A : Type 0} → (os.State → Sys A × os.State) → os.State → Sys A → View → Type 0
  Gave f s a w = Gives law.view law.pending (f s) a w (law.pending s)

module _ {os : Posix} (law : IsPosix os) {signals : ℕ} where
  pub Runs-open_existing :
      (v : View) (p : CString) (f : OpenFlags) (mode : ℕ) {c : Bytes}
      → law.usable p ≡ true
      → v.files p ≡ some c
      → f.exclusive ≡ false
      → Runs law signals
          (call (os.open_file p f mode))
          v
          (ok (law.fresh v))
          (opened v (law.fresh v) p f.access)
  Runs-open_existing v p f mode {c} u h x = Runs-call _ λ s e.
      subst
        (λ t.
          t.files p ≡ some c
          → Gave law (os.open_file p f mode) s (ok (law.fresh t))
              (opened t (law.fresh t) p f.access))
        e (λ k. law.open_existing s p f mode u k x) h

  pub Runs-open_missing :
      (v : View) (p : CString) (f : OpenFlags) (mode : ℕ)
      → law.usable p ≡ true
      → v.files p ≡ none
      → f.create ≡ false
      → Runs law signals (call (os.open_file p f mode)) v (fail enoent) v
  Runs-open_missing v p f mode u h x = Runs-call _ λ s e.
      subst (λ t. t.files p ≡ none → Gave law (os.open_file p f mode) s (fail enoent) t) e
        (λ k. law.open_missing s p f mode u k x) h

  pub Runs-open_creating :
      (v : View) (p : CString) (f : OpenFlags) (mode : ℕ)
      → law.creatable p mode ≡ true
      → v.files p ≡ none
      → f.create ≡ true
      → Runs law signals
          (call (os.open_file p f mode))
          v
          (ok (law.fresh v))
          (opened (stored v p (some [])) (law.fresh v) p f.access)
  Runs-open_creating v p f mode u h x = Runs-call _ λ s e.
      subst
        (λ t.
          t.files p ≡ none
          → Gave law (os.open_file p f mode) s (ok (law.fresh t))
              (opened (stored t p (some [])) (law.fresh t) p f.access))
        e (λ k. law.open_creating s p f mode u k x) h

  pub Runs-open_exclusive :
      (v : View) (p : CString) (f : OpenFlags) (mode : ℕ) {c : Bytes}
      → law.creatable p mode ≡ true
      → v.files p ≡ some c
      → f.create ≡ true
      → f.exclusive ≡ true
      → Runs law signals (call (os.open_file p f mode)) v (fail eexist) v
  Runs-open_exclusive v p f mode {c} u h x y = Runs-call _ λ s e.
      subst (λ t. t.files p ≡ some c → Gave law (os.open_file p f mode) s (fail eexist) t) e
        (λ k. law.open_exclusive s p f mode u k x y) h

  pub Runs-close :
      (v : View) (fd : ℕ) {d : Descriptor}
      → find_fd fd v.descriptors ≡ some d
      → Runs law signals (call (os.close_file (pos fd))) v (ok 0) (closed v fd)
  Runs-close v fd {d} h = Runs-call _ λ s e.
      subst
        (λ t.
          find_fd fd t.descriptors ≡ some d
          → Gave law (os.close_file (pos fd)) s (ok 0) (closed t fd))
        e (λ k. law.close_lem s fd k) h

  pub Runs-lock :
      (v : View) (fd : ℕ) (command : LockCommand) (fl : Flock) {d : Descriptor}
      → find_fd fd v.descriptors ≡ some d
      → Runs law signals (call (os.lock_file (pos fd) command fl)) v (ok 0) v
  Runs-lock v fd command fl {d} h = Runs-call _ λ s e.
      subst
        (λ t.
          find_fd fd t.descriptors ≡ some d
          → Gave law (os.lock_file (pos fd) command fl) s (ok 0) t)
        e (λ k. law.lock_lem s fd command fl k) h

  pub Runs-seek :
      (v : View) (fd : ℕ) (z : ℤ) (whence : Whence) (n : ℕ) {d : Descriptor} {p : CString}
      {c : Bytes}
      → find_fd fd v.descriptors ≡ some d
      → d.file ≡ some p
      → v.files p ≡ some c
      → pos (base whence d.offset (length c)) +ℤ z ≡ pos n
      → Runs law signals (call (os.seek_file (pos fd) z whence)) v (ok n) (moved v fd n)
  Runs-seek v fd z whence n {d} {p} {c} h hp hc x = Runs-call _ λ s e.
      subst
        (λ t.
          find_fd fd t.descriptors ≡ some d
          → t.files p ≡ some c
          → Gave law (os.seek_file (pos fd) z whence) s (ok n) (moved t fd n))
        e (λ k j. law.seek_lem s fd z whence n k hp j x) h hc

  pub Runs-access :
      (v : View) (p : CString)
      → law.usable p ≡ true
      → Runs law signals (call (os.access_f_ok p)) v (is_some (v.files p)) v
  unfolding call
  Runs-access v p u = record {
    from = λ s e h.
        let (r, w, q) = law.access_lem s p u in
        record {
          after = (os.access_f_ok p s).1;
          returns = λ i. some ((r ∙ ap (λ t. is_some (t.files p)) e) i, (os.access_f_ok p s).1);
          shows = w ∙ e;
          calm = omega arith;
        };
  }

  pub Runs-unlink :
      (v : View) (p : CString) {c : Bytes}
      → law.usable p ≡ true
      → v.files p ≡ some c
      → Runs law signals (call (os.unlink_file p)) v (ok 0) (unlinked v p)
  Runs-unlink v p {c} u h = Runs-call _ λ s e.
      subst (λ t. t.files p ≡ some c → Gave law (os.unlink_file p) s (ok 0) (unlinked t p)) e
        (λ k. law.unlink_lem s p u k) h
